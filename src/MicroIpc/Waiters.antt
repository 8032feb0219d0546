-- ===== src/MicroIpc/Waiters.antt =====
-- kernel/micro_ipc.c: the queue of the processes that wait to send.
use shadow_box_os.Common.{
  ℕ, zero, suc, ◌≤◌, ◌<◌, ◌≡◌, ◌≢◌, refl, Option, none, some, List, [], ◌∷◌, ◌++◌, length, ◌==◌,
  if◌then◌else◌, arith, All,
}
use shadow_box_os.MicroIpc.{Process, System, last_waiter, enqueue, set_process}

-- The processes from one pointer on, along their links.
abbrev pub Chain : (ℕ → Process) → Option ℕ → List ℕ → Type 0
Chain process o [] = o ≡ none
Chain process o (x ∷ xs) = (o ≡ some x) × Chain process (process x).ipc_next_waiter xs

-- The links of these processes are the same.
abbrev pub SameLinks : (ℕ → Process) → (ℕ → Process) → List ℕ → Type 0
SameLinks p q xs = All (λ x. (q x).ipc_next_waiter ≡ (p x).ipc_next_waiter) xs

pub Chain-same :
    (p q : ℕ → Process) (o : Option ℕ) (xs : List ℕ)
    → SameLinks p q xs
    → Chain p o xs
    → Chain q o xs
Chain-same p q o [] same h = h
Chain-same p q o (x ∷ xs) same h =
    (h.0, rw (same.0) (Chain-same p q (p x).ipc_next_waiter xs same.1 h.1))

pub all_same :
    (p q : ℕ → Process) (xs : List ℕ)
    → ((x : ℕ) → (q x).ipc_next_waiter ≡ (p x).ipc_next_waiter)
    → SameLinks p q xs
all_same p q [] h = tt
all_same p q (x ∷ xs) h = (h x, all_same p q xs h)

pub same_but :
    (p q : ℕ → Process) (c : ℕ) (xs : List ℕ)
    → ((x : ℕ) → x ≢ c → (q x).ipc_next_waiter ≡ (p x).ipc_next_waiter)
    → All (λ x. x ≢ c) xs
    → SameLinks p q xs
same_but p q c [] h away = tt
same_but p q c (x ∷ xs) h away = (h x away.0, same_but p q c xs h away.1)

-- The processes after `l` was linked to `c`.
abbrev pub linked_to : (ℕ → Process) → ℕ → ℕ → ℕ → Process
linked_to p l c x = if x == l then record (p l) { ipc_next_waiter = some c } else p x

-- The last of a queue that does not hold `c`, and the queue once it is linked to `c`.
pub last_waiter_lem :
    (f : ℕ) (p : ℕ → Process) (c x : ℕ) (xs : List ℕ)
    → Chain p (p x).ipc_next_waiter xs
    → x ≢ c
    → All (λ y. y ≢ c) xs
    → (p c).ipc_next_waiter ≡ none
    → length xs < f
    → (l : ℕ) × (last_waiter f p x ≡ some l)
      × ((p l).ipc_next_waiter ≡ none)
      × Chain (linked_to p l c) (linked_to p l c x).ipc_next_waiter (xs ++ c ∷ [])
unfolding last_waiter
last_waiter_lem zero p c x xs h away others last fuel = absurd (omega arith)
last_waiter_lem (suc f) p c x [] h away others last fuel =
    (x, ground (arith, h), h, (ground arith, ground (arith, away, last)))
last_waiter_lem (suc f) p c x (y ∷ ys) h away others last fuel =
    let (l, run, ends, chain) =
      last_waiter_lem f p c y ys h.1 others.0 others.1 last (omega arith) in
    let ahead : (linked_to p l c x).ipc_next_waiter ≡ some y = ground (arith, h.0, ends) in
    (l, ground (arith, h.0, run), ends, (ahead, chain))

cleared : System → ℕ → System
cleared s c = set_process s c (record (s.process c) { ipc_next_waiter = none })

-- A process that is not in the queue comes in at its end, and nothing but links and the head changes.
pub enqueue_lem :
    (f : ℕ) (s : System) (c t : ℕ) (ws : List ℕ)
    → c ≢ t
    → Chain s.process (s.process t).ipc_waiters ws
    → All (λ w. w ≢ c) ws
    → length ws ≤ f
    → (s' : System) × (enqueue f s c t ≡ some s')
      × Chain s'.process (s'.process t).ipc_waiters (ws ++ c ∷ [])
      × (s'.memory ≡ s.memory)
      × ((s'.process c).ipc_status ≡ (s.process c).ipc_status)
      × ((s'.process c).ipc_peer ≡ (s.process c).ipc_peer)
      × ((s'.process c).ipc_msg_ptr ≡ (s.process c).ipc_msg_ptr)
unfolding enqueue cleared
enqueue_lem f s c t [] apart h away fuel = (
  set_process (cleared s c) t (record ((cleared s c).process t) { ipc_waiters = some c }),
  ground (arith, apart, h),
  (ground (arith, apart), ground (arith, apart)),
  refl,
  ground (arith, apart),
  ground (arith, apart),
  ground (arith, apart),
)
enqueue_lem f s c t (w ∷ ws) apart h away fuel =
    let same : SameLinks s.process (cleared s c).process ws =
      same_but s.process (cleared s c).process c ws (λ x ne. ground (arith, ne)) away.1 in
    let tail : Chain (cleared s c).process ((cleared s c).process w).ipc_next_waiter ws =
      rw (link w away.0) (Chain-same s.process (cleared s c).process _ ws same h.1) in
    let (l, run, ends, chain) =
      last_waiter_lem f (cleared s c).process c w ws tail away.0 away.1 (ground arith)
        (omega arith) in
    (
      set_process (cleared s c) l (record ((cleared s c).process l) { ipc_next_waiter = some c }),
      ground (arith, apart, h.0, run),
      (ground (arith, apart, h.0), chain),
      refl,
      ground (arith, apart),
      ground (arith, apart),
      ground (arith, apart),
    )
  where
    link :
        (x : ℕ) → x ≢ c → ((cleared s c).process x).ipc_next_waiter ≡ (s.process x).ipc_next_waiter
    link x ne = ground (arith, ne)
