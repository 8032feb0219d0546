-- ===== src/Sched.antt =====
-- kernel/sched.c: the run queue, a binary heap on the virtual run time.
pub mod Keys
pub mod Sift
pub mod Held
pub mod Fill
pub mod Order
pub mod Pick
pub mod Once
mod Examples
use shadow_box_os.Common.{
  ℕ, zero, suc, ◌+◌, ◌-◌, ◌*◌, ◌/◌, ◌%◌, ◌^◌, Bool, true, false, not, ◌&&◌, ◌||◌, Option, none,
  some, List, [], ◌∷◌, ◌++◌, length, get_or, set, take, ltb, leb, ◌==◌, if◌then◌else◌,
}
use shadow_box_os.Common.Int.{ℤ, pos, negsuc}

pub data Policy : Type 0 where
  sched_normal : Policy
  sched_fifo : Policy
  sched_rr : Policy
  sched_batch : Policy
  sched_iso : Policy
  sched_idle : Policy

-- The fields of `struct process` that the scheduler uses; the address is the `pid`.
pub record Task : Type 0 where
  pub pid : ℕ
  pub vruntime : ℕ
  pub nice : ℤ
  pub time_slice : ℕ
  pub policy : Policy

-- What a read past the end of the queue yields; no such read is made.
abbrev pub no_task : Task
no_task = record { pid = 0; vruntime = 0; nice = pos 0; time_slice = 0; policy = sched_normal }

-- The first `rq_size` slots of the array.
pub record Scheduler : Type 0 where
  pub runqueue : List Task
  pub rq_capacity : ℕ
  pub min_vruntime : ℕ

abbrev pub sched_granularity : ℕ
sched_granularity = 10000000

abbrev pub weight_table : List ℕ
weight_table =
    88761 ∷ 71713 ∷ 56483 ∷ 46273 ∷ 36291 ∷ 29154 ∷ 23254 ∷ 18705 ∷ 14949 ∷ 11916 ∷ 9548 ∷ 7620
    ∷ 6100 ∷ 4904 ∷ 3906 ∷ 3121 ∷ 2501 ∷ 1991 ∷ 1586 ∷ 1277 ∷ 1024 ∷ 820 ∷ 655 ∷ 526 ∷ 423 ∷ 335
    ∷ 272 ∷ 215 ∷ 172 ∷ 137 ∷ 110 ∷ 87 ∷ 70 ∷ 56 ∷ 45 ∷ 36 ∷ 29 ∷ 23 ∷ 18 ∷ 15 ∷ []

-- `nice + 20` after the clamps to -20 and 19; `negsuc n` is -(n + 1).
abbrev pub weight_index : ℤ → ℕ
weight_index (pos n) = if ltb 19 n then 39 else n + 20
weight_index (negsuc n) = if ltb 19 n then 0 else 19 - n

unfoldable pub nice_to_weight : ℤ → ℕ
nice_to_weight nice = get_or weight_table (weight_index nice) 0

abbrev pub init : Scheduler
init = record { runqueue = []; rq_capacity = 64; min_vruntime = 0 }

abbrev pub key : List Task → ℕ → ℕ
key q i = (get_or q i no_task).vruntime

unfoldable pub swap_nodes : List Task → ℕ → ℕ → List Task
swap_nodes q i j = set (set q i (get_or q j no_task)) j (get_or q i no_task)

abbrev pub parent : ℕ → ℕ
parent i = (i - 1) / 2

-- The loop of heapify_up, with fuel.
unfoldable pub sift_up : ℕ → List Task → ℕ → List Task
sift_up zero q idx = q
sift_up (suc fuel) q idx = elim ((idx == 0) || leb (key q (parent idx)) (key q idx)) [
  | true ↦ q
  | false ↦ sift_up fuel (swap_nodes q idx (parent idx)) (parent idx)
]

abbrev pub heapify_up : List Task → ℕ → List Task
heapify_up q idx = sift_up idx q idx

-- `child` if it is in the queue and runs before `at`, and `at` if not.
abbrev pub smaller : List Task → ℕ → ℕ → ℕ
smaller q child at = if ltb child (length q) && ltb (key q child) (key q at) then child else at

abbrev pub smallest : List Task → ℕ → ℕ
smallest q idx = smaller q (2 * idx + 2) (smaller q (2 * idx + 1) idx)

-- The loop of heapify_down, with fuel.
unfoldable pub sift_down : ℕ → List Task → ℕ → List Task
sift_down zero q idx = q
sift_down (suc fuel) q idx = elim (smallest q idx == idx) [
  | true ↦ q
  | false ↦ sift_down fuel (swap_nodes q idx (smallest q idx)) (smallest q idx)
]

abbrev pub heapify_down : List Task → ℕ → List Task
heapify_down q idx = sift_down (length q - idx) q idx

-- After the front task has left.
unfoldable pub settled : List Task → List Task
settled q = if ltb 0 (length q) then heapify_down q 0 else q

abbrev pub vruntime_delta : Task → ℕ
vruntime_delta p = (sched_granularity * 1024) / nice_to_weight p.nice

unfoldable pub grown : Scheduler → Scheduler
grown s =
    if leb s.rq_capacity (length s.runqueue)
    then record s { rq_capacity = s.rq_capacity * 2 }
    else s

unfoldable pub holds : List Task → ℕ → Bool
holds [] pid = false
holds (p ∷ q) pid = (p.pid == pid) || holds q pid

-- A task starts no earlier than the queue's least virtual run time.
unfoldable pub placed : ℕ → Task → Task
placed least p =
    let at = if p.vruntime == 0 then least else p.vruntime in
    record p { vruntime = if ltb at least then least else at }

unfoldable pub enqueue : Scheduler → Task → Scheduler
enqueue s p =
    let t = grown s in
    let p' = placed t.min_vruntime p in
    if holds t.runqueue p.pid
    then t
    else record t { runqueue = heapify_up (t.runqueue ++ p' ∷ []) (length t.runqueue) }

abbrev pub charged : Task → Task
charged p = record p {
  vruntime = (p.vruntime + vruntime_delta p) % 2 ^ 64;
  time_slice = if ltb 5 p.time_slice then p.time_slice - 5 else 0;
}

-- The last task fills slot `i`, and the queue is one shorter.
unfoldable pub filled : List Task → ℕ → List Task
filled q i = take (length q - 1) (set q i (get_or q (length q - 1) no_task))

abbrev pub is_fifo : Policy → Bool
is_fifo sched_fifo = true
is_fifo sched_normal = false
is_fifo sched_rr = false
is_fifo sched_batch = false
is_fifo sched_iso = false
is_fifo sched_idle = false

-- A SCHED_FIFO task with time left stays at the front, charged.
unfoldable pub pick_next : Scheduler → Option Task × Scheduler
pick_next s = elim (length s.runqueue == 0) [
  | true ↦ (none, s)
  | false ↦
      let p = charged (get_or s.runqueue 0 no_task) in
      let least = if ltb s.min_vruntime p.vruntime then p.vruntime else s.min_vruntime in
      if is_fifo p.policy && ltb 0 p.time_slice
      then (some p, record s { runqueue = set s.runqueue 0 p; min_vruntime = least })
      else (some p, record s { runqueue = settled (filled s.runqueue 0); min_vruntime = least })
]

-- The first slot from `i` that holds the task.
unfoldable pub slot_of : List Task → ℕ → ℕ → Option ℕ
slot_of [] pid i = none
slot_of (p ∷ q) pid i = if p.pid == pid then some i else slot_of q pid (i + 1)

unfoldable pub remove : Scheduler → ℕ → Scheduler
remove s pid = elim (slot_of s.runqueue pid 0) [
  | none ↦ s
  | some i ↦
      let q = filled s.runqueue i in
      record s { runqueue = if ltb i (length q) then heapify_up (heapify_down q i) i else q }
]
