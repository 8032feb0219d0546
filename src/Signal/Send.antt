-- ===== src/Signal/Send.antt =====
-- send_signal: what it does to its target and to the others, and when it is refused.
use shadow_box_os.Common.{
  ℕ, ◌-◌, ◌≤◌, ◌≡◌, ◌≢◌, ◌⊎◌, inl, inr, refl, ap, ◌∙◌, true, false, ◌||◌, none, some, List, [], ◌∷◌,
  arith, ◌==◌, Bool-cases, Option-cases, ltb,
}
use shadow_box_os.Common.Bits.{test_bit, test_bit-bit_or, test_bit-pow}
use shadow_box_os.Common.Int.{ℤ, pos, negsuc}
use shadow_box_os.Common.Errno.{einval, esrch, ok, err}
use shadow_box_os.Signal.{
  Process, System, TaskState, proc_find, put_back, send_signal, signalled, woken, wakes, bit_of,
  in_range, send_to,
}

proc_find-pid :
    (ps : List Process) (pid : ℕ) (p : Process) → proc_find ps pid ≡ some p → p.pid ≡ pid
unfolding proc_find
proc_find-pid [] pid p e = cc
proc_find-pid (x ∷ ps) pid p e = ground (arith, proc_find-pid ps pid p)

put_back_lem :
    (ps : List Process) (pid : ℕ) (p q : Process)
    → proc_find ps pid ≡ some p
    → q.pid ≡ pid
    → (proc_find (put_back ps pid q) pid ≡ some q)
      × ((other : ℕ) → other ≢ pid → proc_find (put_back ps pid q) other ≡ proc_find ps other)
unfolding proc_find put_back
put_back_lem [] pid p q e same = cc
put_back_lem (x ∷ ps) pid p q e same = elim (Bool-cases (x.pid == pid)) [
  | inl here ↦ (ground arith, λ other ne. ground arith)
  | inr later ↦
      let rest = put_back_lem ps pid p q (ground arith) same in
      (ground arith, λ other ne. ground (arith, rest.1 other ne))
]

-- What the target of a signal becomes: the signal's pending bit set, and if it was blocked, ready
-- and handed to the scheduler; the rest of it, and every other process, as before.
pub record Signalled (s s' : System) (pid sig : ℕ) (p : Process) : Type 0 where
  pub target : Process
  pub found : proc_find s'.processes pid ≡ some target
  pub pending : (k : ℕ) → test_bit target.sig_pending k ≡ test_bit p.sig_pending k || (sig - 1 == k)
  pub blocked_same : target.sig_blocked ≡ p.sig_blocked
  pub actions_same : target.sig_actions ≡ p.sig_actions
  pub scheduled :
      ((p.state ≡ TaskState.blocked)
        × (target.state ≡ TaskState.ready)
        × (s'.enqueued ≡ pid ∷ s.enqueued))
      ⊎ ((p.state ≢ TaskState.blocked) × (target.state ≡ p.state) × (s'.enqueued ≡ s.enqueued))
  pub others :
      (other : ℕ) → other ≢ pid → proc_find s'.processes other ≡ proc_find s.processes other

blocked-or_not : (st : TaskState) → (st ≡ TaskState.blocked) ⊎ (st ≢ TaskState.blocked)
blocked-or_not TaskState.blocked = inl refl
blocked-or_not TaskState.running = inr (λ e. cc)
blocked-or_not TaskState.ready = inr (λ e. cc)
blocked-or_not TaskState.zombie = inr (λ e. cc)
blocked-or_not TaskState.stopped = inr (λ e. cc)

-- Waking changes the state of a blocked process and nothing else.
pub woken_lem :
    (p : Process)
    → let q = woken p in
      (q.pid ≡ p.pid)
      × (q.sig_pending ≡ p.sig_pending)
      × (q.sig_blocked ≡ p.sig_blocked)
      × (q.sig_actions ≡ p.sig_actions)
      × (p.state ≡ TaskState.blocked → (q.state ≡ TaskState.ready) × (wakes p ≡ true))
      × (p.state ≢ TaskState.blocked → (q.state ≡ p.state) × (wakes p ≡ false))
woken_lem p = ground arith

send_to-Signalled :
    (s : System) (pid n : ℕ) (p : Process)
    → proc_find s.processes pid ≡ some p
    → Signalled s (send_to s pid n p) pid n p
send_to-Signalled s pid n p e =
    let same = proc_find-pid s.processes pid p e in
    let target = woken (signalled p n) in
    let facts = woken_lem (signalled p n) in
    let moved = put_back_lem s.processes pid p target e (facts.0 ∙ same) in
    record {
      target = target;
      found = moved.0;
      pending = λ k.
          ap (λ x. test_bit x k) facts.1
          ∙ test_bit-bit_or p.sig_pending (bit_of n) k
          ∙ ap (◌||◌ (test_bit p.sig_pending k)) (test_bit-pow (n - 1) k);
      blocked_same = facts.2;
      actions_same = facts.3;
      scheduled = elim (blocked-or_not p.state) [
        | inl b ↦ inl (b, (facts.4 b).0, ground (arith, facts.4 b))
        | inr nb ↦ inr (nb, (facts.5 nb).0, ground (arith, facts.5 nb))
      ];
      others = moved.1;
    }

-- A signal number outside 1 to 31 is refused with EINVAL, a process that is not there with ESRCH;
-- otherwise the target is signalled.
pub send_signal_lem :
    (s : System) (pid : ℕ) (sig : ℤ)
    → ((in_range sig ≡ none) × (send_signal s pid sig ≡ err einval))
      ⊎ ((proc_find s.processes pid ≡ none) × (send_signal s pid sig ≡ err esrch))
      ⊎ ((n : ℕ) × (p : Process) × (s' : System) × (sig ≡ pos n)
          × (1 ≤ n)
          × (n ≤ 31)
          × (proc_find s.processes pid ≡ some p)
          × (send_signal s pid sig ≡ ok s')
          × Signalled s s' pid n p)
unfolding send_signal
send_signal_lem s pid (negsuc n) = inl (refl, refl)
send_signal_lem s pid (pos n) = elim (Bool-cases (ltb n 1 || ltb 31 n)) [
  | inl out ↦ inl (rw out, rw (out, send_signal))
  | inr within ↦ elim (Option-cases (proc_find s.processes pid)) [
    | inl missing ↦ inr (inl (missing, rw (within, send_signal) (rw missing)))
    | inr (p, e) ↦ inr (
        inr (
          n,
          p,
          send_to s pid n p,
          refl,
          ground arith,
          ground arith,
          e,
          rw (within, send_signal) (rw e),
          send_to-Signalled s pid n p e,
        ))
  ]
]
