-- ===== src/Sched/Once.antt =====
-- Sequences of calls of kernel/sched.c: the queue stays a heap and no task waits twice.
use shadow_box_os.Common.{
  ℕ, ◌≤◌, ◌≡◌, refl, sym, ap, ◌∙◌, arith, inl, inr, true, false, ◌&&◌, ◌||◌, List, [], ◌∷◌, get_or,
  Bool-cases, ltb, ◌==◌, subst, All,
}
use shadow_box_os.Common.Count.{one_if}
use shadow_box_os.Sched.{
  Task, Scheduler, no_task, holds, placed, enqueue, charged, is_fifo, pick_next, remove,
}
use shadow_box_os.Sched.Held.{tally, SameTasks}
use shadow_box_os.Sched.Order.{IsSound, enqueue_lem}
use shadow_box_os.Sched.Pick.{copies, pick_next_lem, remove_lem}

pub data Call : Type 0 where
  enqueues : Task → Call
  picks : Call
  removes : ℕ → Call

unfoldable pub step : Scheduler → Call → Scheduler
step s (enqueues p) = enqueue s p
step s picks = (pick_next s).1
step s (removes pid) = remove s pid

unfoldable pub run : Scheduler → List Call → Scheduler
run s [] = s
run s (c ∷ cs) = run (step s c) cs

abbrev pub fifos : List Task → ℕ
fifos q = tally (λ t. is_fifo t.policy) q

-- The queue is sound, without SCHED_FIFO tasks, and holds each task once at most.
pub record IsFair (s : Scheduler) : Type 0 where
  pub sound : IsSound s
  pub no_fifo : fifos s.runqueue ≡ 0
  pub once : (pid : ℕ) → copies pid s.runqueue ≤ 1

-- The call is no sched_enqueue of a SCHED_FIFO task.
abbrev pub IsFairCall : Call → Type 0
IsFairCall (enqueues p) = is_fifo p.policy ≡ false
IsFairCall picks = Unit
IsFairCall (removes pid) = Unit

copies-holds : (q : List Task) (pid : ℕ) → holds q pid ≡ false → copies pid q ≡ 0
unfolding holds
copies-holds [] pid h = refl
copies-holds (t ∷ q) pid h = elim (Bool-cases (t.pid == pid)) [
  | inl e ↦ let clash : true ≡ false = ap (λ b. b || holds q pid) (sym e) ∙ h in cc
  | inr e ↦ rw e (omega (arith, copies-holds q pid (ap (λ b. b || holds q pid) (sym e) ∙ h)))
]

placed_same :
    (least : ℕ) (p : Task) → ((placed least p).pid ≡ p.pid) × ((placed least p).policy ≡ p.policy)
unfolding placed
placed_same least p = (refl, refl)

-- Taking a task out keeps a fair queue fair.
less-IsFair :
    (s t : Scheduler) (p : Task)
    → IsFair s
    → IsSound t
    → SameTasks (p ∷ t.runqueue) s.runqueue
    → IsFair t
less-IsFair s t p h sound others = record {
  sound = sound;
  no_fifo = omega (arith, others (λ u. is_fifo u.policy), h.no_fifo);
  once = λ pid. omega (arith, others (λ u. u.pid == pid), h.once pid);
}

front_plain : (q : List Task) → fifos q ≡ 0 → is_fifo (get_or q 0 no_task).policy ≡ false
front_plain [] h = refl
front_plain (t ∷ q) h = elim (Bool-cases (is_fifo t.policy)) [
  | inl e ↦ let one : one_if (is_fifo t.policy) ≡ 1 = ap one_if e in absurd (omega arith)
  | inr e ↦ e
]

==_eq : (a b : ℕ) → (a == b) ≡ true → a ≡ b
==_eq a b e = ground arith

step-IsFair : (s : Scheduler) (c : Call) → IsFair s → IsFairCall c → IsFair (step s c)
unfolding step
step-IsFair s (enqueues p) h fair =
    let (sound, least, done) = enqueue_lem s p h.sound in
    let t = enqueue s p in
    let p' = placed s.min_vruntime p in
    let (pid_same, policy_same) = placed_same s.min_vruntime p in
    elim done [
      | inl (e, same) ↦ record {
        sound = sound;
        no_fifo = ap fifos same ∙ h.no_fifo;
        once = λ pid. subst (λ q. copies pid q ≤ 1) (sym same) (h.once pid);
      }
      | inr (e, more) ↦ record {
        sound = sound;
        no_fifo =
            let plain : one_if (is_fifo p'.policy) ≡ 0 =
              ap (λ b. one_if (is_fifo b)) policy_same ∙ ap one_if fair in
            omega (arith, more (λ u. is_fifo u.policy), h.no_fifo);
        once = λ pid. elim (Bool-cases (p'.pid == pid)) [
          | inl e' ↦
              let this : p.pid ≡ pid = sym pid_same ∙ ==_eq p'.pid pid e' in
              let old : copies pid s.runqueue ≡ 0 =
                ap (λ k. copies k s.runqueue) (sym this) ∙ copies-holds s.runqueue p.pid e in
              let one : one_if (p'.pid == pid) ≡ 1 = ap one_if e' in
              omega (arith, more (λ u. u.pid == pid))
          | inr e' ↦
              let none_more : one_if (p'.pid == pid) ≡ 0 = ap one_if e' in
              omega (arith, more (λ u. u.pid == pid), h.once pid)
        ];
      }
    ]
step-IsFair s picks h fair = elim (pick_next_lem s h.sound) [
  | inl (empty, none_picked, same) ↦ subst IsFair (sym same) h
  | inr (picked, least, done) ↦ elim done [
    | inl (stays, same) ↦
        let clash : true ≡ false =
          sym stays
          ∙ ap (λ b. b && ltb 0 (charged (get_or s.runqueue 0 no_task)).time_slice)
              (front_plain s.runqueue h.no_fifo) in
        cc
    | inr (leaves, others, sound) ↦
        less-IsFair s (pick_next s).1 (get_or s.runqueue 0 no_task) h sound others
  ]
]
step-IsFair s (removes pid) h fair =
    let (sound, done) = remove_lem s pid h.sound in
    elim done [
      | inl (absent, same) ↦ subst IsFair (sym same) h
      | inr (p, same, others) ↦ less-IsFair s (remove s pid) p h sound others
    ]

-- Whatever is enqueued, picked and removed, as long as no SCHED_FIFO task is enqueued, a fair queue
-- stays fair.
pub run-IsFair : (s : Scheduler) (cs : List Call) → IsFair s → All IsFairCall cs → IsFair (run s cs)
unfolding run
run-IsFair s [] h fair = h
run-IsFair s (c ∷ cs) h fair = run-IsFair (step s c) cs (step-IsFair s c h fair.0) fair.1
