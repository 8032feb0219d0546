-- ===== src/Softirq/Tasklets.antt =====
-- Tasklets of kernel/softirq.c: each scheduled one waits once, and runs once.
use shadow_box_os.Common.{
  ℕ, zero, suc, Option-cases, some, ◌≤◌, ◌+◌, ◌≡◌, refl, sym, ap, ◌∙◌, arith, inl, inr, Bool, true,
  false, not, ◌&&◌, List, [], ◌∷◌, ◌++◌, Bool-cases, ◌==◌, if◌then◌else◌,
}
use shadow_box_os.Common.Count.{one_if}
use shadow_box_os.Softirq.{
  Softirq, raise, with_state, tasklet_schedule, take_list, first_of, advance, tasklet_turn,
}

-- How often the tasklet is in the list.
abbrev pub times : ℕ → List ℕ → ℕ
times t [] = 0
times t (u ∷ us) = one_if (u == t) + times t us

-- How often it is in the batches.
abbrev pub in_batches : ℕ → List (List ℕ) → ℕ
in_batches t [] = 0
in_batches t (b ∷ bs) = times t b + in_batches t bs

-- How often the tasklet waits to run.
abbrev pub waiting : ℕ → Softirq → ℕ
waiting t s = times t s.tasklet_list + in_batches t s.batches

-- A tasklet waits once if its state says that it is scheduled, and not at all if not.
abbrev pub IsTracked : Softirq → Type 0
IsTracked s = (t : ℕ) → waiting t s ≡ one_if (s.scheduled t)

-- A call of tasklet_schedule, the start of a call of tasklet_action, or a turn of the loop of one.
pub data Call : Type 0 where
  schedules : ℕ → Call
  takes : Call
  turns : ℕ → Call

unfoldable pub step : Softirq → Call → List ℕ × Softirq
step s (schedules t) = ([], tasklet_schedule s t)
step s takes = ([], take_list s)
step s (turns i) = tasklet_turn s i

unfoldable pub run : Softirq → List Call → List ℕ × Softirq
run s [] = ([], s)
run s (c ∷ cs) = let (ran, t) = step s c in let (more, u) = run t cs in (ran ++ more, u)

in_batches-append :
    (t : ℕ) (bs : List (List ℕ)) (b : List ℕ)
    → in_batches t (bs ++ b ∷ []) ≡ in_batches t bs + times t b
in_batches-append t [] b = omega arith
in_batches-append t (c ∷ bs) b = omega (arith, in_batches-append t bs b)

-- Exactly the first of the batch leaves.
advance_lem :
    (bs : List (List ℕ)) (i t u : ℕ)
    → first_of bs i ≡ some t
    → in_batches u bs ≡ one_if (t == u) + in_batches u (advance bs i)
unfolding first_of advance
advance_lem [] i t u e = cc
advance_lem ([] ∷ bs) zero t u e = cc
advance_lem ((x ∷ ts) ∷ bs) zero t u e =
    let same : x ≡ t = cc in omega (arith, ap (λ y. one_if (y == u)) same)
advance_lem ([] ∷ bs) (suc i) t u e = omega (arith, advance_lem bs i t u e)
advance_lem ((x ∷ ts) ∷ bs) (suc i) t u e = omega (arith, advance_lem bs i t u e)

-- One for a call of tasklet_schedule for the tasklet that finds it idle.
abbrev pub starts : ℕ → Softirq → Call → ℕ
starts t s (schedules u) = one_if ((u == t) && not (s.scheduled u))
starts t s takes = 0
starts t s (turns i) = 0

and_false : (b : Bool) → (b && false) ≡ false
and_false b = ground arith

and_true : (b : Bool) → (b && true) ≡ b
and_true b = ground arith

==_eq : (a b : ℕ) → (a == b) ≡ true → a ≡ b
==_eq a b e = ground arith

schedule-IsTracked :
    (s : Softirq) (u t : ℕ)
    → IsTracked s
    → s.scheduled u ≡ false
    → times t (u ∷ s.tasklet_list) + in_batches t s.batches
      ≡ one_if (with_state s.scheduled u true t)
schedule-IsTracked s u t h e = elim (Bool-cases (u == t)) [
  | inl f ↦
      let here : one_if (s.scheduled t) ≡ 0 =
        ap (λ x. one_if (s.scheduled x)) (sym (==_eq u t f)) ∙ ap one_if e in
      rw f (omega (arith, h t))
  | inr f ↦ rw f (omega (arith, h t))
]

one_if_le : (b : Bool) → one_if b ≤ 1
one_if_le b = ground arith

turn-IsTracked :
    (s : Softirq) (i u t : ℕ)
    → IsTracked s
    → first_of s.batches i ≡ some u
    → times t s.tasklet_list + in_batches t (advance s.batches i)
      ≡ one_if (with_state s.scheduled u false t)
turn-IsTracked s i u t h e = elim (Bool-cases (u == t)) [
  | inl f ↦
      let gone : in_batches t s.batches ≡ 1 + in_batches t (advance s.batches i) =
        advance_lem s.batches i u t e ∙ ap (λ b. one_if b + in_batches t (advance s.batches i)) f in
      rw f (omega (arith, h t, one_if_le (s.scheduled t)))
  | inr f ↦
      let same : in_batches t s.batches ≡ in_batches t (advance s.batches i) =
        omega (arith, advance_lem s.batches i u t e, ap one_if f) in
      rw f (omega (arith, h t, same))
]

step-IsTracked : (s : Softirq) (c : Call) → IsTracked s → IsTracked (step s c).1
unfolding step tasklet_schedule take_list tasklet_turn raise
step-IsTracked s (schedules u) h = elim (Bool-cases (s.scheduled u)) [
  | inl e ↦ rw (e, tasklet_schedule) h
  | inr e ↦ rw (e, tasklet_schedule) (λ t. schedule-IsTracked s u t h e)
]
step-IsTracked s takes h = λ t. omega (arith, h t, in_batches-append t s.batches s.tasklet_list)
step-IsTracked s (turns i) h = elim (Option-cases (first_of s.batches i)) [
  | inl e ↦ rw (e, tasklet_turn) h
  | inr (u, e) ↦ rw (e, tasklet_turn) (λ t. turn-IsTracked s i u t h e)
]

-- The runs of a tasklet and its waiting, over one step: with a function, and without one.
record Counts (s : Softirq) (c : Call) (t : ℕ) : Type 0 where
  pub func_same : (step s c).1.has_func t ≡ s.has_func t
  pub counted :
      s.has_func t ≡ true
      → times t (step s c).0 + waiting t (step s c).1 ≡ waiting t s + starts t s c
  pub silent : s.has_func t ≡ false → times t (step s c).0 ≡ 0

turn_run :
    (s : Softirq) (u t : ℕ)
    → s.has_func t ≡ true
    → times t (if s.has_func u then u ∷ [] else []) ≡ one_if (u == t)
turn_run s u t f = elim (Bool-cases (u == t)) [
  | inl e ↦ let has : s.has_func u ≡ true = ap s.has_func (==_eq u t e) ∙ f in rw (has, e) refl
  | inr e ↦ elim (Bool-cases (s.has_func u)) [ inl g ↦ rw (g, e) refl | inr g ↦ rw (g, e) refl ]
]

turn_silent :
    (s : Softirq) (u t : ℕ)
    → s.has_func t ≡ false
    → times t (if s.has_func u then u ∷ [] else []) ≡ 0
turn_silent s u t f = elim (Bool-cases (u == t)) [
  | inl e ↦ let has : s.has_func u ≡ false = ap s.has_func (==_eq u t e) ∙ f in rw has refl
  | inr e ↦ elim (Bool-cases (s.has_func u)) [ inl g ↦ rw (g, e) refl | inr g ↦ rw g refl ]
]

step-Counts : (s : Softirq) (c : Call) (t : ℕ) → Counts s c t
unfolding step tasklet_schedule take_list tasklet_turn raise
step-Counts s (schedules u) t = elim (Bool-cases (s.scheduled u)) [
  | inl e ↦ record {
    func_same = rw (e, tasklet_schedule) refl;
    counted = λ f. rw (e, tasklet_schedule) (omega (arith, ap one_if (and_false (u == t))));
    silent = λ f. refl;
  }
  | inr e ↦ record {
    func_same = rw (e, tasklet_schedule) refl;
    counted = λ f. rw (e, tasklet_schedule) (omega (arith, ap one_if (and_true (u == t))));
    silent = λ f. refl;
  }
]
step-Counts s takes t = record {
  func_same = refl;
  counted = λ f. omega (arith, in_batches-append t s.batches s.tasklet_list);
  silent = λ f. refl;
}
step-Counts s (turns i) t = elim (Option-cases (first_of s.batches i)) [
  | inl e ↦ record {
    func_same = rw (e, tasklet_turn) refl;
    counted = λ f. rw (e, tasklet_turn) (omega arith);
    silent = λ f. rw (e, tasklet_turn) refl;
  }
  | inr (u, e) ↦ record {
    func_same = rw (e, tasklet_turn) refl;
    counted =
        λ f. rw (e, tasklet_turn) (omega (arith, turn_run s u t f, advance_lem s.batches i u t e));
    silent = λ f. rw (e, tasklet_turn) (turn_silent s u t f);
  }
]

times-append : (t : ℕ) (us vs : List ℕ) → times t (us ++ vs) ≡ times t us + times t vs
times-append t [] vs = omega arith
times-append t (u ∷ us) vs = omega (arith, times-append t us vs)

-- The calls of tasklet_schedule for the tasklet that find it idle.
abbrev pub all_starts : ℕ → Softirq → List Call → ℕ
all_starts t s [] = 0
all_starts t s (c ∷ cs) = starts t s c + all_starts t (step s c).1 cs

-- From a state in which a tasklet waits once if it is scheduled and not at all if not, over any calls
-- of tasklet_schedule and any calls of tasklet_action, whose loops go on turn by turn between them:
-- a tasklet with a function runs once for every call of tasklet_schedule that found it idle, and for
-- its waiting at the start, but for the one time that it may still wait; one without a function never
-- runs; and each waits once at most, exactly while its state says that it is scheduled.
pub run_once :
    (s : Softirq) (cs : List Call) (t : ℕ)
    → IsTracked s
    → let (ran, u) = run s cs in
      (s.has_func t ≡ true → times t ran + waiting t u ≡ waiting t s + all_starts t s cs)
      × (s.has_func t ≡ false → times t ran ≡ 0)
      × (waiting t u ≡ one_if (u.scheduled t))
unfolding run
run_once s [] t h = (λ f. omega arith, λ f. refl, h t)
run_once s (c ∷ cs) t h =
    let v = (step s c).1 in
    let now = step-Counts s c t in
    let (later, silent, waits) = run_once v cs t (step-IsTracked s c h) in
    let joined = times-append t (step s c).0 (run v cs).0 in
    (
      λ f. omega (arith, now.counted f, later (now.func_same ∙ f), joined),
      λ f. omega (arith, now.silent f, silent (now.func_same ∙ f), joined),
      waits,
    )
