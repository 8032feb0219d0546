-- ===== src/Softirq/Pending.antt =====
-- softirq_raise and softirq_do_pending of kernel/softirq.c: which handlers run.
use native.Mathlib.Nat.{pow-le-pow_right}
use shadow_box_os.Common.{
  ℕ, zero, suc, ◌+◌, ◌^◌, ◌<◌, ◌≡◌, refl, sym, ap, ◌∙◌, arith, ◌⊎◌, inl, inr, ◌||◌, Option, none,
  some, List, [], ◌∷◌, get_or, tabulate, tabulate_ext, ltb, Bool-cases, Option-cases, ◌==◌,
  if◌then◌else◌,
}
use shadow_box_os.Common.Bits.{
  test_bit, bit_and-pow-eq-zero, test_bit-bit_or, test_bit-pow, test_bit-zero, bit_or-lt,
}
use shadow_box_os.Common.Int.{ℤ, pos, negsuc}
use shadow_box_os.Softirq.{
  Action, Softirq, max_softirqs, in_range, raise, handlers_from, do_pending,
}

-- The handlers that are there, in order.
abbrev pub present : List (Option Action) → List Action
present [] = []
present (none ∷ as') = present as'
present (some a ∷ as') = a ∷ present as'

-- The handler of number `n`, if `n` is pending.
abbrev pub due : Softirq → ℕ → Option Action
due s n = if test_bit s.softirq_pending n then get_or s.softirq_vec n none else none

handlers_from-present :
    (s : Softirq) (left i : ℕ)
    → handlers_from s.softirq_vec s.softirq_pending left i
      ≡ present (tabulate left (λ k. due s (i + k)))
unfolding handlers_from
handlers_from-present s zero i = refl
handlers_from-present s (suc left) i =
    let shift : (k : ℕ) → k < left → due s (i + 1 + k) ≡ due s (i + suc k) =
      λ k h. ap (due s) (omega arith) in
    let later =
      handlers_from-present s left (i + 1)
      ∙ ap present (tabulate_ext left (λ k. due s (i + 1 + k)) (λ k. due s (i + suc k)) shift) in
    let test = bit_and-pow-eq-zero s.softirq_pending i in
    let first : i + 0 ≡ i = omega arith in
    elim (Bool-cases (test_bit s.softirq_pending i)) [
      | inl e ↦ elim (Option-cases (get_or s.softirq_vec i none)) [
        | inl f ↦ rw (test, e, first, e, f, handlers_from) later
        | inr (a, f) ↦ rw (test, e, first, e, f, handlers_from) (ap (◌∷◌ a) later)
      ]
      | inr e ↦ rw (test, e, first, e, handlers_from) later
    ]

present-none :
    (n : ℕ) (f : ℕ → Option Action) → ((k : ℕ) → f k ≡ none) → present (tabulate n f) ≡ []
present-none zero f h = refl
present-none (suc n) f h = rw (h 0) (present-none n (λ k. f (suc k)) (λ k. h (suc k)))

due-none : (s : Softirq) (n : ℕ) → s.softirq_pending ≡ 0 → due s n ≡ none
due-none s n h =
    ap (λ x. if test_bit x n then get_or s.softirq_vec n none else none) h
    ∙ ap (λ b. if b then get_or s.softirq_vec n none else none) (test_bit-zero n)

-- softirq_do_pending runs the registered handlers of the pending numbers from 0 to 31, each once, in
-- ascending order, and leaves nothing pending.
pub do_pending_lem :
    (s : Softirq)
    → let (ran, t) = do_pending s in
      (ran ≡ present (tabulate 32 (due s)))
      × (t.softirq_pending ≡ 0)
      × (t.softirq_vec ≡ s.softirq_vec)
unfolding do_pending
do_pending_lem s = elim (Bool-cases (s.softirq_pending == 0)) [
  | inl e ↦
      let clear : s.softirq_pending ≡ 0 = ground arith in
      let none_due = present-none 32 (due s) (λ k. due-none s k clear) in
      rw (e, do_pending) (sym none_due, clear, refl)
  | inr e ↦
      let shift = tabulate_ext 32 (λ k. due s (0 + k)) (due s) (λ k h. ap (due s) (omega arith)) in
      let ran = handlers_from-present s 32 0 ∙ ap present shift in
      rw (e, do_pending) (ran, refl, refl)
]

-- For a pending word below 2^32, softirq_raise makes its number pending and no other, if it is from 0
-- to 31, and does nothing if not.
pub raise_lem :
    (s : Softirq) (nr : ℤ)
    → s.softirq_pending < 2 ^ 32
    → let t = raise s nr in
      (t.softirq_pending < 2 ^ 32)
      × (((n : ℕ) × (nr ≡ pos n)
            × (n < 32)
            × ((k : ℕ) → test_bit t.softirq_pending k ≡ test_bit s.softirq_pending k || (n == k)))
          ⊎ ((in_range nr ≡ none) × (t ≡ s)))
unfolding raise
raise_lem s (negsuc n) h = (h, inr (refl, refl))
raise_lem s (pos n) h = elim (Bool-cases (ltb n max_softirqs)) [
  | inl e ↦
      let small : 2 ^ n < 2 ^ 32 =
        omega (arith, pow-le-pow_right {n = 2} (omega arith) {i = n} {j = 31} (ground arith)) in
      rw (e, raise)
        (
          bit_or-lt 32 s.softirq_pending (2 ^ n) h small,
          inl (
            n,
            refl,
            ground arith,
            λ k.
                test_bit-bit_or s.softirq_pending (2 ^ n) k
                ∙ ap (λ b. test_bit s.softirq_pending k || b) (test_bit-pow n k),
          ),
        )
  | inr e ↦ rw (e, raise) (h, inr (refl, refl))
]
