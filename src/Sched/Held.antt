-- ===== src/Sched/Held.antt =====
-- Which tasks the arrays of kernel/sched.c hold, in whatever order.
use shadow_box_os.Common.{
  ℕ, zero, suc, ◌+◌, ◌-◌, ◌<◌, ◌≡◌, ◌≢◌, refl, sym, ap, ◌∙◌, arith, Bool, true, false, List, [],
  ◌∷◌, ◌++◌, length, get_or, set, take, length-set, get_or-set_ne, get_or-set_self, Bool-cases,
  ◌==◌, ◌||◌, leb, inl, inr, ℕ_discrete,
}
use shadow_box_os.Common.Count.{one_if}
use shadow_box_os.Sched.{
  Task, no_task, key, parent, swap_nodes, sift_up, sift_down, smallest, filled,
}
use shadow_box_os.Sched.Sift.{length-swap_nodes, goes_up, smallest_lem}

-- How many of the tasks satisfy `f`.
abbrev pub tally : (Task → Bool) → List Task → ℕ
tally f [] = 0
tally f (p ∷ q) = one_if (f p) + tally f q

-- The same tasks, as often, in whatever order.
abbrev pub SameTasks : List Task → List Task → Type 0
SameTasks q r = (f : Task → Bool) → tally f q ≡ tally f r

pub tally-set :
    (f : Task → Bool) (q : List Task) (i : ℕ) (v : Task)
    → i < length q
    → tally f (set q i v) + one_if (f (get_or q i no_task)) ≡ tally f q + one_if (f v)
tally-set f [] i v h = absurd (omega arith)
tally-set f (p ∷ q) zero v h = omega arith
tally-set f (p ∷ q) (suc i) v h = omega (arith, tally-set f q i v (omega arith))

pub tally-append : (f : Task → Bool) (q r : List Task) → tally f (q ++ r) ≡ tally f q + tally f r
tally-append f [] r = omega arith
tally-append f (p ∷ q) r = omega (arith, tally-append f q r)

-- The last task apart.
tally-take :
    (f : Task → Bool) (n : ℕ) (q : List Task)
    → length q ≡ suc n
    → tally f q ≡ tally f (take n q) + one_if (f (get_or q n no_task))
tally-take f n [] h = absurd (omega arith)
tally-take f zero (p ∷ []) h = omega arith
tally-take f zero (p ∷ r ∷ q) h = absurd (omega arith)
tally-take f (suc n) (p ∷ q) h = omega (arith, tally-take f n q (omega arith))

swap_nodes-SameTasks :
    (q : List Task) (i j : ℕ) → i < length q → j < length q → i ≢ j → SameTasks (swap_nodes q i j) q
unfolding swap_nodes
swap_nodes-SameTasks q i j p r ne f =
    let u = get_or q j no_task in
    let v = get_or q i no_task in
    let there : get_or (set q i u) j no_task ≡ u = get_or-set_ne q i j u no_task ne in
    let same : one_if (f (get_or (set q i u) j no_task)) ≡ one_if (f u) =
      ap (λ t. one_if (f t)) there in
    omega
      (arith, tally-set f q i u p, tally-set f (set q i u) j v (omega (arith, length-set q i u)))

pub sift_up-SameTasks :
    (fuel : ℕ) (q : List Task) (idx : ℕ) → idx < length q → SameTasks (sift_up fuel q idx) q
unfolding sift_up
sift_up-SameTasks zero q idx h f = refl
sift_up-SameTasks (suc fuel) q idx h f =
    elim (Bool-cases ((idx == 0) || leb (key q (parent idx)) (key q idx))) [
      | inl e ↦ rw (e, sift_up) refl
      | inr e ↦
          let (more, less) = goes_up idx (key q (parent idx)) (key q idx) e in
          let q' = swap_nodes q idx (parent idx) in
          let len = length-swap_nodes q idx (parent idx) in
          rw (e, sift_up)
            (sift_up-SameTasks fuel q' (parent idx) (omega (arith, len)) f
              ∙ swap_nodes-SameTasks q idx (parent idx) h (omega arith) (λ g. omega arith) f)
    ]

pub sift_down-SameTasks :
    (fuel : ℕ) (q : List Task) (idx : ℕ) → idx < length q → SameTasks (sift_down fuel q idx) q
unfolding sift_down
sift_down-SameTasks zero q idx h f = refl
sift_down-SameTasks (suc fuel) q idx h f =
    let s = smallest q idx in
    elim (Bool-cases (s == idx)) [
      | inl e ↦ rw (e, sift_down) refl
      | inr e ↦ elim (smallest_lem q idx).1 [
        | inl same ↦ let clash : true ≡ false = ground arith in cc
        | inr (p, small, up, less) ↦
            let len = length-swap_nodes q idx s in
            rw (e, sift_down)
              (sift_down-SameTasks fuel (swap_nodes q idx s) s (omega (arith, len)) f
                ∙ swap_nodes-SameTasks q idx s h small (λ g. omega arith) f)
      ]
    ]

pub last-set :
    (q : List Task) (i n : ℕ)
    → i < length q
    → get_or (set q i (get_or q n no_task)) n no_task ≡ get_or q n no_task
last-set q i n h = elim (ℕ_discrete i n) [
  | yes e ↦
      let v = get_or q n no_task in
      ap (λ k. get_or (set q i v) k no_task) (sym e) ∙ get_or-set_self q i v no_task h
  | no ne ↦ get_or-set_ne q i n (get_or q n no_task) no_task ne
]

-- The task in slot `i` is gone and the others are there.
pub tally-filled :
    (f : Task → Bool) (q : List Task) (i : ℕ)
    → i < length q
    → tally f (filled q i) + one_if (f (get_or q i no_task)) ≡ tally f q
unfolding filled
tally-filled f q i h =
    let last = get_or q (length q - 1) no_task in
    let r = set q i last in
    let len = length-set q i last in
    let same : one_if (f (get_or r (length q - 1) no_task)) ≡ one_if (f last) =
      ap (λ t. one_if (f t)) (last-set q i (length q - 1) h) in
    omega (arith, tally-take f (length q - 1) r (omega arith), tally-set f q i last h)
