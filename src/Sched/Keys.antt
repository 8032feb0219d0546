-- ===== src/Sched/Keys.antt =====
-- Heap order of keys, and one turn of the loops of heapify_up and heapify_down in kernel/sched.c.
use shadow_box_os.Common.{ℕ, zero, suc, ◌≤◌, ◌<◌, ◌≡◌, ◌≢◌, ap, ◌∙◌, arith, ℕ_discrete}
use shadow_box_os.Sched.{parent}

-- Slot `i` is in order with its parent.
abbrev pub InOrder : (ℕ → ℕ) → ℕ → Type 0
InOrder k i = k (parent i) ≤ k i

abbrev pub IsHeap : (ℕ → ℕ) → ℕ → Type 0
IsHeap k n = (i : ℕ) → 0 < i → i < n → InOrder k i

-- All but slot `at` are in order with their parents, and the children of `at` with its parent.
pub record IsHeapAbove (k : ℕ → ℕ) (n at : ℕ) : Type 0 where
  pub others : (i : ℕ) → 0 < i → i < n → i ≢ at → InOrder k i
  pub children : (i : ℕ) → 0 < i → i < n → parent i ≡ at → 0 < at → k (parent at) ≤ k i

-- All but the children of slot `at` are in order with their parents, and they with its parent.
pub record IsHeapBelow (k : ℕ → ℕ) (n at : ℕ) : Type 0 where
  pub others : (i : ℕ) → 0 < i → i < n → parent i ≢ at → InOrder k i
  pub children : (i : ℕ) → 0 < i → i < n → parent i ≡ at → 0 < at → k (parent at) ≤ k i

-- `k'` is `k` with the keys of two slots exchanged.
pub record Swapped (k k' : ℕ → ℕ) (a b : ℕ) : Type 0 where
  pub first : k' a ≡ k b
  pub second : k' b ≡ k a
  pub rest : (i : ℕ) → i ≢ a → i ≢ b → k' i ≡ k i

-- The first slot has the least key.
pub root-le : (k : ℕ → ℕ) (n : ℕ) → IsHeap k n → (fuel i : ℕ) → i ≤ fuel → i < n → k 0 ≤ k i
root-le k n heap zero i h p =
    let first : i ≡ 0 = omega arith in let same : k i ≡ k 0 = ap k first in omega arith
root-le k n heap (suc fuel) i h p = elim (ℕ_discrete i 0) [
  | yes e ↦ let same : k i ≡ k 0 = ap k e in omega arith
  | no ne ↦
      omega (
        arith,
        root-le k n heap fuel (parent i) (omega arith) (omega arith),
        heap i (omega arith) p,
      )
]

module _ (k k' : ℕ → ℕ) (n at : ℕ) where
  -- A turn of heapify_up: the key of `at` is less than its parent's.
  pub above-up :
      0 < at
      → at < n
      → k at < k (parent at)
      → Swapped k k' at (parent at)
      → IsHeapAbove k n at
      → IsHeapAbove k' n (parent at)
  above-up pos_at small less s h = record {
    others = λ i p q ne. elim (ℕ_discrete i at) [
      | yes e ↦
          let key_i : k' i ≡ k (parent at) = ap k' e ∙ s.first in
          let key_p : k' (parent i) ≡ k at = ap (λ j. k' (parent j)) e ∙ s.second in omega arith
      | no ne' ↦ elim (ℕ_discrete (parent i) at) [
        | yes e ↦
            let key_i = s.rest i ne' ne in
            let key_p : k' (parent i) ≡ k (parent at) = ap k' e ∙ s.first in
            omega (arith, h.children i p q e pos_at)
        | no ne'' ↦ elim (ℕ_discrete (parent i) (parent at)) [
          | yes e ↦
              let key_i = s.rest i ne' ne in
              let key_p : k' (parent i) ≡ k at = ap k' e ∙ s.second in
              let old_p : k (parent i) ≡ k (parent at) = ap k e in omega (arith, h.others i p q ne')
          | no ne3 ↦ omega (arith, s.rest i ne' ne, s.rest (parent i) ne'' ne3, h.others i p q ne')
        ]
      ]
    ];
    children = λ i p q e pos_p.
        let top : k' (parent (parent at)) ≡ k (parent (parent at)) =
          s.rest (parent (parent at)) (λ f. omega arith) (λ f. omega arith) in
        let ordered = h.others (parent at) pos_p (omega arith) (λ f. omega arith) in
        elim (ℕ_discrete i at) [
          | yes f ↦ let key_i : k' i ≡ k (parent at) = ap k' f ∙ s.first in omega arith
          | no ne ↦
              let key_i = s.rest i ne (λ f. omega arith) in
              let old_p : k (parent i) ≡ k (parent at) = ap k e in omega (arith, h.others i p q ne)
        ];
  }

module _ (k k' : ℕ → ℕ) (n at child : ℕ) where
  -- A turn of heapify_down: `child` is the child of `at` with the least key, less than that of `at`.
  pub below-down :
      0 < child
      → child < n
      → parent child ≡ at
      → k child < k at
      → ((i : ℕ) → 0 < i → i < n → parent i ≡ at → k child ≤ k i)
      → Swapped k k' at child
      → IsHeapBelow k n at
      → IsHeapBelow k' n child
  below-down pos_c small up less least s h = record {
    others = λ i p q ne. elim (ℕ_discrete (parent i) at) [
      | yes e ↦
          let key_p : k' (parent i) ≡ k child = ap k' e ∙ s.first in
          elim (ℕ_discrete i child) [
            | yes f ↦ let key_i : k' i ≡ k at = ap k' f ∙ s.second in omega arith
            | no nf ↦ omega (arith, s.rest i (λ g. omega arith) nf, least i p q e)
          ]
      | no ne' ↦
          let key_p = s.rest (parent i) ne' ne in
          elim (ℕ_discrete i at) [
            | yes f ↦
                let key_i : k' i ≡ k child = ap k' f ∙ s.first in
                let old_p : k (parent i) ≡ k (parent at) = ap (λ j. k (parent j)) f in
                omega (arith, h.children child pos_c small up (omega arith))
            | no nf ↦
                let key_i = s.rest i nf (λ g. ne' (ap parent g ∙ up)) in
                omega (arith, h.others i p q ne')
          ]
    ];
    children = λ i p q e pos.
        let key_p : k' (parent child) ≡ k child = ap k' up ∙ s.first in
        let key_i = s.rest i (λ g. omega arith) (λ g. omega arith) in
        let old_p : k (parent i) ≡ k child = ap k e in
        omega (arith, h.others i p q (λ g. omega arith));
  }

module _ (k : ℕ → ℕ) (n at : ℕ) where
  pub IsHeap-up : IsHeapAbove k n at → (0 < at → InOrder k at) → IsHeap k n
  IsHeap-up h ordered i p q = elim (ℕ_discrete i at) [
    | yes e ↦
        let key_i : k i ≡ k at = ap k e in
        let key_p : k (parent i) ≡ k (parent at) = ap (λ j. k (parent j)) e in
        omega (arith, ordered (omega arith))
    | no ne ↦ h.others i p q ne
  ]

  pub IsHeap-down :
      IsHeapBelow k n at → ((i : ℕ) → 0 < i → i < n → parent i ≡ at → k at ≤ k i) → IsHeap k n
  IsHeap-down h ordered i p q = elim (ℕ_discrete (parent i) at) [
    | yes e ↦ let key_p : k (parent i) ≡ k at = ap k e in omega (arith, ordered i p q e)
    | no ne ↦ h.others i p q ne
  ]
