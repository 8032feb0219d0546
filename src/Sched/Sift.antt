-- ===== src/Sched/Sift.antt =====
-- heapify_up and heapify_down of kernel/sched.c restore the heap order.
use shadow_box_os.Common.{
  ℕ, zero, suc, ◌+◌, ◌*◌, ◌≤◌, ◌<◌, ◌≡◌, ◌≢◌, refl, sym, ap, ◌∙◌, arith, ◌⊎◌, subst, inl, inr, true,
  false, ◌||◌, List, length, get_or, set, length-set, get_or-set_self, get_or-set_ne, Bool-cases,
  leb, ◌==◌,
}
use shadow_box_os.Sched.{
  Task, no_task, key, parent, swap_nodes, sift_up, sift_down, smaller, smallest,
}
use shadow_box_os.Sched.Keys.{
  IsHeap, IsHeapAbove, IsHeapBelow, Swapped, above-up, IsHeap-up, below-down, IsHeap-down,
}

pub length-swap_nodes : (q : List Task) (i j : ℕ) → length (swap_nodes q i j) ≡ length q
unfolding swap_nodes
length-swap_nodes q i j =
    length-set (set q i (get_or q j no_task)) j (get_or q i no_task)
    ∙ length-set q i (get_or q j no_task)

swap_nodes-Swapped :
    (q : List Task) (i j : ℕ)
    → i < length q
    → j < length q
    → i ≢ j
    → Swapped (key q) (key (swap_nodes q i j)) i j
unfolding swap_nodes
swap_nodes-Swapped q i j p r ne =
    let u = get_or q j no_task in
    let v = get_or q i no_task in
    let once = set q i u in
    let there : j < length once = omega (arith, length-set q i u) in
    record {
      first =
          ap (λ (t : Task). t.vruntime)
            (get_or-set_ne once j i v no_task (λ e. ne (sym e)) ∙ get_or-set_self q i u no_task p);
      second = ap (λ (t : Task). t.vruntime) (get_or-set_self once j v no_task there);
      rest = λ k a b.
          ap (λ (t : Task). t.vruntime)
            (get_or-set_ne once j k v no_task (λ e. b (sym e))
              ∙ get_or-set_ne q i k u no_task (λ e. a (sym e)));
    }

stops_up : (idx a b : ℕ) → ((idx == 0) || leb a b) ≡ true → 0 < idx → a ≤ b
stops_up idx a b h p = ground arith

pub goes_up : (idx a b : ℕ) → ((idx == 0) || leb a b) ≡ false → (0 < idx) × (b < a)
goes_up idx a b h = ground arith

pub length-sift_up : (fuel : ℕ) (q : List Task) (idx : ℕ) → length (sift_up fuel q idx) ≡ length q
unfolding sift_up
length-sift_up zero q idx = refl
length-sift_up (suc fuel) q idx =
    elim (Bool-cases ((idx == 0) || leb (key q (parent idx)) (key q idx))) [
      | inl e ↦ rw (e, sift_up) refl
      | inr e ↦
          rw (e, sift_up)
            (length-sift_up fuel (swap_nodes q idx (parent idx)) (parent idx)
              ∙ length-swap_nodes q idx (parent idx))
    ]

-- As much fuel as the slot's number is enough.
pub sift_up-IsHeap :
    (fuel : ℕ) (q : List Task) (idx : ℕ)
    → idx ≤ fuel
    → idx < length q
    → IsHeapAbove (key q) (length q) idx
    → IsHeap (key (sift_up fuel q idx)) (length q)
unfolding sift_up
sift_up-IsHeap zero q idx enough small h =
    IsHeap-up (key q) (length q) idx h (λ more. absurd (omega arith))
sift_up-IsHeap (suc fuel) q idx enough small h =
    elim (Bool-cases ((idx == 0) || leb (key q (parent idx)) (key q idx))) [
      | inl e ↦
          rw (e, sift_up)
            (IsHeap-up (key q) (length q) idx h (stops_up idx (key q (parent idx)) (key q idx) e))
      | inr e ↦
          let (more, less) = goes_up idx (key q (parent idx)) (key q idx) e in
          let q' = swap_nodes q idx (parent idx) in
          let len = length-swap_nodes q idx (parent idx) in
          let swapped =
            swap_nodes-Swapped q idx (parent idx) small (omega arith) (λ e. omega arith) in
          let next = above-up (key q) (key q') (length q) idx more small less swapped h in
          let next' : IsHeapAbove (key q') (length q') (parent idx) = rw len next in
          let sifted =
            sift_up-IsHeap fuel q' (parent idx) (omega arith) (omega (arith, len)) next' in
          rw (e, sift_up) (rw (sym len) sifted)
    ]

smaller_lem :
    (q : List Task) (child at : ℕ)
    → ((smaller q child at ≡ child) × (child < length q) × (key q child < key q at))
      ⊎ ((smaller q child at ≡ at) × (child < length q → key q at ≤ key q child))
smaller_lem q child at = ground arith

-- A child slot is one of two.
child_of : (i at : ℕ) → 0 < i → parent i ≡ at → (i ≡ 2 * at + 1) ⊎ (i ≡ 2 * at + 2)
child_of i at p e = ground arith

-- Slot `s` has the least key of `at` and its children.
abbrev pub Least : List Task → ℕ → ℕ → Type 0
Least q at s =
    (key q s ≤ key q at)
    × (2 * at + 1 < length q → key q s ≤ key q (2 * at + 1))
    × (2 * at + 2 < length q → key q s ≤ key q (2 * at + 2))

Least-child :
    (q : List Task) (at s : ℕ)
    → Least q at s
    → (i : ℕ) → 0 < i
    → i < length q
    → parent i ≡ at
    → key q s ≤ key q i
Least-child q at s l i p h e = elim (child_of i at p e) [
  | inl f ↦
      let same : key q i ≡ key q (2 * at + 1) = ap (key q) f in omega (arith, l.1 (omega arith))
  | inr f ↦
      let same : key q i ≡ key q (2 * at + 2) = ap (key q) f in omega (arith, l.2 (omega arith))
]

pub smallest_lem :
    (q : List Task) (at : ℕ)
    → let s = smallest q at in
      Least q at s
      × ((s ≡ at) ⊎ ((0 < s) × (s < length q) × (parent s ≡ at) × (key q s < key q at)))
smallest_lem q at = elim (smaller_lem q (2 * at + 1) at) [
  | inl (e, p, less) ↦ elim (smaller_lem q (2 * at + 2) (2 * at + 1)) [
    | inl (e', p', less') ↦
        rw (e, e')
          (
            (omega arith, (λ h. omega arith), (λ h. omega arith)),
            inr (omega arith, p', omega arith, omega arith),
          )
    | inr (e', not_less) ↦
        rw (e, e')
          ((omega arith, (λ h. omega arith), not_less), inr (omega arith, p, omega arith, less))
  ]
  | inr (e, not_less) ↦ elim (smaller_lem q (2 * at + 2) at) [
    | inl (e', p', less') ↦
        rw (e, e')
          (
            (omega arith, (λ h. omega (arith, not_less h)), (λ h. omega arith)),
            inr (omega arith, p', omega arith, less'),
          )
    | inr (e', not_less') ↦ rw (e, e') ((omega arith, not_less, not_less'), inl refl)
  ]
]

pub length-sift_down :
    (fuel : ℕ) (q : List Task) (idx : ℕ) → length (sift_down fuel q idx) ≡ length q
unfolding sift_down
length-sift_down zero q idx = refl
length-sift_down (suc fuel) q idx = elim (Bool-cases (smallest q idx == idx)) [
  | inl e ↦ rw (e, sift_down) refl
  | inr e ↦
      rw (e, sift_down)
        (length-sift_down fuel (swap_nodes q idx (smallest q idx)) (smallest q idx)
          ∙ length-swap_nodes q idx (smallest q idx))
]

==_refl : (a b : ℕ) → (a == b) ≡ true → a ≡ b
==_refl a b e = ground arith

-- As much fuel as there are slots from this one on is enough.
pub sift_down-IsHeap :
    (fuel : ℕ) (q : List Task) (idx : ℕ)
    → length q ≤ idx + fuel
    → IsHeapBelow (key q) (length q) idx
    → IsHeap (key (sift_down fuel q idx)) (length q)
unfolding sift_down
sift_down-IsHeap zero q idx enough h =
    IsHeap-down (key q) (length q) idx h (λ i p r e. absurd (omega arith))
sift_down-IsHeap (suc fuel) q idx enough h =
    let s = smallest q idx in
    let (least, found) = smallest_lem q idx in
    elim (Bool-cases (s == idx)) [
      | inl e ↦
          let at : Least q idx idx = subst (Least q idx) (==_refl s idx e) least in
          rw (e, sift_down) (IsHeap-down (key q) (length q) idx h (Least-child q idx idx at))
      | inr e ↦ elim found [
        | inl same ↦ let clash : true ≡ false = ground arith in cc
        | inr (p, small, up, less) ↦
            let q' = swap_nodes q idx s in
            let len = length-swap_nodes q idx s in
            let swapped = swap_nodes-Swapped q idx s (omega arith) small (λ f. omega arith) in
            let next =
              below-down (key q) (key q') (length q) idx s p small up less
                (Least-child q idx s least) swapped h in
            let next' : IsHeapBelow (key q') (length q') s = rw len next in
            let sifted = sift_down-IsHeap fuel q' s (omega (arith, len)) next' in
            rw (e, sift_down) (subst (IsHeap (key (sift_down fuel q' s))) len sifted)
      ]
    ]
