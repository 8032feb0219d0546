-- ===== src/Sched/Fill.antt =====
-- The heap of kernel/sched.c when the last task has taken the place of another.
use shadow_box_os.Common.{
  ℕ, zero, suc, ◌-◌, ◌≤◌, ◌<◌, ◌≡◌, ◌≢◌, refl, sym, ap, ◌∙◌, arith, ℕ_discrete, ◌⊎◌, inl, inr, true,
  List, length, get_or, set, length-set, length-take, get_or-set_ne, get_or-take, Bool-cases, ◌==◌,
  subst, ltb,
}
use shadow_box_os.Sched.{
  Task, no_task, key, parent, sift_down, smallest, filled, heapify_up, heapify_down, settled,
}
use shadow_box_os.Sched.Keys.{InOrder, IsHeap, IsHeapAbove, IsHeapBelow}
use shadow_box_os.Sched.Sift.{sift_up-IsHeap, sift_down-IsHeap, length-sift_down, smallest_lem}
use shadow_box_os.Sched.Held.{SameTasks, sift_down-SameTasks}

pub length-filled : (q : List Task) (i : ℕ) → length (filled q i) ≡ length q - 1
unfolding filled
length-filled q i =
    let last = get_or q (length q - 1) no_task in
    omega (arith, length-take (length q - 1) (set q i last), length-set q i last)

key-filled : (q : List Task) (i j : ℕ) → i ≢ j → j < length q - 1 → key (filled q i) j ≡ key q j
unfolding filled
key-filled q i j ne h =
    let last = get_or q (length q - 1) no_task in
    ap (λ (t : Task). t.vruntime)
      (get_or-take (length q - 1) (set q i last) j no_task h ∙ get_or-set_ne q i j last no_task ne)

-- The heap order but for slot `at`, which can be wrong with its parent and its children.
record IsHeapAround (k : ℕ → ℕ) (n at : ℕ) : Type 0 where
  others : (i : ℕ) → 0 < i → i < n → i ≢ at → parent i ≢ at → InOrder k i
  children : (i : ℕ) → 0 < i → i < n → parent i ≡ at → 0 < at → k (parent at) ≤ k i

filled-IsHeapAround :
    (q : List Task) (at : ℕ)
    → at < length q
    → IsHeap (key q) (length q)
    → IsHeapAround (key (filled q at)) (length q - 1) at
filled-IsHeapAround q at small heap = record {
  others = λ i p h ne ne'.
      let same = key-filled q at i (λ e. ne (sym e)) h in
      let above = key-filled q at (parent i) (λ e. ne' (sym e)) (omega arith) in
      omega (arith, heap i p (omega arith));
  children = λ i p h e pos_at.
      let same = key-filled q at i (λ f. omega arith) h in
      let above = key-filled q at (parent at) (λ f. omega arith) (omega arith) in
      let up : key q (parent i) ≡ key q at = ap (key q) e in
      omega (arith, heap i p (omega arith), heap at pos_at small);
}

-- heapify_down changes nothing at a slot that is in order with its children.
sift_down_stays :
    (fuel : ℕ) (q : List Task) (at : ℕ)
    → ((i : ℕ) → 0 < i → i < length q → parent i ≡ at → key q at ≤ key q i)
    → sift_down fuel q at ≡ q
unfolding sift_down
sift_down_stays zero q at h = refl
sift_down_stays (suc fuel) q at h = elim (smallest_lem q at).1 [
  | inl same ↦ let e : (smallest q at == at) ≡ true = ground arith in rw (e, sift_down) refl
  | inr (p, small, up, less) ↦ absurd (omega (arith, h (smallest q at) p small up))
]

-- Either the task that took slot `at` is in order with the parent, or it is with the children.
heapify_around :
    (q : List Task) (at : ℕ)
    → at < length q
    → IsHeapAround (key q) (length q) at
    → IsHeap (key (heapify_up (heapify_down q at) at)) (length q)
heapify_around q at small h = elim (order_cases at (key q (parent at)) (key q at)) [
  | inl ordered ↦
      let down = heapify_down q at in
      let len = length-sift_down (length q - at) q at in
      let below : IsHeapBelow (key q) (length q) at = record {
        others = λ i p r ne. elim (ℕ_discrete i at) [
          | yes e ↦
              let key_i : key q i ≡ key q at = ap (key q) e in
              let key_p : key q (parent i) ≡ key q (parent at) = ap (λ j. key q (parent j)) e in
              omega (arith, ordered (omega arith))
          | no ne' ↦ h.others i p r ne' ne
        ];
        children = h.children;
      } in
      let heap = sift_down-IsHeap (length q - at) q at (omega arith) below in
      let above : IsHeapAbove (key down) (length q) at = record {
        others = λ i p r ne. heap i p r;
        children = λ i p r e pos_at.
            let up : key down (parent i) ≡ key down at = ap (key down) e in
            omega (arith, heap i p r, heap at pos_at small);
      } in
      let above' : IsHeapAbove (key down) (length down) at =
        subst (λ n. IsHeapAbove (key down) n at) (sym len) above in
      subst (IsHeap (key (heapify_up down at))) len
        (sift_up-IsHeap at down at (omega arith) (omega (arith, len)) above')
  | inr (pos_at, less) ↦
      let stays : heapify_down q at ≡ q =
        sift_down_stays (length q - at) q at
          (λ i p r e. omega (arith, h.children i p r e pos_at)) in
      let above : IsHeapAbove (key q) (length q) at = record {
        others = λ i p r ne. elim (ℕ_discrete (parent i) at) [
          | yes e ↦
              let up : key q (parent i) ≡ key q at = ap (key q) e in
              omega (arith, h.children i p r e pos_at)
          | no ne' ↦ h.others i p r ne ne'
        ];
        children = h.children;
      } in
      subst (λ r. IsHeap (key (heapify_up r at)) (length q)) (sym stays)
        (sift_up-IsHeap at q at (omega arith) small above)
]
  where
    order_cases : (i a b : ℕ) → (0 < i → a ≤ b) ⊎ ((0 < i) × (b < a))
    order_cases i a b = ground arith

pub filled_up-IsHeap :
    (q : List Task) (at : ℕ)
    → at < length q - 1
    → IsHeap (key q) (length q)
    → IsHeap (key (heapify_up (heapify_down (filled q at) at) at)) (length q - 1)
filled_up-IsHeap q at small heap =
    let len = length-filled q at in
    let around : IsHeapAround (key (filled q at)) (length (filled q at)) at =
      subst (λ n. IsHeapAround (key (filled q at)) n at) (sym len)
        (filled-IsHeapAround q at (omega arith) heap) in
    subst (IsHeap (key (heapify_up (heapify_down (filled q at) at) at))) len
      (heapify_around (filled q at) at (omega (arith, len)) around)

-- The queue without its first task, settled.
pub settled-IsHeap :
    (q : List Task)
    → 0 < length q
    → IsHeap (key q) (length q)
    → IsHeap (key (settled (filled q 0))) (length q - 1)
unfolding settled
settled-IsHeap q some_task heap =
    let r = filled q 0 in
    let len = length-filled q 0 in
    let around = filled-IsHeapAround q 0 some_task heap in
    let below : IsHeapBelow (key r) (length r) 0 = record {
      others = λ i p h ne. around.others i p (omega (arith, len)) (λ e. omega arith) ne;
      children = λ i p h e more. absurd (omega arith);
    } in
    elim (Bool-cases (ltb 0 (length r))) [
      | inl e ↦
          rw (e, settled)
            (subst (IsHeap (key (heapify_down r 0))) len
              (sift_down-IsHeap (length r - 0) r 0 (omega arith) below))
      | inr e ↦ let empty : length r ≡ 0 = ground arith in λ i p h. absurd (omega (arith, len))
    ]

pub length-settled : (q : List Task) → length (settled q) ≡ length q
unfolding settled
length-settled q = elim (Bool-cases (ltb 0 (length q))) [
  | inl e ↦ rw (e, settled) (length-sift_down (length q - 0) q 0)
  | inr e ↦ rw (e, settled) refl
]

pub settled-SameTasks : (q : List Task) → SameTasks (settled q) q
unfolding settled
settled-SameTasks q f = elim (Bool-cases (ltb 0 (length q))) [
  | inl e ↦ rw (e, settled) (sift_down-SameTasks (length q - 0) q 0 (ground arith) f)
  | inr e ↦ rw (e, settled) refl
]

-- The last slot can be left out.
pub filled_last-IsHeap :
    (q : List Task) (at : ℕ)
    → at < length q
    → length q - 1 ≤ at
    → IsHeap (key q) (length q)
    → IsHeap (key (filled q at)) (length q - 1)
filled_last-IsHeap q at small last heap i p h =
    let same = key-filled q at i (λ e. omega arith) h in
    let above = key-filled q at (parent i) (λ e. omega arith) (omega arith) in
    omega (arith, heap i p (omega arith))
