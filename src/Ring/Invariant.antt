-- ===== src/Ring/Invariant.antt =====
-- What every ring of the kernel keeps: both indices are below the capacity and the cells hold it.
use shadow_box_os.Common.{
  ℕ, ◌+◌, ◌-◌, ◌%◌, ◌≤◌, ◌<◌, ◌≡◌, ◌⊎◌, ◌∙◌, inl, inr, arith, length, length-set, dec_lt,
}
use native.Mathlib.Nat.{mod-eq_of_lt, mod-eq-sub-mod}
use shadow_box_os.Ring.{Ring, store, advance, count}

pub record IsValid {ℓ} {A : Type ℓ} (size : ℕ) (r : Ring A) : Type 0 where
  pub backed : size ≤ length r.cells
  pub head_in : r.head < size
  pub tail_in : r.tail < size

-- One capacity too much goes away.
pub mod-sub_once : (size n : ℕ) → size ≤ n → n < size + size → n % size ≡ n - size
mod-sub_once size n h p = mod-eq-sub-mod h ∙ mod-eq_of_lt (omega arith)

-- An index goes up by one or back to 0.
pub next_cases :
    (size i : ℕ)
    → i < size
    → ((i + 1) % size ≡ i + 1) × (i + 1 < size) ⊎ ((i + 1) % size ≡ 0) × (i + 1 ≡ size)
next_cases size i h = elim (dec_lt (i + 1) size) [
  | yes p ↦ inl (mod-eq_of_lt p, p)
  | no p ↦ inr (omega (arith, mod-sub_once size (i + 1) (omega arith) (omega arith)), omega arith)
]

-- A sum of two indices is in range, or one capacity too large.
pub sum_cases :
    (size i j : ℕ)
    → i < size
    → j < size
    → ((i + j) % size ≡ i + j) × (i + j < size) ⊎ ((i + j) % size + size ≡ i + j) × (size ≤ i + j)
sum_cases size i j h p = elim (dec_lt (i + j) size) [
  | yes q ↦ inl (mod-eq_of_lt q, q)
  | no q ↦ inr (omega (arith, mod-sub_once size (i + j) (omega arith) (omega arith)), omega arith)
]

module _ {ℓ} {A : Type ℓ} {size : ℕ} {r : Ring A} (v : IsValid size r) where
  pub store-IsValid : (x : A) → IsValid size (store size r x)
  store-IsValid x = ground (arith, length-set r.cells r.head x)

  pub advance-IsValid : IsValid size (advance size r)
  advance-IsValid = ground arith

  -- The count, without the wrap.
  pub count_cases :
      ((r.tail ≤ r.head) × (count size r ≡ r.head - r.tail))
      ⊎ ((r.head < r.tail) × (count size r ≡ r.head + size - r.tail))
  count_cases = elim (dec_lt r.head r.tail) [
    | yes p ↦ inr (p, mod-eq_of_lt (omega arith))
    | no p ↦ inl (
      omega arith,
      mod-sub_once size (r.head + size - r.tail) (omega arith) (omega arith) ∙ omega arith,
    )
  ]
