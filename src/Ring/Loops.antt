-- ===== src/Ring/Loops.antt =====
-- The write and read loops of a valid ring are those of the bounded queue.
use shadow_box_os.Common.{
  ℕ, ◌-◌, ◌≤◌, ◌<◌, ◌≡◌, inl, inr, refl, sym, true, false, List, [], ◌∷◌, arith, length, zero, suc,
  Bool-cases, length-tabulate,
}
use shadow_box_os.Fifo
use shadow_box_os.Ring.{Ring, full, empty, store, advance, count, item, contents, fill, drain}
use shadow_box_os.Ring.Invariant.{IsValid, store-IsValid, advance-IsValid}
use shadow_box_os.Ring.Refine.{
  contents-store, contents-advance, count-lt, full_iff_count, empty_iff_count,
}

pub length-contents {ℓ} :
    {A : Type ℓ} (d : A) (size : ℕ) (r : Ring A) → length (contents d size r) ≡ count size r
unfolding contents
length-contents d size r = length-tabulate (count size r) (item d size r)

pub fill-IsValid {ℓ} :
    {A : Type ℓ} {size : ℕ} (r : Ring A) (xs : List A)
    → IsValid size r
    → IsValid size (fill size r xs).1
unfolding fill
fill-IsValid r [] v = v
fill-IsValid {size = size} r (x ∷ xs) v = elim (Bool-cases (full size r)) [
  | inl e ↦ rw (e, fill) v
  | inr e ↦ rw (e, fill) (fill-IsValid (store size r x) xs (store-IsValid v x))
]

pub drain-IsValid {ℓ} :
    {A : Type ℓ} (d : A) {size : ℕ} (n : ℕ) (r : Ring A)
    → IsValid size r
    → IsValid size (drain d size n r).1
unfolding drain
drain-IsValid d zero r v = v
drain-IsValid d {size = size} (suc n) r v = elim (Bool-cases (empty r)) [
  | inl e ↦ rw (e, drain) v
  | inr e ↦ rw (e, drain) (drain-IsValid d n (advance size r) (advance-IsValid v))
]

module _ {ℓ} {A : Type ℓ} (d : A) {size : ℕ} (r : Ring A) (v : IsValid size r) where
  pub no_room : full size r ≡ true → size - 1 ≤ length (contents d size r)
  no_room e = ground (arith, full_iff_count v, length-contents d size r)

  pub room : full size r ≡ false → length (contents d size r) < size - 1
  room e = ground (arith, full_iff_count v, length-contents d size r, count-lt v)

  -- A ring whose indices meet holds nothing.
  pub contents-empty : empty r ≡ true → contents d size r ≡ []
  unfolding contents
  contents-empty e =
      let none_left : count size r ≡ 0 = ground (arith, empty_iff_count v) in rw none_left

-- The items that go in are the first ones, as many as there is room for, and they come last.
pub fill_refines {ℓ} :
    {A : Type ℓ} (d : A) {size : ℕ} (r : Ring A) (xs : List A)
    → IsValid size r
    → let (n, r') = fill size r xs in
      (n, contents d size r') ≡ Fifo.push_all (size - 1) (contents d size r) xs
unfolding fill Fifo.push_all
fill_refines d {size = size} r [] v = sym (Fifo.push_all_nil (size - 1) (contents d size r))
fill_refines d {size = size} r (x ∷ xs) v = elim (Bool-cases (full size r)) [
  | inl e ↦
      rw (e, fill)
        (sym (Fifo.push_all_full (size - 1) (contents d size r) (x ∷ xs) (no_room d r v e)))
  | inr e ↦
      rw (e, fill)
        (ground (
          arith,
          fill_refines d (store size r x) xs (store-IsValid v x),
          contents-store v d x e,
          Fifo.push_all_room (size - 1) (contents d size r) x xs (room d r v e),
        ))
]

-- The items that come out are the oldest ones, in order.
pub drain_refines {ℓ} :
    {A : Type ℓ} (d : A) {size : ℕ} (n : ℕ) (r : Ring A)
    → IsValid size r
    → let (xs, r') = drain d size n r in
      (xs, contents d size r') ≡ Fifo.pop_all n (contents d size r)
unfolding drain Fifo.pop_all
drain_refines d {size = size} zero r v = refl
drain_refines d {size = size} (suc n) r v = elim (Bool-cases (empty r)) [
  | inl e ↦ rw (e, drain) (rw (contents-empty d r v e))
  | inr e ↦
      rw (e, drain)
        (ground
          (arith, drain_refines d n (advance size r) (advance-IsValid v), contents-advance v d e))
]
