-- ===== src/Ring/Refine.antt =====
-- A valid ring is a queue of at most `size - 1` items.
use shadow_box_os.Common.{
  ℕ, ◌+◌, ◌%◌, ◌<◌, ◌≡◌, ◌≢◌, ap, ap₂, ◌∙◌, false, [], ◌∷◌, ◌++◌, arith, get_or, ◌==◌,
  get_or-set_self, get_or-set_ne, tabulate, tabulate_ext, tabulate_snoc, suc,
}
use native.Mathlib.Nat.{mod-eq_of_lt, mod-add-mod, add-zero}
use shadow_box_os.Ring.{Ring, full, empty, store, advance, count, item, oldest, contents}
use shadow_box_os.Ring.Invariant.{
  IsValid, next_cases, sum_cases, count_cases, store-IsValid, advance-IsValid,
}

module _ {ℓ} {A : Type ℓ} {size : ℕ} {r : Ring A} (v : IsValid size r) where
  pub count-lt : count size r < size
  count-lt = ground (arith, count_cases v)

  pub empty_iff_count : empty r ≡ (count size r == 0)
  empty_iff_count = ground (arith, count_cases v)

  pub full_iff_count : full size r ≡ (count size r + 1 == size)
  full_iff_count = ground (arith, count_cases v, next_cases size r.head)

  pub count-store : (x : A) → full size r ≡ false → count size (store size r x) ≡ count size r + 1
  count-store x h =
      ground (arith, count_cases v, next_cases size r.head, count_cases (store-IsValid v x))

  pub count-advance : empty r ≡ false → count size (advance size r) + 1 ≡ count size r
  count-advance h =
      ground (arith, count_cases v, next_cases size r.tail, count_cases (advance-IsValid v))

  item_at_head : (r.tail + count size r) % size ≡ r.head
  item_at_head = ground (arith, count_cases v, sum_cases size r.tail (count size r), count-lt)

  item_before_head : (k : ℕ) → k < count size r → r.head ≢ (r.tail + k) % size
  item_before_head k h e = ground (arith, count_cases v, sum_cases size r.tail k, count-lt)

  -- An item that is stored becomes the newest.
  pub contents-store :
      (d x : A)
      → full size r ≡ false
      → contents d size (store size r x) ≡ contents d size r ++ x ∷ []
  unfolding contents
  contents-store d x h =
      ap (λ n. tabulate n after) one_more
      ∙ tabulate_snoc (count size r) after
      ∙ ap₂ (λ xs y. xs ++ y ∷ []) (tabulate_ext (count size r) after (item d size r) kept) newest
    where
      one_more : count size (store size r x) ≡ suc (count size r)
      one_more = omega (arith, count-store x h)

      after : ℕ → A
      after = item d size (store size r x)

      kept : (k : ℕ) → k < count size r → after k ≡ item d size r k
      kept k p = get_or-set_ne r.cells r.head ((r.tail + k) % size) x d (item_before_head k p)

      newest : after (count size r) ≡ x
      newest = rw item_at_head (get_or-set_self r.cells r.head x d (omega arith))

  pub contents-advance :
      (d : A) → empty r ≡ false → contents d size r ≡ oldest d r ∷ contents d size (advance size r)
  unfolding contents
  contents-advance d h =
      ap (λ n. tabulate n (item d size r)) one_less
      ∙ ap₂ ◌∷◌ first
          (tabulate_ext rest (λ k. item d size r (suc k)) (item d size (advance size r)) shifted)
    where
      rest : ℕ
      rest = count size (advance size r)

      one_less : count size r ≡ suc rest
      one_less = omega (arith, count-advance h)

      first : item d size r 0 ≡ oldest d r
      first = ap (λ i. get_or r.cells i d) (rw add-zero (mod-eq_of_lt v.tail_in))

      same_sum : (k : ℕ) → (r.tail + suc k) % size ≡ (r.tail + 1 + k) % size
      same_sum k = ap (λ i. i % size) (omega arith)

      shifted : (k : ℕ) → k < rest → item d size r (suc k) ≡ item d size (advance size r) k
      shifted k p = ap (λ i. get_or r.cells i d) (rw (mod-add-mod (r.tail + 1) size k) (same_sum k))
