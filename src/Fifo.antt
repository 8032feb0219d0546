-- ===== src/Fifo.antt =====
-- The abstract queue that the kernel's byte and event rings promise: at most `bound` items, oldest
-- first. A push into a full queue is refused, a pop of an empty one returns nothing.
use shadow_box_os.Common.{
  ℕ, ◌+◌, ◌-◌, ◌≤◌, ◌<◌, ◌≡◌, ap, Bool, true, false, Option, none, some, List, [], ◌∷◌, ◌++◌, arith,
  ltb, if◌then◌else◌, length, take, drop, min, append-nil, append_assoc, length-append, zero, suc,
}

module _ {ℓ} {A : Type ℓ} where
  take_suc : (n : ℕ) (x : A) (xs : List A) → 0 < n → take n (x ∷ xs) ≡ x ∷ take (n - 1) xs
  take_suc zero x xs h = absurd (omega arith)
  take_suc (suc n) x xs h = ap (λ k. x ∷ take k xs) (omega arith)

  unfoldable pub push : ℕ → List A → A → Bool × List A
  push bound q x = if ltb (length q) bound then (true, q ++ x ∷ []) else (false, q)

  unfoldable pub pop : List A → Option A × List A
  pop [] = (none, [])
  pop (x ∷ q) = (some x, q)

  -- Push in order until the first refusal: how many went in, and the queue after.
  unfoldable pub push_all : ℕ → List A → List A → ℕ × List A
  push_all bound q xs = let n = min (length xs) (bound - length q) in (n, q ++ take n xs)

  pub push_all_nil : (bound : ℕ) (q : List A) → push_all bound q [] ≡ (0, q)
  unfolding push_all
  push_all_nil bound q =
      let none_come : min 0 (bound - length q) ≡ 0 = omega arith in rw (none_come, append-nil)

  pub push_all_full : (bound : ℕ) (q xs : List A) → bound ≤ length q → push_all bound q xs ≡ (0, q)
  unfolding push_all
  push_all_full bound q xs h =
      let none_fit : min (length xs) (bound - length q) ≡ 0 = omega arith in
      rw (none_fit, append-nil)

  pub push_all_room :
      (bound : ℕ) (q : List A) (x : A) (xs : List A)
      → length q < bound
      → push_all bound q (x ∷ xs) ≡ let (n, q') = push_all bound (q ++ x ∷ []) xs in (n + 1, q')
  unfolding push_all
  push_all_room bound q x xs h = ground (
    arith,
    length-append q (x ∷ []),
    append_assoc q (x ∷ []) (take (min (length xs) (bound - length (q ++ x ∷ []))) xs),
    take_suc (min (suc (length xs)) (bound - length q)) x xs,
  )

  -- Pop at most `n` items.
  unfoldable pub pop_all : ℕ → List A → List A × List A
  pop_all n q = (take n q, drop n q)
