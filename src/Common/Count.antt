-- ===== src/Common/Count.antt =====
-- How many of the first numbers have a Boolean property.
use Prim.Native.Nat.{ℕ, zero, suc, ◌+◌, ◌≤◌, ◌<◌}
use mathlib.Core.Path.{◌≡◌, refl}
use mathlib.Core.Logic.{◌≢◌}
use mathlib.Core.Bool.{Bool, true, false}
use native.Mathlib.Omega.{arith}
use native.Mathlib.Decide.{ℕ_discrete}

abbrev pub one_if : Bool → ℕ
one_if true = 1
one_if false = 0

abbrev pub count : (ℕ → Bool) → ℕ → ℕ
count f zero = 0
count f (suc n) = count f n + one_if (f n)

one_if-le : (b : Bool) → one_if b ≤ 1
one_if-le true = omega arith
one_if-le false = omega arith

pub count-le : (f : ℕ → Bool) (n : ℕ) → count f n ≤ n
count-le f zero = omega arith
count-le f (suc n) = omega (arith, count-le f n, one_if-le (f n))

pub count_ext : (f g : ℕ → Bool) (n : ℕ) → ((k : ℕ) → k < n → f k ≡ g k) → count f n ≡ count g n
count_ext f g zero same = refl
count_ext f g (suc n) same =
    rw (same n (omega arith), count_ext f g n (λ k h. same k (omega arith))) refl

-- Turning one number on adds one.
pub count_turn-on :
    (f g : ℕ → Bool) (n b : ℕ)
    → b < n
    → f b ≡ false
    → g b ≡ true
    → ((k : ℕ) → b ≢ k → f k ≡ g k)
    → count g n ≡ count f n + 1
count_turn-on f g zero b h off on same = absurd (omega arith)
count_turn-on f g (suc n) b h off on same = elim (ℕ_discrete b n) [
  | yes e ↦
      let below = count_ext f g n (λ k p. same k (λ q. absurd (omega arith))) in
      let off' : f n ≡ false = cc in
      let on' : g n ≡ true = cc in rw (off', on') (omega (arith, below))
  | no ne ↦
      let above = same n ne in
      rw above (omega (arith, count_turn-on f g n b (omega arith) off on same))
]
