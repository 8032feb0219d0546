-- ===== src/Common/Bits.antt =====
-- The bits of a machine word, and what `&`, `|`, `^`, `~` and `1 << k` do to them, at every width.
use Prim.Native.Nat.{ℕ, zero, suc, ◌+◌, ◌-◌, ◌*◌, ◌/◌, ◌%◌, ◌^◌, ◌≤◌, ◌<◌, min, max}
use Prim.Native.Nat.{bit_and, bit_or, digits, bitwise, bit_and-bitwise, bit_or-bitwise}
use mathlib.Core.Path.{◌≡◌, refl, ap, ap₂, ◌∙◌}
use mathlib.Core.Bool.{Bool, false, not, ◌&&◌, ◌||◌}
use native.Mathlib.Omega.{arith}
use native.Mathlib.Nat.{pow-suc, one-le-pow}
use shadow_box_os.Common.Tests.{◌==◌}

unfoldable pub test_bit : ℕ → ℕ → Bool
test_bit x zero = (x % 2) == 1
test_bit x (suc k) = test_bit (x / 2) k

module _ (z : ℕ → ℕ) (f : ℕ → ℕ → ℕ) where
  digits-fuel : (n m a b : ℕ) → a ≤ n → a ≤ m → digits z f n a b ≡ digits z f m a b
  digits-fuel zero zero a b p q = refl
  digits-fuel zero (suc m) zero b p q = refl
  digits-fuel zero (suc m) (suc a) b p q = absurd (omega arith)
  digits-fuel (suc n) zero zero b p q = refl
  digits-fuel (suc n) zero (suc a) b p q = absurd (omega arith)
  digits-fuel (suc n) (suc m) zero b p q = refl
  digits-fuel (suc n) (suc m) (suc a) b p q =
      rw (digits-fuel n m (suc a / 2) (b / 2) (omega arith) (omega arith))

  bitwise_step :
      (a b : ℕ)
      → bitwise z f (suc a) b ≡ bitwise z f (suc a / 2) (b / 2) * 2 + f (suc a % 2) (b % 2)
  bitwise_step a b =
      omega (arith, digits-fuel a (suc a / 2) (suc a / 2) (b / 2) (omega arith) (omega arith))

bit_or_digit : (a b : ℕ) → bit_or a b ≡ bit_or (a / 2) (b / 2) * 2 + max (a % 2) (b % 2)
bit_or_digit zero b = simp bit_or-bitwise (omega arith)
bit_or_digit (suc a) b = simp bit_or-bitwise (bitwise_step (λ y. y) max a b)

bit_and_digit : (a b : ℕ) → bit_and a b ≡ bit_and (a / 2) (b / 2) * 2 + min (a % 2) (b % 2)
bit_and_digit zero b = simp bit_and-bitwise (omega arith)
bit_and_digit (suc a) b = simp bit_and-bitwise (bitwise_step (λ y. 0) min a b)

pub test_bit-bit_or : (a b k : ℕ) → test_bit (bit_or a b) k ≡ test_bit a k || test_bit b k
unfolding test_bit
test_bit-bit_or a b zero = ground (arith, bit_or_digit a b)
test_bit-bit_or a b (suc k) =
    ap (λ x. test_bit x k) (omega (arith, bit_or_digit a b)) ∙ test_bit-bit_or (a / 2) (b / 2) k

pub test_bit-bit_and : (a b k : ℕ) → test_bit (bit_and a b) k ≡ test_bit a k && test_bit b k
unfolding test_bit
test_bit-bit_and a b zero = ground (arith, bit_and_digit a b)
test_bit-bit_and a b (suc k) =
    ap (λ x. test_bit x k) (omega (arith, bit_and_digit a b)) ∙ test_bit-bit_and (a / 2) (b / 2) k

pub test_bit-zero : (k : ℕ) → test_bit 0 k ≡ false
unfolding test_bit
test_bit-zero zero = refl
test_bit-zero (suc k) = test_bit-zero k

-- `1 << n` has the one bit `n`.
pub test_bit-pow : (n k : ℕ) → test_bit (2 ^ n) k ≡ (n == k)
unfolding test_bit
test_bit-pow zero zero = refl
test_bit-pow zero (suc k) = rw (test_bit-zero k) (ground arith)
test_bit-pow (suc n) zero = ground (arith, pow-suc 2 n)
test_bit-pow (suc n) (suc k) =
    ap (λ x. test_bit x k) (omega (arith, pow-suc 2 n)) ∙ test_bit-pow n k ∙ (ground arith)

-- `~m` in a word of `w` bits.
abbrev pub complement : ℕ → ℕ → ℕ
complement w m = 2 ^ w - 1 - m

pub test_bit-complement :
    (w m k : ℕ) → m < 2 ^ w → k < w → test_bit (complement w m) k ≡ not (test_bit m k)
unfolding test_bit
test_bit-complement zero m k h p = absurd (omega arith)
test_bit-complement (suc w) m zero h p = ground (arith, pow-suc 2 w, one-le-pow w 2)
test_bit-complement (suc w) m (suc k) h p =
    ap (λ x. test_bit x k) halved
    ∙ test_bit-complement w (m / 2) k (omega (arith, pow-suc 2 w)) (omega arith)
  where
    halved : complement (suc w) m / 2 ≡ complement w (m / 2)
    halved = omega (arith, pow-suc 2 w, one-le-pow w 2)

-- A word without bits is 0.
pub eq_zero_of_bits : (w x : ℕ) → x < 2 ^ w → ((k : ℕ) → k < w → test_bit x k ≡ false) → x ≡ 0
unfolding test_bit
eq_zero_of_bits zero x h all = omega arith
eq_zero_of_bits (suc w) x h all = ground (
  arith,
  all 0,
  eq_zero_of_bits w (x / 2) (omega (arith, pow-suc 2 w)) (λ k p. all (suc k) (omega arith)),
)

pub bit_or-lt : (w a b : ℕ) → a < 2 ^ w → b < 2 ^ w → bit_or a b < 2 ^ w
bit_or-lt zero a b h p = ground (arith, bit_or_digit a b, no_bits)
  where
    no_bits : bit_or (a / 2) (b / 2) ≡ 0
    no_bits =
        let left : a / 2 ≡ 0 = omega arith in
        let right : b / 2 ≡ 0 = omega arith in ap₂ bit_or left right
bit_or-lt (suc w) a b h p = omega (
  arith,
  pow-suc 2 w,
  bit_or_digit a b,
  bit_or-lt w (a / 2) (b / 2) (omega (arith, pow-suc 2 w)) (omega (arith, pow-suc 2 w)),
)

zero-bit_and : (b : ℕ) → bit_and 0 b ≡ 0
zero-bit_and b = bit_and-bitwise 0 b

bit_and-zero : (w a : ℕ) → a < 2 ^ w → bit_and a 0 ≡ 0
bit_and-zero zero a h = ap (λ x. bit_and x 0) none_left ∙ zero-bit_and 0
  where
    none_left : a ≡ 0
    none_left = omega arith
bit_and-zero (suc w) a h =
    omega (arith, bit_and_digit a 0, bit_and-zero w (a / 2) (omega (arith, pow-suc 2 w)))

lt-pow_two : (a : ℕ) → a < 2 ^ a
lt-pow_two zero = omega arith
lt-pow_two (suc a) = omega (arith, pow-suc 2 a, lt-pow_two a)

pub bit_and-lt : (w a b : ℕ) → a < 2 ^ w → bit_and a b < 2 ^ w
bit_and-lt zero a b h =
    ground (arith, bit_and_digit a b, zero-bit_and (b / 2), ap (λ x. bit_and x (b / 2)) none_left)
  where
    none_left : a / 2 ≡ 0
    none_left = omega arith
bit_and-lt (suc w) a b h = omega (
  arith,
  pow-suc 2 w,
  bit_and_digit a b,
  bit_and-lt w (a / 2) (b / 2) (omega (arith, pow-suc 2 w)),
)

-- `x & (1 << n)` is 0 exactly when bit `n` is clear.
pub bit_and-pow-eq-zero : (x n : ℕ) → (bit_and x (2 ^ n) == 0) ≡ not (test_bit x n)
unfolding test_bit
bit_and-pow-eq-zero x zero =
    ground (arith, bit_and_digit x 1, bit_and-zero (x / 2) (x / 2) (lt-pow_two (x / 2)))
bit_and-pow-eq-zero x (suc n) = (ground (arith, digit)) ∙ bit_and-pow-eq-zero (x / 2) n
  where
    digit : bit_and x (2 ^ suc n) ≡ bit_and (x / 2) (2 ^ n) * 2
    digit =
        let half : 2 ^ suc n / 2 ≡ 2 ^ n = omega (arith, pow-suc 2 n) in
        let low : 2 ^ suc n % 2 ≡ 0 = omega (arith, pow-suc 2 n) in
        bit_and_digit x (2 ^ suc n)
        ∙ ap₂ (λ (h d : ℕ). bit_and (x / 2) h * 2 + min (x % 2) d) half low
        ∙ omega arith
