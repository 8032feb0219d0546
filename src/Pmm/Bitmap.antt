-- ===== src/Pmm/Bitmap.antt =====
-- The bitmap of arch/x86_64/mm/pmm.c as a set of used blocks.
use native.Mathlib.Nat.{pow-le-pow_right}
use shadow_box_os.Common.{
  ℕ, zero, suc, ◌*◌, ◌/◌, ◌%◌, ◌^◌, ◌<◌, ◌≡◌, refl, sym, ap, ◌∙◌, Bool, true, false, not, ◌&&◌,
  ◌||◌, List, [], ◌∷◌, arith, length, get_or, set, All, All-set, get_or-set_self, get_or-set_ne,
  ◌==◌, bit_and, bit_or, ℕ_discrete, length-set, if◌then◌else◌,
}
use shadow_box_os.Common.Bits.{
  test_bit, test_bit-bit_or, test_bit-bit_and, test_bit-pow, test_bit-complement, complement,
  bit_or-lt, bit_and-lt, bit_and-pow-eq-zero,
}
use shadow_box_os.Pmm.{bitmap_set, bitmap_clear, bitmap_test}

abbrev pub AreBytes : List ℕ → Type 0
AreBytes bm = All (λ x. x < 2 ^ 8) bm

abbrev pub used : List ℕ → ℕ → Bool
used bm b = test_bit (get_or bm (b / 8) 0) (b % 8)

pub bitmap_test-used : (bm : List ℕ) (b : ℕ) → (bitmap_test bm b == 0) ≡ not (used bm b)
unfolding bitmap_test
bitmap_test-used bm b = bit_and-pow-eq-zero (get_or bm (b / 8) 0) (b % 8)

get_or-lt : (bm : List ℕ) (i : ℕ) → AreBytes bm → get_or bm i 0 < 2 ^ 8
get_or-lt [] i h = omega arith
get_or-lt (x ∷ bm) zero h = h.0
get_or-lt (x ∷ bm) (suc i) h = get_or-lt bm i h.1

digit-lt : (b : ℕ) → 2 ^ (b % 8) < 2 ^ 8
digit-lt b = omega (arith, pow-le-pow_right {n = 2} (omega arith) {i = b % 8} {j = 7} (omega arith))

pub bitmap_set-AreBytes : (bm : List ℕ) (b : ℕ) → AreBytes bm → AreBytes (bitmap_set bm b)
unfolding bitmap_set
bitmap_set-AreBytes bm b h =
    All-set (λ x. x < 2 ^ 8) bm (b / 8) (bit_or (get_or bm (b / 8) 0) (2 ^ (b % 8))) h
      (bit_or-lt 8 (get_or bm (b / 8) 0) (2 ^ (b % 8)) (get_or-lt bm (b / 8) h) (digit-lt b))

pub bitmap_clear-AreBytes : (bm : List ℕ) (b : ℕ) → AreBytes bm → AreBytes (bitmap_clear bm b)
unfolding bitmap_clear
bitmap_clear-AreBytes bm b h =
    let kept = complement 32 (2 ^ (b % 8)) in
    All-set (λ x. x < 2 ^ 8) bm (b / 8) (bit_and (get_or bm (b / 8) 0) kept) h
      (bit_and-lt 8 (get_or bm (b / 8) 0) kept (get_or-lt bm (b / 8) h))

pub length-bitmap_set : (bm : List ℕ) (b : ℕ) → length (bitmap_set bm b) ≡ length bm
unfolding bitmap_set
length-bitmap_set bm b = length-set bm (b / 8) (bit_or (get_or bm (b / 8) 0) (2 ^ (b % 8)))

pub length-bitmap_clear : (bm : List ℕ) (b : ℕ) → length (bitmap_clear bm b) ≡ length bm
unfolding bitmap_clear
length-bitmap_clear bm b =
    length-set bm (b / 8) (bit_and (get_or bm (b / 8) 0) (complement 32 (2 ^ (b % 8))))

-- A write of the byte that holds block `b` shows in the blocks of that byte alone.
used-set :
    (bm : List ℕ) (b c v : ℕ)
    → b < 8 * length bm
    → used (set bm (b / 8) v) c ≡ (if b / 8 == c / 8 then test_bit v (c % 8) else used bm c)
used-set bm b c v h = elim (ℕ_discrete (b / 8) (c / 8)) [
  | yes e ↦
      let same : (b / 8 == c / 8) ≡ true = ground arith in
      rw (same, sym e, get_or-set_self bm (b / 8) v 0 (omega arith)) refl
  | no ne ↦
      let other : (b / 8 == c / 8) ≡ false = ground arith in
      rw (other, get_or-set_ne bm (b / 8) (c / 8) v 0 ne) refl
]

or_comm : (a b : Bool) → (a || b) ≡ (b || a)
or_comm a b = ground arith

and_comm : (a b : Bool) → (a && b) ≡ (b && a)
and_comm a b = ground arith

-- Setting block `b` marks it used and leaves the others.
pub used-bitmap_set :
    (bm : List ℕ) (b c : ℕ) → b < 8 * length bm → used (bitmap_set bm b) c ≡ (b == c) || used bm c
unfolding bitmap_set
used-bitmap_set bm b c h =
    let old = get_or bm (b / 8) 0 in
    let bits = test_bit-bit_or old (2 ^ (b % 8)) (c % 8) in
    let one = test_bit-pow (b % 8) (c % 8) in
    used-set bm b c (bit_or old (2 ^ (b % 8))) h ∙ elim (ℕ_discrete (b / 8) (c / 8)) [
      | yes e ↦
          let same : (b / 8 == c / 8) ≡ true = ground arith in
          let there : get_or bm (b / 8) 0 ≡ get_or bm (c / 8) 0 = ap (λ i. get_or bm i 0) e in
          let eqs : (b % 8 == c % 8) ≡ (b == c) = ground arith in
          rw (same, bits, one, there, eqs) (or_comm (used bm c) (b == c))
      | no ne ↦
          let other : (b / 8 == c / 8) ≡ false = ground arith in
          let apart : (b == c) ≡ false = ground arith in rw (other, apart) refl
    ]

-- Clearing block `b` marks it free and leaves the others.
pub used-bitmap_clear :
    (bm : List ℕ) (b c : ℕ)
    → b < 8 * length bm
    → used (bitmap_clear bm b) c ≡ not (b == c) && used bm c
unfolding bitmap_clear
used-bitmap_clear bm b c h =
    let old = get_or bm (b / 8) 0 in
    let kept = complement 32 (2 ^ (b % 8)) in
    let bits = test_bit-bit_and old kept (c % 8) in
    let flipped =
      test_bit-complement 32 (2 ^ (b % 8)) (c % 8) (omega (arith, digit-lt b)) (omega arith) in
    let one = test_bit-pow (b % 8) (c % 8) in
    used-set bm b c (bit_and old kept) h ∙ elim (ℕ_discrete (b / 8) (c / 8)) [
      | yes e ↦
          let same : (b / 8 == c / 8) ≡ true = ground arith in
          let there : get_or bm (b / 8) 0 ≡ get_or bm (c / 8) 0 = ap (λ i. get_or bm i 0) e in
          let eqs : (b % 8 == c % 8) ≡ (b == c) = ground arith in
          rw (same, bits, flipped, one, there, eqs) (and_comm (used bm c) (not (b == c)))
      | no ne ↦
          let other : (b / 8 == c / 8) ≡ false = ground arith in
          let apart : (b == c) ≡ false = ground arith in rw (other, apart) refl
    ]
