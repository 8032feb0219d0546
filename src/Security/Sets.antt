-- ===== src/Security/Sets.antt =====
-- kernel/security.c: a capability set as a set of numbers from 0 to 40.
use native.Mathlib.Nat.{pow-le-pow_right}
use shadow_box_os.Common.Bits.{
  complement, test_bit, test_bit-bit_and, test_bit-bit_or, test_bit-pow, test_bit-complement,
  bit_and-pow-eq-zero, bit_or-lt, bit_and-lt,
}
use shadow_box_os.Common.Int.{pos, negsuc}
use shadow_box_os.Common.{
  ℕ, ◌-◌, ◌^◌, ◌≤◌, ◌<◌, ◌≡◌, refl, bit_and, bit_or, Bool, true, false, not, ◌&&◌, ◌||◌, Option,
  none, some, ltb, ◌==◌, if◌then◌else◌, arith, Bool-cases, inl, inr, ltb→lt,
}
use shadow_box_os.Security.{Caps, cap_raise, cap_lower, cap_isclear, cap_and, cap_or, in_word}

-- Two words of 32 bits.
pub record IsCaps (s : Caps) : Type 0 where
  pub low_in : s.low < 2 ^ 32
  pub high_in : s.high < 2 ^ 32

abbrev pub member : Caps → ℕ → Bool
member s c = if ltb c 32 then test_bit s.low c else test_bit s.high (c - 32)

cap_isclear_lem : (s : Caps) (c : ℕ) → c ≤ 40 → cap_isclear s (pos c) ≡ not (member s c)
unfolding cap_isclear
cap_isclear_lem s c h =
    ground (arith, bit_and-pow-eq-zero s.low c, bit_and-pow-eq-zero s.high (c - 32))

bit_in_word : (c : ℕ) → c < 32 → 2 ^ c < 2 ^ 32
bit_in_word c h =
    omega (arith, pow-le-pow_right {n = 2} (omega arith) {i = c} {j = 31} (omega arith))

cleared :
    (w c q : ℕ)
    → c < 32
    → q < 32
    → test_bit (bit_and w (complement 32 (2 ^ c))) q ≡ (if q == c then false else test_bit w q)
cleared w c q h k = ground (
  arith,
  test_bit-bit_and w (complement 32 (2 ^ c)) q,
  test_bit-complement 32 (2 ^ c) q (bit_in_word c h) k,
  test_bit-pow c q,
)

module _ (s : Caps) (c q : ℕ) (h : c ≤ 40) (k : q ≤ 40) where
  member-raised :
      member (in_word s c (λ w n. bit_or w (2 ^ n))) q ≡ (if q == c then true else member s q)
  member-raised = ground (
    arith,
    test_bit-bit_or s.low (2 ^ c) q,
    test_bit-bit_or s.high (2 ^ (c - 32)) (q - 32),
    test_bit-pow c q,
    test_bit-pow (c - 32) (q - 32),
  )

  member-lowered :
      member (in_word s c (λ w n. bit_and w (complement 32 (2 ^ n)))) q
      ≡ (if q == c then false else member s q)
  member-lowered = ground (arith, cleared s.low c q, cleared s.high (c - 32) (q - 32))

  isclear-raised :
      cap_isclear (in_word s c (λ w n. bit_or w (2 ^ n))) (pos q)
      ≡ (if q == c then false else cap_isclear s (pos q))
  isclear-raised =
      let after = in_word s c (λ w n. bit_or w (2 ^ n)) in
      ground (arith, cap_isclear_lem after q k, cap_isclear_lem s q k, member-raised)

  isclear-lowered :
      cap_isclear (in_word s c (λ w n. bit_and w (complement 32 (2 ^ n)))) (pos q)
      ≡ (if q == c then true else cap_isclear s (pos q))
  isclear-lowered =
      let after = in_word s c (λ w n. bit_and w (complement 32 (2 ^ n))) in
      ground (arith, cap_isclear_lem after q k, cap_isclear_lem s q k, member-lowered)

module _ (s : Caps) (v : IsCaps s) (c : ℕ) where
  raised-IsCaps : c ≤ 40 → IsCaps (in_word s c (λ w n. bit_or w (2 ^ n)))
  raised-IsCaps h = elim (Bool-cases (ltb c 32)) [
    | inl low ↦ rw low (record {
      low_in = bit_or-lt 32 s.low (2 ^ c) v.low_in (bit_in_word c (ltb→lt c 32 low));
      high_in = v.high_in;
    })
    | inr high ↦ rw high (record {
      low_in = v.low_in;
      high_in = bit_or-lt 32 s.high (2 ^ (c - 32)) v.high_in (bit_in_word (c - 32) (omega arith));
    })
  ]

  lowered-IsCaps : IsCaps (in_word s c (λ w n. bit_and w (complement 32 (2 ^ n))))
  lowered-IsCaps = elim (Bool-cases (ltb c 32)) [
    | inl low ↦ rw low (record {
      low_in = bit_and-lt 32 s.low (complement 32 (2 ^ c)) v.low_in;
      high_in = v.high_in;
    })
    | inr high ↦ rw high (record {
      low_in = v.low_in;
      high_in = bit_and-lt 32 s.high (complement 32 (2 ^ (c - 32))) v.high_in;
    })
  ]

-- The change of a set that makes the answer about `c` to be `clear` and leaves all others.
abbrev Changes : Option Caps → Caps → ℕ → Bool → Type 0
Changes o s c clear =
    (s' : Caps) × (o ≡ some s')
    × IsCaps s'
    × ((q : ℕ)
        → q ≤ 40
        → cap_isclear s' (pos q) ≡ (if q == c then clear else cap_isclear s (pos q)))

-- cap_raise and cap_lower refuse a negative number and one above 40, for which cap_isclear says yes;
-- on a set of two 32-bit words they change what cap_isclear says of their number, from 0 to 40, and
-- of no other, and leave two 32-bit words.
pub cap_raise-cap_lower :
    (s : Caps)
    → IsCaps s
    → ((n : ℕ)
        → (cap_raise s (negsuc n) ≡ none)
          × (cap_lower s (negsuc n) ≡ none)
          × (cap_isclear s (negsuc n) ≡ true))
      × ((c : ℕ)
          → 40 < c
          → (cap_raise s (pos c) ≡ none)
            × (cap_lower s (pos c) ≡ none)
            × (cap_isclear s (pos c) ≡ true))
      × ((c : ℕ)
          → c ≤ 40
          → Changes (cap_raise s (pos c)) s c false × Changes (cap_lower s (pos c)) s c true)
unfolding cap_raise cap_lower cap_isclear
cap_raise-cap_lower s v = (
  λ n. (refl, refl, refl),
  λ c h. (ground arith, ground arith, ground arith),
  λ c h. (
    (_, ground arith, raised-IsCaps s v c h, λ q k. isclear-raised s c q h k),
    (_, ground arith, lowered-IsCaps s v c, λ q k. isclear-lowered s c q h k),
  ),
)

-- cap_and and cap_or are the intersection and the union of two sets.
pub cap_and-cap_or :
    (a b : Caps) (q : ℕ)
    → q ≤ 40
    → (cap_isclear (cap_and a b) (pos q) ≡ cap_isclear a (pos q) || cap_isclear b (pos q))
      × (cap_isclear (cap_or a b) (pos q) ≡ cap_isclear a (pos q) && cap_isclear b (pos q))
unfolding cap_and cap_or
cap_and-cap_or a b q h = (
  ground (
    arith,
    cap_isclear_lem (cap_and a b) q h,
    cap_isclear_lem a q h,
    cap_isclear_lem b q h,
    test_bit-bit_and a.low b.low q,
    test_bit-bit_and a.high b.high (q - 32),
  ),
  ground (
    arith,
    cap_isclear_lem (cap_or a b) q h,
    cap_isclear_lem a q h,
    cap_isclear_lem b q h,
    test_bit-bit_or a.low b.low q,
    test_bit-bit_or a.high b.high (q - 32),
  ),
)
