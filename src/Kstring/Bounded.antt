-- ===== src/Kstring/Bounded.antt =====
-- lib/kstring.c: strncpy and strncmp, which stop after a number of bytes.
use shadow_box_os.Common.{
  ℕ, zero, suc, ◌+◌, ◌-◌, ◌≤◌, ◌<◌, ◌≡◌, ◌⊎◌, ap, subst, ◌&&◌, ltb, leb, if◌then◌else◌, arith,
  ℕ_discrete, sym, List, [], ◌∷◌, length, take,
}
use shadow_box_os.Common.Int.{pos, sub_ℕ}
use shadow_box_os.Kstring.{Memory, put, strncmp_from, strncmp, strncpy_from, strncpy}
use shadow_box_os.Kstring.Blocks.{memset_from_lem}
use shadow_box_os.Kstring.Texts.{
  StringAt, StringAt-put, Compares, Compares-nil, Compares-shorter, Compares-longer, Compares-ne,
  Compares-eq,
}

-- The bytes of the string and then zeros, in `n` bytes.
abbrev pub padded : Memory → ℕ → ℕ → ℕ → ℕ → Memory
padded m d s len n x =
    if leb d x && ltb x (d + n) then (if ltb x (d + len) then m (s + (x - d)) else 0) else m x

strncpy_from_lem :
    (left : ℕ) (m : Memory) (d s i x : ℕ) (cs : List ℕ)
    → StringAt m (s + i) cs
    → (d ≤ s) ⊎ (s + i + length cs < d + i)
    → strncpy_from left m d s i x ≡ (
        if leb (d + i) x && ltb x (d + i + left)
        then (if ltb x (d + i + length cs) then m (s + (x - d)) else 0)
        else m x)
unfolding strncpy_from
strncpy_from_lem zero m d s i x cs h k = ground arith
strncpy_from_lem (suc left) m d s i x [] h k = ground (arith, memset_from_lem (suc left) m d 0 i x)
strncpy_from_lem (suc left) m d s i x (c ∷ cs) h k = ground (
  arith,
  strncpy_from_lem left (put m (d + i) (m (s + i))) d s (i + 1) x cs rest (omega arith),
  same,
)
  where
    rest : StringAt (put m (d + i) (m (s + i))) (s + (i + 1)) cs
    rest =
        StringAt-put m (d + i) (m (s + i)) (s + (i + 1)) cs (omega arith)
          (subst (λ a. StringAt m a cs) (omega arith) h.2)

    same : x ≡ d + i → m (s + (x - d)) ≡ m (s + i)
    same e = let e' : s + (x - d) ≡ s + i = omega arith in ap m e'

-- strncpy fills exactly `n` bytes, with the string as far as it fits and zeros behind it; so it ends
-- in a zero only if the string is shorter than `n`.
pub strncpy_lem :
    (m : Memory) (d s n x : ℕ) (cs : List ℕ)
    → StringAt m s cs
    → (d ≤ s) ⊎ (s + length cs < d)
    → strncpy m d s n x ≡ padded m d s (length cs) n x
strncpy_lem m d s n x cs h k = ground (
  arith,
  strncpy_from_lem n m d s 0 x cs (subst (λ a. StringAt m a cs) (omega arith) h) (omega arith),
)

strncmp_from_lem :
    (left : ℕ) (m : Memory) (a b i : ℕ) (xs ys : List ℕ)
    → StringAt m (a + i) xs
    → StringAt m (b + i) ys
    → Compares (strncmp_from left m a b i) (take left xs) (take left ys)
unfolding strncmp_from
strncmp_from_lem zero m a b i xs ys h k = Compares-nil
strncmp_from_lem (suc left) m a b i [] [] h k =
    let run : strncmp_from (suc left) m a b i ≡ pos 0 = ground arith in
    subst (λ z. Compares z [] []) (sym run) Compares-nil
strncmp_from_lem (suc left) m a b i [] (y ∷ ys) h k =
    let run : strncmp_from (suc left) m a b i ≡ sub_ℕ 0 y = ground arith in
    subst (λ z. Compares z [] (y ∷ take left ys)) (sym run) (Compares-shorter y (take left ys) k.1)
strncmp_from_lem (suc left) m a b i (x ∷ xs) [] h k =
    let run : strncmp_from (suc left) m a b i ≡ sub_ℕ x 0 = ground arith in
    subst (λ z. Compares z (x ∷ take left xs) []) (sym run) (Compares-longer x (take left xs) h.1)
strncmp_from_lem (suc left) m a b i (x ∷ xs) (y ∷ ys) h k =
    let t = take left xs in
    let u = take left ys in
    elim (ℕ_discrete x y) [
      | yes same ↦
          let run : strncmp_from (suc left) m a b i ≡ strncmp_from left m a b (i + 1) =
            ground arith in
          subst (λ z. Compares z (x ∷ t) (y ∷ u)) (sym run)
            (Compares-eq (strncmp_from left m a b (i + 1)) x y t u same (
              strncmp_from_lem left m a b (i + 1) xs ys
                (subst (λ p. StringAt m p xs) (omega arith) h.2)
                (subst (λ p. StringAt m p ys) (omega arith) k.2)))
      | no other ↦
          let run : strncmp_from (suc left) m a b i ≡ sub_ℕ x y = ground arith in
          subst (λ z. Compares z (x ∷ t) (y ∷ u)) (sym run) (Compares-ne x y t u other)
    ]

-- strncmp of two strings answers for their first `n` characters as strcmp does for whole strings: 0
-- exactly when these are equal, and a negative number exactly when the first ones come earlier.
pub strncmp_lem :
    (m : Memory) (a b n : ℕ) (xs ys : List ℕ)
    → StringAt m a xs
    → StringAt m b ys
    → Compares (strncmp m a b n) (take n xs) (take n ys)
strncmp_lem m a b n xs ys h k =
    strncmp_from_lem n m a b 0 xs ys (subst (λ p. StringAt m p xs) (omega arith) h)
      (subst (λ p. StringAt m p ys) (omega arith) k)
