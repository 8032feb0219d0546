-- ===== src/Kstring/Texts.antt =====
-- lib/kstring.c: strings in memory, and what strlen, strcmp, strcpy and strcat do to them.
use shadow_box_os.Common.{
  ℕ, zero, suc, ◌+◌, ◌-◌, ◌≤◌, ◌<◌, ◌≡◌, ◌≢◌, ◌⊎◌, ◌↔◌, refl, ap, ap₂, subst, fun_ext, Bool, true,
  false, ◌&&◌, ◌||◌, ltb, ◌==◌, arith, ℕ_discrete, ◌∙◌, sym, some, List, [], ◌∷◌, ◌++◌, length,
}
use shadow_box_os.Common.Int.{ℤ, pos, sub_ℕ, is_negative}
use shadow_box_os.Kstring.{Memory, put, strcmp, strlen_from, strcpy, end_of, strcat, memmove}
use shadow_box_os.Kstring.Blocks.{block_copied, memmove_lem}

-- The string with the characters `cs` is at address `p`, with its zero behind it.
abbrev pub StringAt : Memory → ℕ → List ℕ → Type 0
StringAt m p [] = m p ≡ 0
StringAt m p (c ∷ cs) = (m p ≡ c) × (0 < c) × StringAt m (p + 1) cs

strlen_from_lem :
    (f : ℕ) (m : Memory) (p n : ℕ) (cs : List ℕ)
    → StringAt m (p + n) cs
    → length cs < f
    → strlen_from f m p n ≡ some (n + length cs)
unfolding strlen_from
strlen_from_lem zero m p n cs h e = absurd (omega arith)
strlen_from_lem (suc f) m p n [] h e = ground arith
strlen_from_lem (suc f) m p n (c ∷ cs) h e = ground (
  arith,
  strlen_from_lem f m p (n + 1) cs (subst (λ a. StringAt m a cs) (omega arith) h.2) (omega arith),
)

-- The order of a dictionary.
abbrev pub precedes : List ℕ → List ℕ → Bool
precedes xs [] = false
precedes [] (y ∷ ys) = true
precedes (x ∷ xs) (y ∷ ys) = ltb x y || ((x == y) && precedes xs ys)

-- `z` compares the two strings: it is 0 exactly when they are equal, and negative exactly when the
-- first comes before the second in the dictionary.
abbrev pub Compares : ℤ → List ℕ → List ℕ → Type 0
Compares z xs ys = ((z ≡ pos 0) ↔ (xs ≡ ys)) × (is_negative z ≡ precedes xs ys)

pub Compares-nil : Compares (pos 0) [] []
Compares-nil = ((λ e. refl, λ e. refl), refl)

pub Compares-shorter : (y : ℕ) (ys : List ℕ) → 0 < y → Compares (sub_ℕ 0 y) [] (y ∷ ys)
Compares-shorter y ys h = ((λ q. absurd (ground arith), λ q. cc), ground arith)

pub Compares-longer : (x : ℕ) (xs : List ℕ) → 0 < x → Compares (sub_ℕ x 0) (x ∷ xs) []
Compares-longer x xs h = ((λ q. absurd (ground arith), λ q. cc), ground arith)

pub Compares-ne : (x y : ℕ) (xs ys : List ℕ) → x ≢ y → Compares (sub_ℕ x y) (x ∷ xs) (y ∷ ys)
Compares-ne x y xs ys other =
    ((λ q. absurd (other (ground arith)), λ q. absurd (other (cc))), ground arith)

pub Compares-eq :
    (z : ℤ) (x y : ℕ) (xs ys : List ℕ) → x ≡ y → Compares z xs ys → Compares z (x ∷ xs) (y ∷ ys)
Compares-eq z x y xs ys same c = ((λ q. ap₂ ◌∷◌ same (c.0.0 q), λ q. c.0.1 (cc)), ground arith)

-- With fuel for the first string, strcmp of two strings answers 0 exactly when they are equal, and a
-- negative number exactly when the first comes before the second in the dictionary.
pub strcmp_lem :
    (f : ℕ) (m : Memory) (a b : ℕ) (xs ys : List ℕ)
    → StringAt m a xs
    → StringAt m b ys
    → length xs < f
    → (z : ℤ) × (strcmp f m a b ≡ some z) × Compares z xs ys
unfolding strcmp
strcmp_lem zero m a b xs ys h k e = absurd (omega arith)
strcmp_lem (suc f) m a b [] [] h k e = (pos 0, ground arith, Compares-nil)
strcmp_lem (suc f) m a b [] (y ∷ ys) h k e = (sub_ℕ 0 y, ground arith, Compares-shorter y ys k.1)
strcmp_lem (suc f) m a b (x ∷ xs) [] h k e = (sub_ℕ x 0, ground arith, Compares-longer x xs h.1)
strcmp_lem (suc f) m a b (x ∷ xs) (y ∷ ys) h k e = elim (ℕ_discrete x y) [
  | yes same ↦
      let (z, run, c) = strcmp_lem f m (a + 1) (b + 1) xs ys h.2 k.2 (omega arith) in
      (z, ground arith, Compares-eq z x y xs ys same c)
  | no other ↦ (sub_ℕ x y, ground arith, Compares-ne x y xs ys other)
]

pub StringAt-put :
    (m : Memory) (a v p : ℕ) (cs : List ℕ)
    → (a < p) ⊎ (p + length cs < a)
    → StringAt m p cs
    → StringAt (put m a v) p cs
StringAt-put m a v p [] h k = ground arith
StringAt-put m a v p (c ∷ cs) h k =
    (ground arith, k.1, StringAt-put m a v (p + 1) cs (omega arith) k.2)

block_one : (m : Memory) (d s : ℕ) → put m d (m s) ≡ block_copied m d s 1
block_one m d s = fun_ext λ x. ground (arith, same x)
  where
    same : (x : ℕ) → x ≡ d → m (s + (x - d)) ≡ m s
    same x e = let e' : s + (x - d) ≡ s = omega arith in ap m e'

block_more :
    (m : Memory) (d s n : ℕ)
    → (d ≤ s) ⊎ (s + n < d)
    → block_copied (put m d (m s)) (d + 1) (s + 1) n ≡ block_copied m d s (suc n)
block_more m d s n h = fun_ext λ x. ground (arith, first x, later x)
  where
    first : (x : ℕ) → x ≡ d → m (s + (x - d)) ≡ m s
    first x e = let e' : s + (x - d) ≡ s = omega arith in ap m e'

    later :
        (x : ℕ) → d < x → x < d + suc n → put m d (m s) (s + 1 + (x - (d + 1))) ≡ m (s + (x - d))
    later x lo hi =
        let e : s + 1 + (x - (d + 1)) ≡ s + (x - d) = omega arith in
        let apart : s + (x - d) ≢ d = λ q. omega arith in rw e (ground (arith, apart))

-- Where the destination does not start inside the source string, strcpy with enough fuel changes
-- the memory as memmove does for the string and its zero.
pub strcpy_lem :
    (f : ℕ) (m : Memory) (d s : ℕ) (cs : List ℕ)
    → StringAt m s cs
    → (d ≤ s) ⊎ (s + length cs < d)
    → length cs < f
    → strcpy f m d s ≡ some (memmove m d s (length cs + 1))
unfolding strcpy
strcpy_lem zero m d s cs h k e = absurd (omega arith)
strcpy_lem (suc f) m d s [] h k e = (rw (h, ◌==◌) refl) ∙ ap some (ap (put m d) (sym h) ∙ one)
  where
    one : put m d (m s) ≡ memmove m d s 1
    one = block_one m d s ∙ sym (fun_ext (memmove_lem m d s 1))
strcpy_lem (suc f) m d s (c ∷ cs) h k e =
    go_on
    ∙ strcpy_lem f m' (d + 1) (s + 1) cs (StringAt-put m d (m s) (s + 1) cs (omega arith) h.2)
        (omega arith) (omega arith)
    ∙ ap some moved
  where
    m' : Memory
    m' = put m d (m s)

    go_on : strcpy (suc f) m d s ≡ strcpy f m' (d + 1) (s + 1)
    go_on = ground arith

    moved : memmove m' (d + 1) (s + 1) (length cs + 1) ≡ memmove m d s (suc (length cs) + 1)
    moved =
        fun_ext (memmove_lem m' (d + 1) (s + 1) (length cs + 1))
        ∙ block_more m d s (length cs + 1) (omega arith)
        ∙ ap (block_copied m d s) (omega arith)
        ∙ sym (fun_ext (memmove_lem m d s (suc (length cs) + 1)))

end_of_lem :
    (f : ℕ) (m : Memory) (p : ℕ) (cs : List ℕ)
    → StringAt m p cs
    → length cs < f
    → end_of f m p ≡ some (p + length cs)
unfolding end_of
end_of_lem zero m p cs h e = absurd (omega arith)
end_of_lem (suc f) m p [] h e = ground arith
end_of_lem (suc f) m p (c ∷ cs) h e = ground (arith, end_of_lem f m (p + 1) cs h.2 (omega arith))

-- A string whose characters and zero are the same in two memories, maybe at other addresses.
StringAt-moved :
    (m m' : Memory) (p p' : ℕ) (cs : List ℕ)
    → StringAt m p cs
    → ((k : ℕ) → k ≤ length cs → m' (p' + k) ≡ m (p + k))
    → StringAt m' p' cs
StringAt-moved m m' p p' [] h same =
    ap m' (omega arith) ∙ same 0 (omega arith) ∙ ap m (omega arith) ∙ h
StringAt-moved m m' p p' (c ∷ cs) h same = (
  ap m' (omega arith) ∙ same 0 (omega arith) ∙ ap m (omega arith) ∙ h.0,
  h.1,
  StringAt-moved m m' (p + 1) (p' + 1) cs h.2
      (λ k lt. ap m' (omega arith) ∙ same (suc k) (omega arith) ∙ ap m (omega arith)),
)

StringAt-append :
    (m m' : Memory) (p : ℕ) (xs ys : List ℕ)
    → StringAt m p xs
    → ((k : ℕ) → k < length xs → m' (p + k) ≡ m (p + k))
    → StringAt m' (p + length xs) ys
    → StringAt m' p (xs ++ ys)
StringAt-append m m' p [] ys h same k = subst (λ a. StringAt m' a ys) (omega arith) k
StringAt-append m m' p (x ∷ xs) ys h same k = (
  ap m' (omega arith) ∙ same 0 (omega arith) ∙ ap m (omega arith) ∙ h.0,
  h.1,
  StringAt-append m m' (p + 1) xs ys h.2
      (λ j lt. ap m' (omega arith) ∙ same (suc j) (omega arith) ∙ ap m (omega arith))
      (subst (λ a. StringAt m' a ys) (omega arith) k),
)

-- strcat of two strings, with the second clear of the place that the joined string takes, and with
-- enough fuel, leaves the joined string at the destination and the second string where it was, and
-- changes no byte but those behind the first string that the second and its zero take.
pub strcat_lem :
    (f : ℕ) (m : Memory) (d s : ℕ) (xs ys : List ℕ)
    → StringAt m d xs
    → StringAt m s ys
    → (d + length xs + length ys < s) ⊎ (s + length ys < d)
    → length xs + length ys < f
    → (m' : Memory) × (strcat f m d s ≡ some m')
      × StringAt m' d (xs ++ ys)
      × StringAt m' s ys
      × ((x : ℕ) → (x < d + length xs) ⊎ (d + length xs + length ys < x) → m' x ≡ m x)
unfolding strcat
strcat_lem f m d s xs ys h k clear e = (
  m',
  ground (
    arith,
    end_of_lem f m d xs h (omega arith),
    strcpy_lem f m (d + length xs) s ys k (omega arith) (omega arith),
  ),
  StringAt-append m m' d xs ys h (λ j lt. outside (d + j) (omega arith))
      (StringAt-moved m m' s (d + length xs) ys k copied),
  StringAt-moved m m' s s ys k (λ j le. outside (s + j) (omega arith)),
  outside,
)
  where
    m' : Memory
    m' = memmove m (d + length xs) s (length ys + 1)

    outside : (x : ℕ) → (x < d + length xs) ⊎ (d + length xs + length ys < x) → m' x ≡ m x
    outside x h = ground (arith, memmove_lem m (d + length xs) s (length ys + 1) x)

    copied : (j : ℕ) → j ≤ length ys → m' (d + length xs + j) ≡ m (s + j)
    copied j le =
        ground (arith, memmove_lem m (d + length xs) s (length ys + 1) (d + length xs + j), at)
      where
        at : m (s + (d + length xs + j - (d + length xs))) ≡ m (s + j)
        at = ap m (omega arith)
