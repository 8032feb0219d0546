-- ===== src/Kstring/Examples.antt =====
-- lib/kstring.c at concrete inputs.
use shadow_box_os.Common.{ℕ, ◌≡◌, refl, inl, some, List, [], ◌∷◌, arith, get_or}
use shadow_box_os.Common.Int.{ℤ}
use shadow_box_os.Kstring.{Memory, strcmp, memmove, memcpy, copy_up, copy_down}
use shadow_box_os.Kstring.Blocks.{memcpy-eq-memmove}
use shadow_box_os.Kstring.Texts.{Compares, strcmp_lem}

-- "ab" at 0 with room behind it, "cd" at 8, "abd" at 12.
abbrev memory : Memory
memory x = get_or (97 ∷ 98 ∷ 0 ∷ 0 ∷ 0 ∷ 0 ∷ 0 ∷ 0 ∷ 99 ∷ 100 ∷ 0 ∷ 0 ∷ 97 ∷ 98 ∷ 100 ∷ 0 ∷ []) x 0

abbrev ab : List ℕ
ab = 97 ∷ 98 ∷ []

abbrev cd : List ℕ
cd = 99 ∷ 100 ∷ []

abbrev abd : List ℕ
abd = 97 ∷ 98 ∷ 100 ∷ []

memmove_overlap : memmove memory 9 8 3 10 ≡ 100
unfolding memmove copy_down copy_up
memmove_overlap = refl

memcpy-eq-memmove_example : memcpy memory 7 8 3 ≡ memmove memory 7 8 3
memcpy-eq-memmove_example = memcpy-eq-memmove memory 7 8 3 (inl (omega arith))

strcmp_lem_example : (z : ℤ) × (strcmp 4 memory 0 12 ≡ some z) × Compares z ab abd
strcmp_lem_example = strcmp_lem 4 memory 0 12 ab abd (omega arith) (omega arith) (omega arith)
