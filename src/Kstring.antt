-- ===== src/Kstring.antt =====
-- lib/kstring.c: the routines on strings and on blocks of memory. Memory is a function from
-- addresses to bytes, and no block reaches the top of the address space, so addresses do not wrap.
pub mod Blocks
pub mod Texts
pub mod Bounded
mod Examples
use shadow_box_os.Common.Int.{ℤ, pos, sub_ℕ}
use shadow_box_os.Common.{
  ℕ, zero, suc, ◌+◌, ◌%◌, ◌^◌, Bool, true, false, not, ◌&&◌, Option, none, some, ltb, ◌==◌,
  if◌then◌else◌,
}

abbrev pub Memory : Type 0
Memory = ℕ → ℕ

abbrev pub put : Memory → ℕ → ℕ → Memory
put m a v x = if x == a then v else m x

-- The loops that may run on take fuel; `none` means that it ran out.
unfoldable pub strcmp : ℕ → Memory → ℕ → ℕ → Option ℤ
strcmp zero m a b = none
strcmp (suc f) m a b =
    let rest = strcmp f m (a + 1) (b + 1) in
    if not (m a == 0) && (m a == m b) then rest else some (sub_ℕ (m a) (m b))

-- `left` rounds of the loop are left, the next one at index `i`.
unfoldable pub strncmp_from : ℕ → Memory → ℕ → ℕ → ℕ → ℤ
strncmp_from zero m a b i = pos 0
strncmp_from (suc left) m a b i =
    let rest = strncmp_from left m a b (i + 1) in
    if not (m (a + i) == m (b + i))
    then sub_ℕ (m (a + i)) (m (b + i))
    else if m (a + i) == 0
    then pos 0
    else rest

abbrev pub strncmp : Memory → ℕ → ℕ → ℕ → ℤ
strncmp m a b n = strncmp_from n m a b 0

unfoldable pub strlen_from : ℕ → Memory → ℕ → ℕ → Option ℕ
strlen_from zero m s len = none
strlen_from (suc f) m s len =
    let rest = strlen_from f m s (len + 1) in if m (s + len) == 0 then some len else rest

abbrev pub strlen : ℕ → Memory → ℕ → Option ℕ
strlen f m s = strlen_from f m s 0

unfoldable pub strcpy : ℕ → Memory → ℕ → ℕ → Option Memory
strcpy zero m dest src = none
strcpy (suc f) m dest src =
    let m' = put m dest (m src) in
    let rest = strcpy f m' (dest + 1) (src + 1) in if m src == 0 then some m' else rest

unfoldable pub memset_from : ℕ → Memory → ℕ → ℕ → ℕ → Memory
memset_from zero m d v i = m
memset_from (suc left) m d v i = memset_from left (put m (d + i) v) d v (i + 1)

abbrev pub memset : Memory → ℕ → ℕ → ℕ → Memory
memset m dest v len = memset_from len m dest (v % 2 ^ 8) 0

unfoldable pub strncpy_from : ℕ → Memory → ℕ → ℕ → ℕ → Memory
strncpy_from zero m dest src i = m
strncpy_from (suc left) m dest src i =
    let rest = strncpy_from left (put m (dest + i) (m (src + i))) dest src (i + 1) in
    if m (src + i) == 0 then memset_from (suc left) m dest 0 i else rest

abbrev pub strncpy : Memory → ℕ → ℕ → ℕ → Memory
strncpy m dest src n = strncpy_from n m dest src 0

unfoldable pub end_of : ℕ → Memory → ℕ → Option ℕ
end_of zero m dest = none
end_of (suc f) m dest = let rest = end_of f m (dest + 1) in if m dest == 0 then some dest else rest

unfoldable pub strcat : ℕ → Memory → ℕ → ℕ → Option Memory
strcat f m dest src = elim (end_of f m dest) [ none ↦ none | some e ↦ strcpy f m e src ]

unfoldable pub copy_up : ℕ → Memory → ℕ → ℕ → ℕ → Memory
copy_up zero m d s i = m
copy_up (suc left) m d s i = copy_up left (put m (d + i) (m (s + i))) d s (i + 1)

unfoldable pub copy_down : ℕ → Memory → ℕ → ℕ → Memory
copy_down zero m d s = m
copy_down (suc left) m d s = copy_down left (put m (d + left) (m (s + left))) d s

abbrev pub memcpy : Memory → ℕ → ℕ → ℕ → Memory
memcpy m dest src len = copy_up len m dest src 0

unfoldable pub memmove : Memory → ℕ → ℕ → ℕ → Memory
memmove m dest src len = if ltb dest src then copy_up len m dest src 0 else copy_down len m dest src

unfoldable pub memcmp_from : ℕ → Memory → ℕ → ℕ → ℕ → ℤ
memcmp_from zero m a b i = pos 0
memcmp_from (suc left) m a b i =
    let rest = memcmp_from left m a b (i + 1) in
    if not (m (a + i) == m (b + i)) then sub_ℕ (m (a + i)) (m (b + i)) else rest

abbrev pub memcmp : Memory → ℕ → ℕ → ℕ → ℤ
memcmp m a b len = memcmp_from len m a b 0
