-- ===== src/Pmm/Boot/Addresses.antt =====
-- pmm_init of arch/x86_64/mm/pmm.c against the addresses of the memory map: which pages it leaves free.
use shadow_box_os.Common.{
  ℕ, ◌+◌, ◌-◌, ◌*◌, ◌/◌, ◌^◌, ◌≤◌, ◌<◌, ◌≡◌, refl, sym, ap, ap₂, subst, ◌∙◌, Bool, true, false, not,
  ◌&&◌, ◌||◌, Option, none, some, List, [], ◌∷◌, ◌++◌, arith, ◌==◌, ltb, leb, max, All,
  if◌then◌else◌,
}
use shadow_box_os.Pmm.{Pmm}
use shadow_box_os.Pmm.Bitmap.{used}
use shadow_box_os.Pmm.Pages.{IsSound}
use shadow_box_os.Pmm.Boot.{
  Region, Tag, end, memory_map, boot_module, other, map_tag, highest, raised, bitmap_size,
  module_end, init,
}
use shadow_box_os.Pmm.Boot.Ranges.{within}
use shadow_box_os.Pmm.Boot.Map.{region_at, free_at, Apart, module_at, ModulesFit}
use shadow_box_os.Pmm.Boot.Init.{init_blocks_lem}

-- The 4096 bytes of page `c` all lie in the region, which is available.
abbrev pub is_whole_in : Region → ℕ → Bool
is_whole_in r c = (r.kind == 1) && (leb r.addr (c * 4096) && leb ((c + 1) * 4096) (r.addr + r.len))

abbrev pub is_available : List Region → ℕ → Bool
is_available [] c = false
is_available (r ∷ rs) c = is_whole_in r c || is_available rs c

-- No page lies whole in two available regions.
abbrev pub AreApart : List Region → Type 0
AreApart [] = Unit
AreApart (r ∷ rs) = ((c : ℕ) → is_whole_in r c ≡ true → is_available rs c ≡ false) × AreApart rs

-- A region ends a page below the top of the address space.
abbrev pub IsBelowTop : Region → Type 0
IsBelowTop r = r.addr + r.len + 4095 < 2 ^ 64

-- The highest end of an available region.
abbrev pub memory_end : List Region → ℕ
memory_end [] = 0
memory_end (r ∷ rs) = if r.kind == 1 then max (r.addr + r.len) (memory_end rs) else memory_end rs

-- The memory maps before the end of the tags.
abbrev pub maps : List Tag → List (List Region)
maps [] = []
maps (end ∷ tags) = []
maps (memory_map rs ∷ tags) = rs ∷ maps tags
maps (boot_module s e ∷ tags) = maps tags
maps (other ∷ tags) = maps tags

-- Page `c` has a byte of a module, from its start up to its end, that a tag before the end names.
abbrev pub has_module : List Tag → ℕ → Bool
has_module [] c = false
has_module (end ∷ tags) c = false
has_module (memory_map rs ∷ tags) c = has_module tags c
has_module (boot_module s e ∷ tags) c =
    (ltb s ((c + 1) * 4096) && ltb (c * 4096) e) || has_module tags c
has_module (other ∷ tags) c = has_module tags c

-- The modules end in the memory of `n` pages, and a page below 2^32.
abbrev pub AreInMemory : ℕ → List Tag → Type 0
AreInMemory n [] = Unit
AreInMemory n (end ∷ tags) = Unit
AreInMemory n (memory_map rs ∷ tags) = AreInMemory n tags
AreInMemory n (boot_module s e ∷ tags) = (e ≤ n * 4096) × (e + 4095 < 2 ^ 32) × AreInMemory n tags
AreInMemory n (other ∷ tags) = AreInMemory n tags

whole_lem : (r : Region) (c : ℕ) → IsBelowTop r → region_at r c ≡ is_whole_in r c
whole_lem r c h = ground arith

available_lem : (rs : List Region) (c : ℕ) → All IsBelowTop rs → free_at rs c ≡ is_available rs c
available_lem [] c h = refl
available_lem (r ∷ rs) c h = ap₂ (◌||◌) (whole_lem r c h.0) (available_lem rs c h.1)

apart_lem : (rs : List Region) → All IsBelowTop rs → AreApart rs → Apart rs
apart_lem [] h a = tt
apart_lem (r ∷ rs) h a =
    (λ c i. available_lem rs c h.1 ∙ a.0 c (sym (whole_lem r c h.0) ∙ i), apart_lem rs h.1 a.1)

highest_lem :
    (rs : List Region) (top : ℕ) → All IsBelowTop rs → highest rs top ≡ max top (memory_end rs)
unfolding highest
highest_lem [] top h = omega arith
highest_lem (r ∷ rs) top h = ground (arith, highest_lem rs (raised r top) h.1, h.0)

module_lem :
    (n : ℕ) (tags : List Tag) (c : ℕ) → AreInMemory n tags → module_at tags c ≡ has_module tags c
module_lem n [] c h = refl
module_lem n (end ∷ tags) c h = refl
module_lem n (memory_map rs ∷ tags) c h = module_lem n tags c h
module_lem n (boot_module s e ∷ tags) c h =
    let here : within (module_end e - s / 4096) (s / 4096) c
        ≡ (ltb s ((c + 1) * 4096) && ltb (c * 4096) e) =
      ground arith in
    ap₂ (◌||◌) here (module_lem n tags c h.2)
module_lem n (other ∷ tags) c h = module_lem n tags c h

fit_lem : (n : ℕ) (tags : List Tag) → AreInMemory n tags → ModulesFit n tags
fit_lem n [] h = tt
fit_lem n (end ∷ tags) h = tt
fit_lem n (memory_map rs ∷ tags) h = fit_lem n tags h
fit_lem n (boot_module s e ∷ tags) h = (omega (arith, h.0, h.1), fit_lem n tags h.2)
fit_lem n (other ∷ tags) h = fit_lem n tags h

abbrev last_or : Option (List Region) → List (List Region) → Option (List Region)
last_or o [] = o
last_or o (rs ∷ maps') = last_or (some rs) maps'

map_tag_lem : (tags : List Tag) (o : Option (List Region)) → map_tag tags o ≡ last_or o (maps tags)
unfolding map_tag
map_tag_lem [] o = refl
map_tag_lem (end ∷ tags) o = refl
map_tag_lem (memory_map rs ∷ tags) o = map_tag_lem tags (some rs)
map_tag_lem (boot_module s e ∷ tags) o = map_tag_lem tags o
map_tag_lem (other ∷ tags) o = map_tag_lem tags o

last_or-append :
    (o : Option (List Region)) (before : List (List Region)) (rs : List Region)
    → last_or o (before ++ rs ∷ []) ≡ some rs
last_or-append o [] rs = refl
last_or-append o (b ∷ before) rs = last_or-append (some b) before rs

memory_end_lt : (rs : List Region) → All IsBelowTop rs → memory_end rs < 2 ^ 64
memory_end_lt [] h = omega arith
memory_end_lt (r ∷ rs) h = ground (arith, memory_end_lt rs h.1, h.0)

bitmap_size_lem : (n : ℕ) → bitmap_size n ≡ (n + 7) / 8
unfolding bitmap_size
bitmap_size_lem n = ground arith

-- For the last memory map before the end of the tags: if no page lies whole in two of its available
-- regions and its regions end a page below 2^64, if the kernel with the bitmap of a bit for each page
-- behind it ends within the memory, and so does every module, a page below 2^32, then pmm_init
-- succeeds, has the pages up to the highest end of an available region, and counts the used ones
-- right. The used pages are those that do not lie whole in an available region, those that start below
-- the end of the kernel and its bitmap, and those that have a byte of a module.
pub init_lem :
    (kernel_end : ℕ) (tags : List Tag) (before : List (List Region)) (rs : List Region)
    → maps tags ≡ before ++ rs ∷ []
    → All IsBelowTop rs
    → AreApart rs
    → let n = memory_end rs / 4096 in
      kernel_end + (n + 7) / 8 ≤ n * 4096
      → AreInMemory n tags
      → (p : Pmm) × (init kernel_end tags ≡ some p)
        × IsSound p
        × (p.max_blocks ≡ n)
        × ((c : ℕ)
            → c < n
            → used p.bitmap c
              ≡ not (is_available rs c)
                || ltb (c * 4096) (kernel_end + (n + 7) / 8)
                || has_module tags c)
init_lem kernel_end tags before rs is_last below apart low fit =
    let n = memory_end rs / 4096 in
    let total : highest rs 0 / 4096 ≡ n = omega (arith, highest_lem rs 0 below) in
    let found : map_tag tags none ≡ some rs =
      map_tag_lem tags none ∙ ap (last_or none) is_last ∙ last_or-append none before rs in
    let size : bitmap_size (highest rs 0 / 4096) ≡ (n + 7) / 8 =
      ap bitmap_size total ∙ bitmap_size_lem n in
    let top : memory_end rs < 2 ^ 64 = memory_end_lt rs below in
    let (p, got, sound, blocks, marks) =
      init_blocks_lem kernel_end tags rs found (apart_lem rs below apart)
        (omega (arith, total, size))
        (subst (λ m. ModulesFit m tags) (sym total) (fit_lem n tags fit)) in
    (
      p,
      got,
      sound,
      blocks ∙ total,
      λ c h.
          marks c (omega (arith, total))
          ∙ ap₂ (◌||◌)
              (ap₂ (λ a b. not a || b) (available_lem rs c below) (ground (arith, size, top, low)))
              (module_lem n tags c fit),
    )
