-- ===== src/Pmm/Boot.antt =====
-- pmm_init of arch/x86_64/mm/pmm.c: the bitmap from the boot loader's memory map.
pub mod Ranges
pub mod Map
pub mod Init
pub mod Addresses
use shadow_box_os.Common.{
  ℕ, zero, suc, ◌+◌, ◌-◌, ◌*◌, ◌/◌, ◌%◌, ◌^◌, Bool, true, false, Option, none, some, List, [], ◌∷◌,
  ltb, ◌==◌, if◌then◌else◌, replicate,
}
use shadow_box_os.Pmm.{Pmm, page_size, bitmap_test, taken, released}

-- `struct multiboot_mmap_entry`
pub record Region : Type 0 where
  pub addr : ℕ
  pub len : ℕ
  pub kind : ℕ

abbrev pub available : ℕ
available = 1

-- The tags that the code tells apart.
pub data Tag : Type 0 where
  end : Tag
  memory_map : List Region → Tag
  boot_module : ℕ → ℕ → Tag
  other : Tag

-- The last memory map before the end.
unfoldable pub map_tag : List Tag → Option (List Region) → Option (List Region)
map_tag [] found = found
map_tag (end ∷ tags) found = found
map_tag (memory_map rs ∷ tags) found = map_tag tags (some rs)
map_tag (boot_module s e ∷ tags) found = map_tag tags found
map_tag (other ∷ tags) found = map_tag tags found

abbrev pub region_end : Region → ℕ
region_end r = (r.addr + r.len) % 2 ^ 64

abbrev pub raised : Region → ℕ → ℕ
raised r top =
    if r.kind == available then (if ltb top (region_end r) then region_end r else top) else top

unfoldable pub highest : List Region → ℕ → ℕ
highest [] top = top
highest (r ∷ rs) top = highest rs (raised r top)

unfoldable pub bitmap_size : ℕ → ℕ
bitmap_size max_blocks =
    let size = max_blocks / 8 in if ltb (size * 8) max_blocks then size + 1 else size

-- Every block is used.
abbrev pub all_used : ℕ → Pmm
all_used n = record { bitmap = replicate (bitmap_size n) 0xFF; max_blocks = n; used_blocks = n }

-- `n` blocks from `b` are marked free, each counted.
unfoldable pub free_range : Pmm → ℕ → ℕ → Pmm
free_range p zero b = p
free_range p (suc n) b = free_range (released p b) n (b + 1)

-- `n` blocks from `b` are reserved.
unfoldable pub reserve_range : Pmm → ℕ → ℕ → Pmm
reserve_range p zero b = p
reserve_range p (suc n) b =
    reserve_range (if bitmap_test p.bitmap b == 0 then taken p b else p) n (b + 1)

abbrev pub start_block : Region → ℕ
start_block r = (r.addr + (page_size - 1)) % 2 ^ 64 / page_size

abbrev pub end_block : Region → ℕ
end_block r = region_end r / page_size

abbrev pub free_region : Pmm → Region → Pmm
free_region p r =
    if r.kind == available then free_range p (end_block r - start_block r) (start_block r) else p

unfoldable pub free_regions : Pmm → List Region → Pmm
free_regions p [] = p
free_regions p (r ∷ rs) = free_regions (free_region p r) rs

abbrev pub reserved_blocks : ℕ → ℕ → ℕ
reserved_blocks kernel_end size = (kernel_end + size + (page_size - 1)) % 2 ^ 64 / page_size

abbrev pub module_end : ℕ → ℕ
module_end e = (e + (page_size - 1)) % 2 ^ 32 / page_size

unfoldable pub reserve_modules : Pmm → List Tag → Pmm
reserve_modules p [] = p
reserve_modules p (end ∷ tags) = p
reserve_modules p (boot_module s e ∷ tags) =
    reserve_modules (reserve_range p (module_end e - s / page_size) (s / page_size)) tags
reserve_modules p (memory_map rs ∷ tags) = reserve_modules p tags
reserve_modules p (other ∷ tags) = reserve_modules p tags

-- `kernel_end` is the linker's symbol. Without a memory map the kernel panics.
unfoldable pub init : ℕ → List Tag → Option Pmm
init kernel_end tags = elim (map_tag tags none) [
  | none ↦ none
  | some rs ↦
      let n = highest rs 0 / page_size in
      let freed = free_regions (all_used n) rs in
      some
        (reserve_modules (reserve_range freed (reserved_blocks kernel_end (bitmap_size n)) 0) tags)
]
