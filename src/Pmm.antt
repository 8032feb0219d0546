-- ===== src/Pmm.antt =====
-- arch/x86_64/mm/pmm.c: physical pages, one bit of a bitmap for each.
pub mod Bitmap
pub mod Pages
pub mod Exclusive
pub mod Boot
mod Examples
use shadow_box_os.Common.{
  ℕ, zero, suc, ◌+◌, ◌-◌, ◌*◌, ◌/◌, ◌%◌, ◌^◌, Bool, true, false, Option, none, some, List, bit_and,
  bit_or, get_or, set, ◌==◌, if◌then◌else◌,
}
use shadow_box_os.Common.Bits.{complement}

abbrev pub page_size : ℕ
page_size = 4096

-- The bitmap's bytes; the counts are `uint64_t`.
pub record Pmm : Type 0 where
  pub bitmap : List ℕ
  pub max_blocks : ℕ
  pub used_blocks : ℕ

unfoldable pub bitmap_set : List ℕ → ℕ → List ℕ
bitmap_set bm bit = set bm (bit / 8) (bit_or (get_or bm (bit / 8) 0) (2 ^ (bit % 8)))

-- `~` is on `int`, and the result is stored as a byte again.
unfoldable pub bitmap_clear : List ℕ → ℕ → List ℕ
bitmap_clear bm bit =
    set bm (bit / 8) (bit_and (get_or bm (bit / 8) 0) (complement 32 (2 ^ (bit % 8))))

unfoldable pub bitmap_test : List ℕ → ℕ → ℕ
bitmap_test bm bit = bit_and (get_or bm (bit / 8) 0) (2 ^ (bit % 8))

-- The loop of pmm_alloc_page from block `i`, with that many blocks left.
unfoldable pub first_free : List ℕ → ℕ → ℕ → Option ℕ
first_free bm zero i = none
first_free bm (suc left) i = elim (bitmap_test bm i == 0) [
  | true ↦ some i
  | false ↦ first_free bm left (i + 1)
]

unfoldable pub taken : Pmm → ℕ → Pmm
taken p i = record p { bitmap = bitmap_set p.bitmap i; used_blocks = (p.used_blocks + 1) % 2 ^ 64 }

unfoldable pub released : Pmm → ℕ → Pmm
released p i = record p {
  bitmap = bitmap_clear p.bitmap i;
  used_blocks = (p.used_blocks + 2 ^ 64 - 1) % 2 ^ 64;
}

-- The address is 0 when no page is left.
unfoldable pub alloc_page : Pmm → ℕ × Pmm
alloc_page p = elim (first_free p.bitmap p.max_blocks 0) [
  | none ↦ (0, p)
  | some i ↦ ((i * page_size) % 2 ^ 64, taken p i)
]

unfoldable pub free_page : Pmm → ℕ → Pmm
free_page p addr =
    let block = addr / page_size in if bitmap_test p.bitmap block == 0 then p else released p block

-- The total and the used pages.
unfoldable pub get_info : Pmm → ℕ × ℕ
get_info p = (p.max_blocks, p.used_blocks)
