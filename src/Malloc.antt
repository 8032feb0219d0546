-- ===== src/Malloc.antt =====
-- arch/x86_64/mm/malloc.c: the kernel heap, a list of blocks.
pub mod Tiles
pub mod Alloc
pub mod Live
mod Examples
use shadow_box_os.Common.{
  ℕ, zero, suc, ◌+◌, ◌-◌, ◌*◌, ◌/◌, ◌%◌, ◌^◌, Bool, true, false, not, ◌&&◌, Option, none, some,
  List, [], ◌∷◌, ◌++◌, ltb, leb, ◌==◌, if◌then◌else◌,
}

abbrev pub page_size : ℕ
page_size = 4096

abbrev pub heap_start : ℕ
heap_start = 0xFFFF_FFFF_C100_0000

-- `sizeof(struct block_header)`
abbrev pub header : ℕ
header = 24

-- A header: where it stands, and the bytes after it.
pub record Block : Type 0 where
  pub addr : ℕ
  pub size : ℕ
  pub free : Bool

-- The list in its order; every header in it has the magic number.
pub record Heap : Type 0 where
  pub blocks : List Block
  pub heap_end : ℕ

unfoldable pub init : Heap
init = record {
  blocks = record { addr = heap_start; size = page_size - header; free = true } ∷ [];
  heap_end = heap_start + page_size;
}

abbrev pub align : ℕ → ℕ
align x = ((x + 7) % 2 ^ 64) / 8 * 8

-- The block and what split_block puts behind it.
unfoldable pub split_block : Block → ℕ → List Block → List Block
split_block b size rest =
    if ltb (size + header + 8) b.size
    then record b { size = size; free = false }
      ∷ record { addr = b.addr + header + size; size = b.size - size - header; free = true }
      ∷ rest
    else record b { free = false } ∷ rest

abbrev pub fits : Block → ℕ → Bool
fits b size = b.free && leb size b.size

-- The inner loop of kmalloc: the first free block that is large enough is split and taken.
unfoldable pub first_fit : List Block → ℕ → Option (ℕ × List Block)
first_fit [] size = none
first_fit (b ∷ bs) size =
    let rest = first_fit bs size in
    if fits b size
    then some (b.addr + header, split_block b size bs)
    else elim rest [ none ↦ none | some (ptr, bs') ↦ some (ptr, b ∷ bs') ]

abbrev pub pages_for : ℕ → ℕ
pages_for size = (size + header + (page_size - 1)) % 2 ^ 64 / page_size

-- The size of the new block, behind its header.
abbrev pub new_size : ℕ → ℕ
new_size size = (pages_for size * page_size + 2 ^ 64 - header) % 2 ^ 64

-- The pages are there; without them the kernel panics.
unfoldable pub expand_heap : Heap → ℕ → Heap
expand_heap h size = record {
  blocks = h.blocks ++ record { addr = h.heap_end; size = new_size size; free = true } ∷ [];
  heap_end = (h.heap_end + pages_for size * page_size) % 2 ^ 64;
}

-- The outer loop of kmalloc, with fuel.
unfoldable pub alloc_loop : ℕ → Heap → ℕ → Option (ℕ × Heap)
alloc_loop zero h size = none
alloc_loop (suc fuel) h size =
    let again = alloc_loop fuel (expand_heap h size) size in
    elim (first_fit h.blocks size) [
      | none ↦ again
      | some (ptr, bs) ↦ some (ptr, record h { blocks = bs })
    ]

-- The pointer is 0 for no bytes. Two turns of the loop are enough.
unfoldable pub kmalloc : Heap → ℕ → Option (ℕ × Heap)
kmalloc h size = if size == 0 then some (0, h) else alloc_loop 2 h (align size)

unfoldable pub mark_free : List Block → ℕ → List Block
mark_free [] at = []
mark_free (b ∷ bs) at = if b.addr == at then record b { free = true } ∷ bs else b ∷ mark_free bs at

-- `b` and its free neighbour as one block.
abbrev pub joined : Block → Block → Block
joined b c = record b { size = b.size + (header + c.size) }

abbrev pub joins : Block → Block → Bool
joins b c = b.free && (c.free && (b.addr + header + b.size == c.addr))

-- The loop of kfree: a block takes in one free neighbour, and the loop goes on behind both.
unfoldable pub merge : List Block → List Block
merge [] = []
merge (b ∷ []) = b ∷ []
merge (b ∷ c ∷ bs) =
    let both = merge bs in
    let one = merge (c ∷ bs) in if joins b c then joined b c ∷ both else b ∷ one

-- `ptr` came from kmalloc, or is null.
unfoldable pub kfree : Heap → ℕ → Heap
kfree h ptr =
    if ptr == 0 then h else record h { blocks = merge (mark_free h.blocks (ptr - header)) }
