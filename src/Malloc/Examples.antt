-- ===== src/Malloc/Examples.antt =====
-- The theorems on the kernel heap at small heaps, and runs of the calls.
use shadow_box_os.Common.{ℕ, ◌+◌, ◌<◌, ◌≡◌, refl, arith, ◌⊎◌, inl, true, false, some, List, [], ◌∷◌}
use shadow_box_os.Malloc.{
  Block, Heap, heap_start, init, kmalloc, kfree, alloc_loop, first_fit, split_block, expand_heap,
  mark_free, merge,
}
use shadow_box_os.Malloc.Tiles.{live}
use shadow_box_os.Malloc.Alloc.{IsSound, Allocated, kmalloc_lem}
use shadow_box_os.Malloc.Live.{Apart, In, Call, mallocs, frees, step, run, run_keeps}

abbrev held : Block
held = record { addr = heap_start; size = 64; free = false }

abbrev heap : Heap
heap = record {
  blocks = held ∷ record { addr = heap_start + 88; size = 3984; free = true } ∷ [];
  heap_end = heap_start + 4096;
}

-- More than the page has left.
abbrev large : ℕ
large = 5000

first_block : kmalloc init 61 ≡ some (heap_start + 24, heap)
unfolding kmalloc alloc_loop first_fit split_block init
first_block = refl

freed : kfree heap (heap_start + 24) ≡ init
unfolding kfree mark_free merge init
freed = refl

kmalloc_lem_example :
    ((large ≡ 0) × (kmalloc heap large ≡ some (0, heap)))
    ⊎ ((0 < large)
        × (p : ℕ) × (h' : Heap) × (kmalloc heap large ≡ some (p, h'))
        × Allocated heap h' large p)
kmalloc_lem_example = kmalloc_lem heap large (refl, (refl, refl)) (omega arith) (omega arith)

abbrev calls : List Call
calls = mallocs 100 ∷ frees (heap_start + 112) ∷ mallocs 10 ∷ []

run_keeps_example :
    let h' = run heap calls in IsSound h' × In held (live h'.blocks) × Apart (live h'.blocks)
unfolding step kmalloc alloc_loop first_fit split_block kfree mark_free merge expand_heap
run_keeps_example =
    run_keeps heap held calls (refl, (refl, refl)) (omega arith) (inl refl)
      ((omega arith, omega arith), (tt, ((omega arith, omega arith), tt)))
      (tt, ((λ e. omega arith), (tt, tt)))
