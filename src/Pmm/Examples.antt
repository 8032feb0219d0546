-- ===== src/Pmm/Examples.antt =====
-- The theorems on physical pages at small memories.
use shadow_box_os.Common.{
  ℕ, ◌+◌, ◌*◌, ◌/◌, ◌≤◌, ◌<◌, ◌≡◌, ◌≢◌, refl, Bool, true, false, not, ◌&&◌, ◌||◌, List, [], ◌∷◌,
  arith, ◌==◌, All, ltb, none, some, ◌⊎◌, inl, inr, length,
}
use shadow_box_os.Pmm.{Pmm, alloc_page, bitmap_test, get_info, first_free, taken, bitmap_set}
use shadow_box_os.Pmm.Bitmap.{used}
use shadow_box_os.Pmm.Pages.{IsSound}
use shadow_box_os.Pmm.Exclusive.{Call, allocs, frees, run, run_exclusive}
use shadow_box_os.Pmm.Boot.{Region, Tag, end, memory_map, boot_module, other, init}
use shadow_box_os.Pmm.Boot.Addresses.{is_available, has_module, init_lem}

-- Ten blocks, of which 0, 1, 3 and 9 are used.
abbrev memory : Pmm
memory = record { bitmap = 0x0B ∷ 0x02 ∷ []; max_blocks = 10; used_blocks = 4 }

memory-IsSound : IsSound memory
unfolding shadow_box_os.Common.Bits.test_bit
memory-IsSound = record {
  bytes = (omega arith, (omega arith, tt));
  covered = omega arith;
  small = omega arith;
  counted = refl;
}

second :
    alloc_page memory ≡ (8192, record { bitmap = 0x0F ∷ 2 ∷ []; max_blocks = 10; used_blocks = 5 })
unfolding alloc_page first_free bitmap_test taken bitmap_set
second = refl

counts : get_info memory ≡ (10, 4)
unfolding get_info
counts = refl

busy : used memory.bitmap 9 ≡ true
unfolding shadow_box_os.Common.Bits.test_bit
busy = refl

-- Page 9 stays with its owner.
abbrev calls : List Call
calls = allocs ∷ frees 0x1000 ∷ allocs ∷ allocs ∷ frees 0x3000 ∷ []

run_exclusive_example :
    let (outs, q) = run memory calls in
    IsSound q × (used q.bitmap 9 ≡ true) × All (λ addr. addr ≢ 36864) outs
run_exclusive_example =
    run_exclusive memory 9 calls memory-IsSound (omega arith) busy
      (tt, ((omega arith, λ e. omega arith), (tt, (tt, ((omega arith, λ e. omega arith), tt)))))

-- Sixteen pages, of which all but the third are available, in two regions.
abbrev regions : List Region
regions =
    record { addr = 0; len = 0x2800; kind = 1 }
    ∷ record { addr = 0x2800; len = 0x400; kind = 2 }
    ∷ record { addr = 0x3000; len = 0xD000; kind = 1 }
    ∷ []

abbrev tags : List Tag
tags = other ∷ memory_map regions ∷ boot_module 0x5000 0x5800 ∷ end ∷ []

init_lem_example :
    (p : Pmm) × (init 0x1000 tags ≡ some p)
    × IsSound p
    × (p.max_blocks ≡ 16)
    × ((c : ℕ)
        → c < 16
        → used p.bitmap c
          ≡ not (is_available regions c) || ltb (c * 4096) 4098 || has_module tags c)
init_lem_example =
    init_lem 0x1000 tags [] regions refl (omega arith, (omega arith, (omega arith, tt)))
      ((λ c h. ground arith), ((λ c h. ground arith), ((λ c h. refl), tt))) (omega arith)
      (omega arith, omega arith, tt)
