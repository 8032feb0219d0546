-- ===== src/Pmm/Pages.antt =====
-- pmm_alloc_page and pmm_free_page of arch/x86_64/mm/pmm.c: which pages they hand out and take.
use shadow_box_os.Common.{
  ℕ, zero, suc, ◌+◌, ◌-◌, ◌*◌, ◌/◌, ◌%◌, ◌^◌, ◌≤◌, ◌<◌, ◌≡◌, ◌≢◌, refl, sym, ap, ◌∙◌, true, false,
  not, ◌&&◌, ◌||◌, List, arith, length, ◌==◌, Bool-cases, ℕ_discrete, none, some, ◌⊎◌, inl, inr,
}
use shadow_box_os.Common.Count.{count, count-le, count_turn-on}
use shadow_box_os.Pmm.{
  Pmm, page_size, bitmap_set, bitmap_clear, bitmap_test, first_free, alloc_page, free_page, taken,
  released,
}
use shadow_box_os.Pmm.Bitmap.{
  AreBytes, used, bitmap_test-used, bitmap_set-AreBytes, bitmap_clear-AreBytes, length-bitmap_set,
  length-bitmap_clear, used-bitmap_set, used-bitmap_clear,
}

pub ==_ne : (a b : ℕ) → a ≢ b → (a == b) ≡ false
==_ne a b ne = ground arith

-- The bitmap holds bytes and has a bit for each block, addresses fit in 64 bits, and the count of
-- used blocks is right.
pub record IsSound (p : Pmm) : Type 0 where
  pub bytes : AreBytes p.bitmap
  pub covered : p.max_blocks ≤ 8 * length p.bitmap
  pub small : p.max_blocks ≤ 2 ^ 52
  pub counted : p.used_blocks ≡ count (used p.bitmap) p.max_blocks

-- The loop finds the lowest free block from `i`, or none of them is free.
pub first_free_lem :
    (bm : List ℕ) (left i : ℕ)
    → ((first_free bm left i ≡ none) × ((b : ℕ) → i ≤ b → b < i + left → used bm b ≡ true))
      ⊎ ((k : ℕ) × (first_free bm left i ≡ some k)
          × (i ≤ k)
          × (k < i + left)
          × (used bm k ≡ false)
          × ((b : ℕ) → i ≤ b → b < k → used bm b ≡ true))
unfolding first_free
first_free_lem bm zero i = inl (refl, λ b p q. absurd (omega arith))
first_free_lem bm (suc left) i = elim (Bool-cases (bitmap_test bm i == 0)) [
  | inl e ↦
      let free : used bm i ≡ false = ground (arith, bitmap_test-used bm i) in
      inr
        (i, rw (e, first_free) refl, omega arith, omega arith, free, λ b p q. absurd (omega arith))
  | inr e ↦
      let here : used bm i ≡ true = ground (arith, bitmap_test-used bm i) in
      elim (first_free_lem bm left (i + 1)) [
        | inl (found, all) ↦ inl (
          rw (e, found, first_free) refl,
          λ b p q. elim (ℕ_discrete i b) [
            | yes same ↦ ap (used bm) (sym same) ∙ here
            | no ne ↦ all b (omega arith) (omega arith)
          ],
        )
        | inr (k, found, low, high, free, before) ↦ inr (
          k,
          rw (e, found, first_free) refl,
          omega arith,
          omega arith,
          free,
          λ b p q. elim (ℕ_discrete i b) [
            | yes same ↦ ap (used bm) (sym same) ∙ here
            | no ne ↦ before b (omega arith) (omega arith)
          ],
        )
      ]
]

-- A free block that is taken is used, and one more is counted.
pub taken_lem :
    (p : Pmm) (k : ℕ)
    → IsSound p
    → k < p.max_blocks
    → used p.bitmap k ≡ false
    → ((b : ℕ) → used (taken p k).bitmap b ≡ (k == b) || used p.bitmap b)
      × ((taken p k).used_blocks ≡ p.used_blocks + 1)
      × IsSound (taken p k)
unfolding taken
taken_lem p k s h free =
    let marks : (b : ℕ) → used (bitmap_set p.bitmap k) b ≡ (k == b) || used p.bitmap b =
      λ b. used-bitmap_set p.bitmap k b (omega (arith, s.covered)) in
    let on : used (bitmap_set p.bitmap k) k ≡ true = rw (marks k) (ground arith) in
    let more =
      count_turn-on (used p.bitmap) (used (bitmap_set p.bitmap k)) p.max_blocks k h free on
        (λ b ne. sym (marks b ∙ ap (λ t. t || used p.bitmap b) (==_ne k b ne))) in
    let bound = count-le (used (bitmap_set p.bitmap k)) p.max_blocks in
    let one_more : (p.used_blocks + 1) % 2 ^ 64 ≡ p.used_blocks + 1 =
      omega (arith, s.counted, s.small, more, bound) in
    (
      marks,
      one_more,
      record {
        bytes = bitmap_set-AreBytes p.bitmap k s.bytes;
        covered = omega (arith, s.covered, length-bitmap_set p.bitmap k);
        small = s.small;
        counted = one_more ∙ omega (arith, s.counted, more);
      },
    )

-- A used block that is released is free, and one less is counted.
pub released_lem :
    (p : Pmm) (k : ℕ)
    → IsSound p
    → k < p.max_blocks
    → used p.bitmap k ≡ true
    → ((b : ℕ) → used (released p k).bitmap b ≡ not (k == b) && used p.bitmap b)
      × ((released p k).used_blocks + 1 ≡ p.used_blocks)
      × IsSound (released p k)
unfolding released
released_lem p k s h busy =
    let marks : (b : ℕ) → used (bitmap_clear p.bitmap k) b ≡ not (k == b) && used p.bitmap b =
      λ b. used-bitmap_clear p.bitmap k b (omega (arith, s.covered)) in
    let off : used (bitmap_clear p.bitmap k) k ≡ false = rw (marks k) (ground arith) in
    let less =
      count_turn-on (used (bitmap_clear p.bitmap k)) (used p.bitmap) p.max_blocks k h off busy
        (λ b ne. marks b ∙ ap (λ t. not t && used p.bitmap b) (==_ne k b ne)) in
    let bound = count-le (used p.bitmap) p.max_blocks in
    let one_less : (p.used_blocks + 2 ^ 64 - 1) % 2 ^ 64 + 1 ≡ p.used_blocks =
      omega (arith, s.counted, s.small, less, bound) in
    (
      marks,
      one_less,
      record {
        bytes = bitmap_clear-AreBytes p.bitmap k s.bytes;
        covered = omega (arith, s.covered, length-bitmap_clear p.bitmap k);
        small = s.small;
        counted = omega (arith, one_less, s.counted, less);
      },
    )

-- pmm_alloc_page hands out the lowest free page, which it marks used and counts, and leaves the
-- others; it returns 0 and changes nothing only if every page is used.
pub alloc_page_lem :
    (p : Pmm)
    → IsSound p
    → ((alloc_page p ≡ (0, p)) × ((b : ℕ) → b < p.max_blocks → used p.bitmap b ≡ true))
      ⊎ ((k : ℕ) × (q : Pmm) × (alloc_page p ≡ (k * 4096, q))
          × (k < p.max_blocks)
          × (used p.bitmap k ≡ false)
          × ((b : ℕ) → b < k → used p.bitmap b ≡ true)
          × ((b : ℕ) → used q.bitmap b ≡ (k == b) || used p.bitmap b)
          × (q.max_blocks ≡ p.max_blocks)
          × (q.used_blocks ≡ p.used_blocks + 1)
          × IsSound q)
unfolding alloc_page taken
alloc_page_lem p s = elim (first_free_lem p.bitmap p.max_blocks 0) [
  | inl (found, all) ↦ inl (rw (found, alloc_page) refl, λ b h. all b (omega arith) (omega arith))
  | inr (k, found, low, high, free, before) ↦
      let (marks, counted, sound) = taken_lem p k s (omega arith) free in
      let address : (k * page_size) % 2 ^ 64 ≡ k * 4096 = omega (arith, s.small) in
      inr (
        k,
        taken p k,
        rw (found, address, alloc_page) refl,
        omega arith,
        free,
        λ b h. before b (omega arith) h,
        marks,
        refl,
        counted,
        sound,
      )
]

free_stays :
    (bm : List ℕ) (k : ℕ) → used bm k ≡ false → (b : ℕ) → used bm b ≡ not (k == b) && used bm b
free_stays bm k e b = elim (ℕ_discrete k b) [
  | yes same ↦ let here : used bm b ≡ false = ap (used bm) (sym same) ∙ e in rw here (ground arith)
  | no ne ↦ let apart : (k == b) ≡ false = ground arith in rw apart refl
]

-- pmm_free_page of an address in a used page frees that page and no other and counts it; in a
-- page that is free already it changes nothing.
pub free_page_lem :
    (p : Pmm) (addr : ℕ)
    → IsSound p
    → addr / 4096 < p.max_blocks
    → let q = free_page p addr in
      IsSound q
      × (q.max_blocks ≡ p.max_blocks)
      × ((b : ℕ) → used q.bitmap b ≡ not (addr / 4096 == b) && used p.bitmap b)
      × (((used p.bitmap (addr / 4096) ≡ true) × (q.used_blocks + 1 ≡ p.used_blocks))
          ⊎ ((used p.bitmap (addr / 4096) ≡ false) × (q ≡ p)))
unfolding free_page released
free_page_lem p addr s h = elim (Bool-cases (used p.bitmap (addr / 4096))) [
  | inl e ↦
      let test : (bitmap_test p.bitmap (addr / 4096) == 0) ≡ false =
        bitmap_test-used p.bitmap (addr / 4096) ∙ ap not e in
      let (marks, counted, sound) = released_lem p (addr / 4096) s h e in
      rw (test, free_page) (sound, refl, marks, inl (e, counted))
  | inr e ↦
      let test : (bitmap_test p.bitmap (addr / 4096) == 0) ≡ true =
        bitmap_test-used p.bitmap (addr / 4096) ∙ ap not e in
      rw (test, free_page) (s, refl, free_stays p.bitmap (addr / 4096) e, inr (e, refl))
]
