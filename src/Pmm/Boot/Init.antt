-- ===== src/Pmm/Boot/Init.antt =====
-- pmm_init of arch/x86_64/mm/pmm.c as a whole: which blocks it leaves free.
use shadow_box_os.Common.{
  ℕ, ◌-◌, ◌/◌, ◌≤◌, ◌<◌, ◌≡◌, refl, sym, ap, ◌∙◌, Bool, true, false, not, ◌&&◌, ◌||◌, List, [], ◌∷◌,
  arith, ◌==◌, Bool-cases, inl, inr, none, some, All,
}
use shadow_box_os.Pmm.{Pmm, page_size}
use shadow_box_os.Pmm.Bitmap.{used}
use shadow_box_os.Pmm.Pages.{IsSound}
use shadow_box_os.Pmm.Boot.{
  Region, available, Tag, end, memory_map, boot_module, other, map_tag, highest, bitmap_size,
  all_used, free_region, reserve_range, start_block, end_block, free_regions, reserved_blocks,
  module_end, reserve_modules, init,
}
use shadow_box_os.Pmm.Boot.Ranges.{within, free_range_lem, reserve_range_lem}
use shadow_box_os.Pmm.Boot.Map.{
  used-all_used, all_used-IsSound, free_at-lt, highest_above, blocks-le, highest-le, region_at,
  free_at, Apart, module_at, ModulesFit,
}

and_true : (u : Bool) → u && true ≡ u
and_true u = ground arith

still :
    (c : ℕ) (u w f : Bool)
    → f ≡ true
    → ((w || f) ≡ true → u ≡ true)
    → (w ≡ true → f ≡ false)
    → (u && not w) ≡ true
still c u w f on busy apart = ground arith

both : (u w f : Bool) → ((u && not w) && not f) ≡ (u && not (w || f))
both u w f = ground arith

or_assoc : (a b c : Bool) → ((a || b) || c) ≡ (a || (b || c))
or_assoc a b c = ground arith

free_region_lem :
    (p : Pmm) (r : Region)
    → IsSound p
    → ((r.kind == available) ≡ true → end_block r ≤ p.max_blocks)
    → ((c : ℕ) → region_at r c ≡ true → used p.bitmap c ≡ true)
    → let q = free_region p r in
      IsSound q
      × (q.max_blocks ≡ p.max_blocks)
      × ((c : ℕ) → used q.bitmap c ≡ used p.bitmap c && not (region_at r c))
free_region_lem p r s fits busy = elim (Bool-cases (r.kind == available)) [
  | inl e ↦
      let n = end_block r - start_block r in
      let at : (c : ℕ) → region_at r c ≡ within n (start_block r) c =
        λ c. ap (λ t. t && within n (start_block r) c) e in
      let (sound, total, marks) =
        free_range_lem p n (start_block r) s (λ more. omega (arith, fits e))
          (λ c i. busy c (at c ∙ i)) in
      rw e (sound, total, marks)
  | inr e ↦ rw e (s, refl, λ c. sym (and_true (used p.bitmap c)))
]

-- Available regions of used blocks that lie in the memory and do not overlap are marked free.
free_regions_lem :
    (p : Pmm) (rs : List Region)
    → IsSound p
    → All (λ r. (r.kind == available) ≡ true → end_block r ≤ p.max_blocks) rs
    → Apart rs
    → ((c : ℕ) → free_at rs c ≡ true → used p.bitmap c ≡ true)
    → let q = free_regions p rs in
      IsSound q
      × (q.max_blocks ≡ p.max_blocks)
      × ((c : ℕ) → used q.bitmap c ≡ used p.bitmap c && not (free_at rs c))
unfolding free_regions
free_regions_lem p [] s fits apart busy = (s, refl, λ c. sym (and_true (used p.bitmap c)))
free_regions_lem p (r ∷ rs) s fits apart busy =
    let (sound, total, marks) =
      free_region_lem p r s fits.0 (λ c i. busy c (ap (λ t. t || free_at rs c) i)) in
    let q = free_region p r in
    let fits' : All (λ r'. (r'.kind == available) ≡ true → end_block r' ≤ q.max_blocks) rs =
      rw total fits.1 in
    let busy' : (c : ℕ) → free_at rs c ≡ true → used q.bitmap c ≡ true = λ c f.
      marks c ∙ still c (used p.bitmap c) (region_at r c) (free_at rs c) f (busy c) (apart.0 c) in
    let (sound', total', marks') = free_regions_lem q rs sound fits' apart.1 busy' in
    (
      sound',
      total' ∙ total,
      λ c.
          marks' c
          ∙ ap (λ t. t && not (free_at rs c)) (marks c)
          ∙ both (used p.bitmap c) (region_at r c) (free_at rs c),
    )

-- The modules before the end are marked used.
reserve_modules_lem :
    (p : Pmm) (tags : List Tag)
    → IsSound p
    → ModulesFit p.max_blocks tags
    → let q = reserve_modules p tags in
      IsSound q
      × (q.max_blocks ≡ p.max_blocks)
      × ((c : ℕ) → used q.bitmap c ≡ used p.bitmap c || module_at tags c)
unfolding reserve_modules
reserve_modules_lem p [] s fit = (s, refl, λ c. ground arith)
reserve_modules_lem p (end ∷ tags) s fit = (s, refl, λ c. ground arith)
reserve_modules_lem p (memory_map rs ∷ tags) s fit = reserve_modules_lem p tags s fit
reserve_modules_lem p (other ∷ tags) s fit = reserve_modules_lem p tags s fit
reserve_modules_lem p (boot_module b e ∷ tags) s fit =
    let first = b / page_size in
    let n = module_end e - first in
    let (sound, total, marks) = reserve_range_lem p n first s (λ more. omega (arith, fit.0)) in
    let fit' : ModulesFit (reserve_range p n first).max_blocks tags = rw total fit.1 in
    let (sound', total', marks') = reserve_modules_lem (reserve_range p n first) tags sound fit' in
    (
      sound',
      total' ∙ total,
      λ c.
          marks' c
          ∙ rw (marks c) (or_assoc (used p.bitmap c) (within n first c) (module_at tags c)),
    )

-- pmm_init, by the numbers of blocks that it computes.
pub init_blocks_lem :
    (kernel_end : ℕ) (tags : List Tag) (rs : List Region)
    → map_tag tags none ≡ some rs
    → Apart rs
    → let n = highest rs 0 / 4096 in
      let reserved = reserved_blocks kernel_end (bitmap_size n) in
      reserved ≤ n
      → ModulesFit n tags
      → (p : Pmm) × (init kernel_end tags ≡ some p)
        × IsSound p
        × (p.max_blocks ≡ n)
        × ((c : ℕ)
            → c < n
            → used p.bitmap c ≡ not (free_at rs c) || within reserved 0 c || module_at tags c)
unfolding init
init_blocks_lem kernel_end tags rs found apart low fit =
    let (zero_le, small) = highest-le rs 0 (omega arith) in
    let n = highest rs 0 / 4096 in
    let fits = blocks-le rs (highest rs 0) (highest_above rs 0 (omega arith)) in
    let busy = λ (c : ℕ) (f : free_at rs c ≡ true). used-all_used n c (free_at-lt rs n c fits f) in
    let (sound, total, marks) =
      free_regions_lem (all_used n) rs (all_used-IsSound n (omega arith)) fits apart busy in
    let freed = free_regions (all_used n) rs in
    let low_blocks = reserved_blocks kernel_end (bitmap_size n) in
    let (sound', total', marks') =
      reserve_range_lem freed low_blocks 0 sound (λ more. omega (arith, total, low)) in
    let kept = reserve_range freed low_blocks 0 in
    let fit' : ModulesFit kept.max_blocks tags = rw (total', total) fit in
    let (sound'', total'', marks'') = reserve_modules_lem kept tags sound' fit' in
    (
      reserve_modules kept tags,
      rw (found, init) refl,
      sound'',
      total'' ∙ total' ∙ total,
      λ c h. marks'' c ∙ rw (marks' c, marks c, used-all_used n c h) refl,
    )
