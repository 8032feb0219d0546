-- ===== src/Pmm/Boot/Map.antt =====
-- The memory map that pmm_init of arch/x86_64/mm/pmm.c reads.
use shadow_box_os.Common.{
  ℕ, zero, suc, ◌-◌, ◌*◌, ◌/◌, ◌%◌, ◌^◌, ◌≤◌, ◌<◌, ◌≡◌, refl, sym, ap, ◌∙◌, Bool, true, false, ◌&&◌,
  ◌||◌, List, [], ◌∷◌, arith, ◌==◌, Bool-cases, inl, inr, All, All-replicate, replicate,
  length-replicate, get_or,
}
use shadow_box_os.Common.Bits.{test_bit}
use shadow_box_os.Common.Count.{count, count_ext}
use shadow_box_os.Pmm.{page_size}
use shadow_box_os.Pmm.Bitmap.{used}
use shadow_box_os.Pmm.Pages.{IsSound}
use shadow_box_os.Pmm.Boot.{
  Region, available, Tag, end, memory_map, boot_module, other, region_end, raised, highest,
  bitmap_size, all_used, start_block, end_block, module_end,
}
use shadow_box_os.Pmm.Boot.Ranges.{within}

-- Block `c` lies whole in the region, which is available.
abbrev pub region_at : Region → ℕ → Bool
region_at r c = (r.kind == available) && within (end_block r - start_block r) (start_block r) c

abbrev pub free_at : List Region → ℕ → Bool
free_at [] c = false
free_at (r ∷ rs) c = region_at r c || free_at rs c

-- No block is in two available regions.
abbrev pub Apart : List Region → Type 0
Apart [] = Unit
Apart (r ∷ rs) = ((c : ℕ) → region_at r c ≡ true → free_at rs c ≡ false) × Apart rs

-- Block `c` holds a part of a module that a tag before the end names.
abbrev pub module_at : List Tag → ℕ → Bool
module_at [] c = false
module_at (end ∷ tags) c = false
module_at (memory_map rs ∷ tags) c = module_at tags c
module_at (boot_module s e ∷ tags) c =
    within (module_end e - s / page_size) (s / page_size) c || module_at tags c
module_at (other ∷ tags) c = module_at tags c

-- The modules lie in the memory of `n` blocks.
abbrev pub ModulesFit : ℕ → List Tag → Type 0
ModulesFit n [] = Unit
ModulesFit n (end ∷ tags) = Unit
ModulesFit n (memory_map rs ∷ tags) = ModulesFit n tags
ModulesFit n (boot_module s e ∷ tags) = (module_end e ≤ n) × ModulesFit n tags
ModulesFit n (other ∷ tags) = ModulesFit n tags

absurd_bool {ℓ} : {A : Type ℓ} → false ≡ true → A
absurd_bool e = absurd (let clash : ⊥ = cc in clash)

raised_lem :
    (r : Region) (top : ℕ)
    → top < 2 ^ 64
    → (top ≤ raised r top)
      × (raised r top < 2 ^ 64)
      × ((r.kind == available) ≡ true → region_end r ≤ raised r top)
raised_lem r top h = elim (Bool-cases (r.kind == available)) [
  | inl e ↦ rw e (ground arith, ground arith, λ k. ground arith)
  | inr e ↦ rw e (omega arith, h, λ k. absurd_bool k)
]

-- The top of the memory is at or above what it was before.
pub highest-le :
    (rs : List Region) (top : ℕ) → top < 2 ^ 64 → (top ≤ highest rs top) × (highest rs top < 2 ^ 64)
unfolding highest
highest-le [] top h = (omega arith, h)
highest-le (r ∷ rs) top h =
    let (above, small, seen) = raised_lem r top h in
    let (rest, small') = highest-le rs (raised r top) small in (omega (arith, above, rest), small')

-- The top of the memory is at or above the end of every available region.
pub highest_above :
    (rs : List Region) (top : ℕ)
    → top < 2 ^ 64
    → All (λ r. (r.kind == available) ≡ true → region_end r ≤ highest rs top) rs
unfolding highest
highest_above [] top h = tt
highest_above (r ∷ rs) top h =
    let (above, small, seen) = raised_lem r top h in
    let (rest, small') = highest-le rs (raised r top) small in
    (λ k. omega (arith, seen k, rest), highest_above rs (raised r top) small)

abbrev ones : ℕ
ones = 0xFF

module _ (n : ℕ) where
  all_ones : (i : ℕ) (size : ℕ) → i < size → get_or (replicate size ones) i 0 ≡ ones
  all_ones i zero h = absurd (omega arith)
  all_ones zero (suc size) h = refl
  all_ones (suc i) (suc size) h = all_ones i size (omega arith)

  one_digit : (k : ℕ) → k < 8 → test_bit ones k ≡ true
  unfolding test_bit
  one_digit zero h = refl
  one_digit (suc zero) h = refl
  one_digit (suc (suc zero)) h = refl
  one_digit (suc (suc (suc zero))) h = refl
  one_digit (suc (suc (suc (suc zero)))) h = refl
  one_digit (suc (suc (suc (suc (suc zero))))) h = refl
  one_digit (suc (suc (suc (suc (suc (suc zero)))))) h = refl
  one_digit (suc (suc (suc (suc (suc (suc (suc zero))))))) h = refl
  one_digit (suc (suc (suc (suc (suc (suc (suc (suc k)))))))) h = absurd (omega arith)

  bitmap_size-covers : n ≤ 8 * bitmap_size n
  unfolding bitmap_size
  bitmap_size-covers = ground arith

  pub used-all_used : (c : ℕ) → c < n → used (all_used n).bitmap c ≡ true
  used-all_used c h =
      ap (λ x. test_bit x (c % 8))
        (all_ones (c / 8) (bitmap_size n) (omega (arith, bitmap_size-covers)))
      ∙ one_digit (c % 8) (omega arith)

  count-all : (m : ℕ) → count (λ c. true) m ≡ m
  count-all zero = refl
  count-all (suc m) = omega (arith, count-all m)

  pub all_used-IsSound : n ≤ 2 ^ 52 → IsSound (all_used n)
  all_used-IsSound h = record {
    bytes = All-replicate (λ x. x < 2 ^ 8) (bitmap_size n) ones (omega arith);
    covered = omega (arith, length-replicate (bitmap_size n) ones, bitmap_size-covers);
    small = h;
    counted = sym (count_ext (used (all_used n).bitmap) (λ c. true) n used-all_used ∙ count-all n);
  }

pub blocks-le :
    (rs : List Region) (top : ℕ)
    → All (λ r. (r.kind == available) ≡ true → region_end r ≤ top) rs
    → All (λ r. (r.kind == available) ≡ true → end_block r ≤ top / 4096) rs
blocks-le [] top h = tt
blocks-le (r ∷ rs) top h = (λ k. omega (arith, h.0 k), blocks-le rs top h.1)

region_at-lt :
    (r : Region) (c : ℕ) → region_at r c ≡ true → (r.kind == available ≡ true) × (c < end_block r)
region_at-lt r c h = ground arith

pub free_at-lt :
    (rs : List Region) (n c : ℕ)
    → All (λ r. (r.kind == available) ≡ true → end_block r ≤ n) rs
    → free_at rs c ≡ true
    → c < n
free_at-lt [] n c h f = absurd_bool f
free_at-lt (r ∷ rs) n c h f = elim (Bool-cases (region_at r c)) [
  | inl e ↦ let (k, low) = region_at-lt r c e in omega (arith, h.0 k)
  | inr e ↦ free_at-lt rs n c h.1 (ap (λ t. t || free_at rs c) (sym e) ∙ f)
]
