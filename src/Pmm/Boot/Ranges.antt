-- ===== src/Pmm/Boot/Ranges.antt =====
-- The loops of pmm_init in arch/x86_64/mm/pmm.c over a range of blocks.
use shadow_box_os.Common.{
  ℕ, zero, suc, ◌+◌, ◌≤◌, ◌<◌, ◌≡◌, refl, sym, ap, ◌∙◌, Bool, true, false, not, ◌&&◌, ◌||◌, arith,
  ◌==◌, Bool-cases, ℕ_discrete, ltb, leb, if◌then◌else◌, inl, inr,
}
use shadow_box_os.Pmm.{Pmm, bitmap_test, taken, released}
use shadow_box_os.Pmm.Bitmap.{used, bitmap_test-used}
use shadow_box_os.Pmm.Pages.{IsSound, taken_lem, released_lem, ==_ne}
use shadow_box_os.Pmm.Boot.{free_range, reserve_range}

-- Block `c` is one of the `n` from `b`.
abbrev pub within : ℕ → ℕ → ℕ → Bool
within n b c = leb b c && ltb c (b + n)

within-zero : (b c : ℕ) → within 0 b c ≡ false
within-zero b c = ground arith

within_self : (n b : ℕ) → within (suc n) b b ≡ true
within_self n b = ground arith

within-next :
    (n b c : ℕ) → within n (b + 1) c ≡ true → (within (suc n) b c ≡ true) × ((b == c) ≡ false)
within-next n b c h = ground arith

free_step :
    (n b c : ℕ) (u : Bool)
    → ((not (b == c) && u) && not (within n (b + 1) c)) ≡ (u && not (within (suc n) b c))
free_step n b c u = ground arith

reserve_step :
    (n b c : ℕ) (u : Bool) → (((b == c) || u) || within n (b + 1) c) ≡ (u || within (suc n) b c)
reserve_step n b c u = ground arith

and_true : (u : Bool) → (u && true) ≡ u
and_true u = ground arith

or_false : (u : Bool) → (u || false) ≡ u
or_false u = ground arith

pub max_blocks-taken : (p : Pmm) (k : ℕ) → (taken p k).max_blocks ≡ p.max_blocks
unfolding taken
max_blocks-taken p k = refl

pub max_blocks-released : (p : Pmm) (k : ℕ) → (released p k).max_blocks ≡ p.max_blocks
unfolding released
max_blocks-released p k = refl

-- Used blocks of the memory that are marked free one after the other leave the count right.
pub free_range_lem :
    (p : Pmm) (n b : ℕ)
    → IsSound p
    → (0 < n → b + n ≤ p.max_blocks)
    → ((c : ℕ) → within n b c ≡ true → used p.bitmap c ≡ true)
    → let q = free_range p n b in
      IsSound q
      × (q.max_blocks ≡ p.max_blocks)
      × ((c : ℕ) → used q.bitmap c ≡ used p.bitmap c && not (within n b c))
unfolding free_range
free_range_lem p zero b s h busy =
    (s, refl, λ c. rw (within-zero b c) (sym (and_true (used p.bitmap c))))
free_range_lem p (suc n) b s h busy =
    let (marks, less, sound) =
      released_lem p b s (omega (arith, h (omega arith))) (busy b (within_self n b)) in
    let total = max_blocks-released p b in
    let still : (c : ℕ) → within n (b + 1) c ≡ true → used (released p b).bitmap c ≡ true =
      λ c at. let (here, ne) = within-next n b c at in marks c ∙ rw (busy c here, ne) refl in
    let (sound', total', marks') =
      free_range_lem (released p b) n (b + 1) sound (λ more. omega (arith, total, h (omega arith)))
        still in
    (sound', total' ∙ total, λ c. marks' c ∙ rw (marks c) (free_step n b c (used p.bitmap c)))

-- One turn of the loop that reserves: block `b` is used then, and counted once.
reserved_lem :
    (p : Pmm) (b : ℕ)
    → IsSound p
    → b < p.max_blocks
    → let q = (if bitmap_test p.bitmap b == 0 then taken p b else p) in
      IsSound q
      × (q.max_blocks ≡ p.max_blocks)
      × ((c : ℕ) → used q.bitmap c ≡ (b == c) || used p.bitmap c)
reserved_lem p b s h = elim (Bool-cases (used p.bitmap b)) [
  | inl e ↦
      let test : (bitmap_test p.bitmap b == 0) ≡ false = bitmap_test-used p.bitmap b ∙ ap not e in
      rw test (
        s,
        refl,
        λ c. elim (ℕ_discrete b c) [
          | yes same ↦
              let here : used p.bitmap c ≡ true = ap (used p.bitmap) (sym same) ∙ e in
              rw here (ground arith)
          | no ne ↦ rw (==_ne b c ne) refl
        ],
      )
  | inr e ↦
      let test : (bitmap_test p.bitmap b == 0) ≡ true = bitmap_test-used p.bitmap b ∙ ap not e in
      let (marks, more, sound) = taken_lem p b s h e in rw test (sound, max_blocks-taken p b, marks)
]

-- Blocks of the memory that are reserved one after the other are used, and the others as before.
pub reserve_range_lem :
    (p : Pmm) (n b : ℕ)
    → IsSound p
    → (0 < n → b + n ≤ p.max_blocks)
    → let q = reserve_range p n b in
      IsSound q
      × (q.max_blocks ≡ p.max_blocks)
      × ((c : ℕ) → used q.bitmap c ≡ used p.bitmap c || within n b c)
unfolding reserve_range
reserve_range_lem p zero b s h =
    (s, refl, λ c. rw (within-zero b c) (sym (or_false (used p.bitmap c))))
reserve_range_lem p (suc n) b s h =
    let (sound, total, marks) = reserved_lem p b s (omega (arith, h (omega arith))) in
    let (sound', total', marks') =
      reserve_range_lem (if bitmap_test p.bitmap b == 0 then taken p b else p) n (b + 1) sound
        (λ more. omega (arith, total, h (omega arith))) in
    (sound', total' ∙ total, λ c. marks' c ∙ rw (marks c) (reserve_step n b c (used p.bitmap c)))
