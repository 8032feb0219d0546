-- ===== src/Pmm/Exclusive.antt =====
-- Sequences of calls of arch/x86_64/mm/pmm.c: a page that is in use is handed out to nobody else.
use shadow_box_os.Common.{
  ℕ, ◌*◌, ◌/◌, ◌<◌, ◌≡◌, ◌≢◌, refl, sym, ap, ◌∙◌, Bool, true, false, ◌||◌, List, [], ◌∷◌, ◌++◌,
  arith, ◌==◌, inl, inr, All, All-append,
}
use shadow_box_os.Pmm.{Pmm, alloc_page, free_page}
use shadow_box_os.Pmm.Bitmap.{used}
use shadow_box_os.Pmm.Pages.{IsSound, ==_ne, alloc_page_lem, free_page_lem}

pub data Call : Type 0 where
  allocs : Call
  frees : ℕ → Call

-- The addresses handed out, and the state afterwards. An address 0 is no page.
unfoldable pub step : Pmm → Call → List ℕ × Pmm
step p allocs = let (addr, q) = alloc_page p in (addr ∷ [], q)
step p (frees addr) = ([], free_page p addr)

unfoldable pub run : Pmm → List Call → List ℕ × Pmm
run p [] = ([], p)
run p (c ∷ cs) = let (out, q) = step p c in let (outs, r) = run q cs in (out ++ outs, r)

-- A call frees a page of the memory, and not page `b`.
abbrev pub Spares : ℕ → ℕ → Call → Type 0
Spares total b allocs = Unit
Spares total b (frees addr) = (addr / 4096 < total) × (addr / 4096 ≢ b)

pages-apart :
    (p : Pmm) (b k : ℕ) → used p.bitmap b ≡ true → used p.bitmap k ≡ false → k * 4096 ≢ b * 4096
pages-apart p b k busy free e =
    let same : k ≡ b = omega arith in
    let clash : true ≡ false = sym busy ∙ ap (used p.bitmap) (sym same) ∙ free in cc

or_true : (b : Bool) → (b || true) ≡ true
or_true b = ground arith

step_lem :
    (p : Pmm) (b : ℕ) (c : Call)
    → IsSound p
    → Spares p.max_blocks b c
    → used p.bitmap b ≡ true
    → 0 < b
    → let (out, q) = step p c in
      IsSound q
      × (q.max_blocks ≡ p.max_blocks)
      × (used q.bitmap b ≡ true)
      × All (λ addr. addr ≢ b * 4096) out
unfolding step
step_lem p b allocs s spares busy h = elim (alloc_page_lem p s) [
  | inl (same, all) ↦ rw same (s, refl, busy, (λ e. omega arith, tt))
  | inr (k, q, got, low, free, before, marks, total, counted, sound) ↦
      let apart = pages-apart p b k busy free in
      rw got (sound, total, marks b ∙ rw busy (or_true (k == b)), (apart, tt))
]
step_lem p b (frees addr) s spares busy h =
    let (sound, total, marks, rest) = free_page_lem p addr s spares.0 in
    (sound, total, marks b ∙ rw (busy, ==_ne (addr / 4096) b spares.1) refl, tt)

-- On a sound bitmap, over calls that free pages of the memory only, a page other than page 0 that is in
-- use and that nobody frees stays in use, and no call hands its address out.
pub run_exclusive :
    (p : Pmm) (b : ℕ) (cs : List Call)
    → IsSound p
    → 0 < b
    → used p.bitmap b ≡ true
    → All (Spares p.max_blocks b) cs
    → let (outs, q) = run p cs in
      IsSound q × (used q.bitmap b ≡ true) × All (λ addr. addr ≢ b * 4096) outs
unfolding run
run_exclusive p b [] s h busy spares = (s, busy, tt)
run_exclusive p b (c ∷ cs) s h busy spares =
    let (now, later) = spares in
    let (sound, total, still, out) = step_lem p b c s now busy h in
    let q = (step p c).1 in
    let later' : All (Spares q.max_blocks b) cs = rw total later in
    let (sound', still', outs) = run_exclusive q b cs sound h still later' in
    (sound', still', All-append (λ addr. addr ≢ b * 4096) (step p c).0 (run q cs).0 out outs)
