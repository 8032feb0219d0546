-- ===== src/Malloc/Live.antt =====
-- Sequences of kmalloc and kfree of arch/x86_64/mm/malloc.c: what is in use is nobody else's.
use shadow_box_os.Common.{
  ℕ, ◌+◌, ◌-◌, ◌*◌, ◌^◌, ◌≤◌, ◌<◌, ◌≡◌, ◌≢◌, refl, sym, ap, ◌∙◌, arith, ◌⊎◌, inl, inr, none, some,
  List, [], ◌∷◌, ◌++◌, Bool-cases, ◌==◌, All, subst,
}
use shadow_box_os.Malloc.{
  Block, Heap, header, heap_start, align, mark_free, pages_for, kmalloc, kfree,
}
use shadow_box_os.Malloc.Tiles.{
  Tiled, live, live_free, live_used, OneMore, merge_lem, mark_free_lem,
}
use shadow_box_os.Malloc.Alloc.{IsSound, kmalloc_lem}

-- kfree of null changes nothing; kfree of another pointer takes at most the block with that pointer
-- out of those in use, and the blocks cover the heap as before.
pub kfree_lem :
    (h : Heap) (ptr : ℕ)
    → IsSound h
    → let h' = kfree h ptr in
      IsSound h'
      × (h'.heap_end ≡ h.heap_end)
      × ((live h'.blocks ≡ live h.blocks) ⊎ ((ptr ≢ 0) × OneMore h'.blocks h.blocks (ptr - 24) 0))
unfolding kfree
kfree_lem h ptr s = elim (Bool-cases (ptr == 0)) [
  | inl e ↦ rw (e, kfree) (s, refl, inl refl)
  | inr e ↦
      let marked = mark_free h.blocks (ptr - header) in
      let (tiled, done) = mark_free_lem h.blocks (ptr - header) heap_start h.heap_end s in
      let (tiled', same) = merge_lem marked heap_start h.heap_end tiled in
      rw (e, kfree)
        (
          tiled',
          refl,
          elim done [
            | inl none_freed ↦ inl (same ∙ none_freed)
            | inr o ↦ inr (
              (λ f. ground arith),
              record {
                before = o.before;
                after = o.after;
                block = o.block;
                less_live = same ∙ o.less_live;
                more_live = o.more_live;
                block_at = o.block_at;
                block_size = o.block_size;
              },
            )
          ],
        )
]

-- Each block ends before the later ones begin.
abbrev pub Apart : List Block → Type 0
Apart [] = Unit
Apart (b ∷ bs) = All (λ (c : Block). b.addr + header + b.size ≤ c.addr) bs × Apart bs

All-live :
    (bs : List Block) (bound a e : ℕ)
    → bound ≤ a
    → Tiled a bs e
    → All (λ (c : Block). bound ≤ c.addr) (live bs)
All-live [] bound a e h t = tt
All-live (b ∷ bs) bound a e h t =
    let rest = All-live bs bound (a + header + b.size) e (omega arith) t.1 in
    elim (Bool-cases b.free) [
      | inl f ↦ subst (All (λ (c : Block). bound ≤ c.addr)) (sym (live_free b bs f)) rest
      | inr f ↦
          subst (All (λ (c : Block). bound ≤ c.addr)) (sym (live_used b bs f))
            (omega (arith, t.0), rest)
    ]

live-Apart : (bs : List Block) (a e : ℕ) → Tiled a bs e → Apart (live bs)
live-Apart [] a e t = tt
live-Apart (b ∷ bs) a e t =
    let rest = live-Apart bs (a + header + b.size) e t.1 in
    elim (Bool-cases b.free) [
      | inl f ↦ subst Apart (sym (live_free b bs f)) rest
      | inr f ↦ subst Apart (sym (live_used b bs f)) (
        All-live bs (b.addr + header + b.size) (a + header + b.size) e (omega (arith, t.0)) t.1,
        rest,
      )
    ]

abbrev pub In : Block → List Block → Type 0
In b [] = ⊥
In b (c ∷ bs) = (b ≡ c) ⊎ In b bs

In-more : (b c : Block) (xs ys : List Block) → In b (xs ++ ys) → In b (xs ++ c ∷ ys)
In-more b c [] ys i = inr i
In-more b c (x ∷ xs) ys (inl e) = inl e
In-more b c (x ∷ xs) ys (inr i) = inr (In-more b c xs ys i)

In-less : (b c : Block) (xs ys : List Block) → b ≢ c → In b (xs ++ c ∷ ys) → In b (xs ++ ys)
In-less b c [] ys ne (inl e) = absurd (ne e)
In-less b c [] ys ne (inr i) = i
In-less b c (x ∷ xs) ys ne (inl e) = inl e
In-less b c (x ∷ xs) ys ne (inr i) = inr (In-less b c xs ys ne i)

pub data Call : Type 0 where
  mallocs : ℕ → Call
  frees : ℕ → Call

-- A call that panics leaves no heap; `none` of kmalloc is never reached with room.
unfoldable pub step : Heap → Call → Heap
step h (mallocs size) = elim (kmalloc h size) [ none ↦ h | some (p, h') ↦ h' ]
step h (frees ptr) = kfree h ptr

unfoldable pub run : Heap → List Call → Heap
run h [] = h
run h (c ∷ cs) = run (step h c) cs

-- The request is small and leaves the heap below the top of the address space.
abbrev pub HasRoom : Heap → Call → Type 0
HasRoom h (mallocs size) = (size < 2 ^ 63) × (h.heap_end + pages_for (align size) * 4096 < 2 ^ 64)
HasRoom h (frees ptr) = Unit

abbrev pub HaveRoom : Heap → List Call → Type 0
HaveRoom h [] = Unit
HaveRoom h (c ∷ cs) = HasRoom h c × HaveRoom (step h c) cs

-- The call does not free the block.
abbrev pub Spares : Block → Call → Type 0
Spares b (mallocs size) = Unit
Spares b (frees ptr) = ptr ≢ b.addr + 24

step_lem :
    (h : Heap) (b : Block) (c : Call)
    → IsSound h
    → heap_start ≤ b.addr
    → In b (live h.blocks)
    → HasRoom h c
    → Spares b c
    → IsSound (step h c) × In b (live (step h c).blocks)
unfolding step
step_lem h b (mallocs size) s low i room spares = elim (kmalloc_lem h size s room.0 room.1) [
  | inl (no_bytes, got) ↦ rw (got, step) (s, i)
  | inr (some_bytes, p, h', got, a) ↦
      let o = a.taken in
      let old : In b (o.before ++ o.after) = subst (In b) o.less_live i in
      rw (got, step)
        (a.sound, subst (In b) (sym o.more_live) (In-more b o.block o.before o.after old))
]
step_lem h b (frees ptr) s low i room spares =
    let (sound, end, done) = kfree_lem h ptr s in
    (
      sound,
      elim done [
        | inl same ↦ subst (In b) (sym same) i
        | inr (some_ptr, o) ↦
            let old : In b (o.before ++ o.block ∷ o.after) = subst (In b) o.more_live i in
            let other : b ≢ o.block = λ e.
              let at : b.addr ≡ ptr - 24 = ap (λ (c : Block). c.addr) e ∙ o.block_at in
              spares (omega arith) in
            subst (In b) (sym o.less_live) (In-less b o.block o.before o.after other old)
      ],
    )

-- On a sound heap, over any calls with room, a block in use that no call frees stays in use, as large as it is, and
-- the blocks in use never overlap.
pub run_keeps :
    (h : Heap) (b : Block) (cs : List Call)
    → IsSound h
    → heap_start ≤ b.addr
    → In b (live h.blocks)
    → HaveRoom h cs
    → All (Spares b) cs
    → let h' = run h cs in IsSound h' × In b (live h'.blocks) × Apart (live h'.blocks)
unfolding run
run_keeps h b [] s low i room spares = (s, i, live-Apart h.blocks heap_start h.heap_end s)
run_keeps h b (c ∷ cs) s low i room spares =
    let (sound, still) = step_lem h b c s low i room.0 spares.0 in
    run_keeps (step h c) b cs sound low still room.1 spares.1
