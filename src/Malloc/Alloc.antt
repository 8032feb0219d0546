-- ===== src/Malloc/Alloc.antt =====
-- kmalloc of arch/x86_64/mm/malloc.c: a new block in use, and the others as they were.
use shadow_box_os.Common.{
  ℕ, ◌+◌, ◌*◌, ◌%◌, ◌^◌, ◌≤◌, ◌<◌, ◌≡◌, refl, sym, ◌∙◌, arith, ◌⊎◌, inl, inr, true, false, none,
  some, List, [], ◌∷◌, ◌++◌, append-nil, Bool-cases, leb, ◌==◌, All, subst,
}
use shadow_box_os.Malloc.{
  Block, Heap, header, heap_start, page_size, align, split_block, fits, first_fit, pages_for,
  new_size, expand_heap, alloc_loop, kmalloc,
}
use shadow_box_os.Malloc.Tiles.{
  Tiled, live, OneMore, Tiled-append, live-append, OneMore-cons, split_block_lem,
}

-- The blocks cover the heap from its start to its end.
abbrev pub IsSound : Heap → Type 0
IsSound h = Tiled heap_start h.blocks h.heap_end

-- The outcome of the inner loop: no block fits, or one that fits is taken.
first_fit_lem :
    (bs : List Block) (size a e : ℕ)
    → Tiled a bs e
    → ((first_fit bs size ≡ none) × All (λ b. fits b size ≡ false) bs)
      ⊎ ((at : ℕ) × (bs' : List Block) × (first_fit bs size ≡ some (at + header, bs'))
          × Tiled a bs' e
          × OneMore bs bs' at size
          × (a ≤ at))
unfolding first_fit
first_fit_lem [] size a e t = inl (refl, tt)
first_fit_lem (b ∷ bs) size a e t = elim (Bool-cases (fits b size)) [
  | inl f ↦
      let (tiled, more) = split_block_lem b size bs a e f t in
      inr (b.addr, split_block b size bs, rw (f, first_fit) refl, tiled, more, omega (arith, t.0))
  | inr f ↦ elim (first_fit_lem bs size (a + header + b.size) e t.1) [
    | inl (found, all) ↦ inl (rw (f, found, first_fit) refl, (f, all))
    | inr (at, bs', found, tiled, more, above) ↦ inr (
      at,
      b ∷ bs',
      rw (f, found, first_fit) refl,
      (t.0, tiled),
      OneMore-cons b bs bs' at size more,
      omega arith,
    )
  ]
]

last_fits :
    (bs : List Block) (b : Block) (size : ℕ)
    → All (λ c. fits c size ≡ false) (bs ++ b ∷ [])
    → fits b size ≡ false
last_fits [] b size h = h.0
last_fits (c ∷ bs) b size h = last_fits bs b size h.1

-- The heap grows by free bytes behind the last block, enough for the request.
expand_heap_lem :
    (h : Heap) (size : ℕ)
    → IsSound h
    → size < 2 ^ 63 + 16
    → h.heap_end + pages_for size * 4096 < 2 ^ 64
    → IsSound (expand_heap h size)
      × (live (expand_heap h size).blocks ≡ live h.blocks)
      × ((b : Block) × ((expand_heap h size).blocks ≡ h.blocks ++ b ∷ []) × (fits b size ≡ true))
unfolding expand_heap
expand_heap_lem h size s small room =
    let more = pages_for size * page_size in
    let b : Block = record { addr = h.heap_end; size = new_size size; free = true } in
    let end : h.heap_end + header + new_size size ≡ (h.heap_end + more) % 2 ^ 64 = omega arith in
    let tiled =
      Tiled-append heap_start h.heap_end ((h.heap_end + more) % 2 ^ 64) h.blocks (b ∷ []) s
        (refl, end) in
    (tiled, live-append h.blocks (b ∷ []) ∙ append-nil (live h.blocks), (b, refl, large))
  where
    large : leb size (new_size size) ≡ true
    large = ground arith

-- What kmalloc gives: `p` is behind the header of a new block in use.
pub record Allocated (h h' : Heap) (size p : ℕ) : Type 0 where
  pub sound : IsSound h'
  pub at : ℕ
  pub pointer : p ≡ at + 24
  pub in_heap : heap_start ≤ at
  pub taken : OneMore h.blocks h'.blocks at size

-- A smaller size is allocated too.
OneMore-le :
    (less more : List Block) (at n size : ℕ)
    → size ≤ n
    → OneMore less more at n
    → OneMore less more at size
OneMore-le less more at n size h o = record {
  before = o.before;
  after = o.after;
  block = o.block;
  less_live = o.less_live;
  more_live = o.more_live;
  block_at = o.block_at;
  block_size = omega (arith, o.block_size);
}

alloc_loop_lem :
    (h : Heap) (n size : ℕ)
    → size ≤ n
    → IsSound h
    → n < 2 ^ 63 + 16
    → h.heap_end + pages_for n * 4096 < 2 ^ 64
    → (p : ℕ) × (h' : Heap) × (alloc_loop 2 h n ≡ some (p, h')) × Allocated h h' size p
unfolding alloc_loop
alloc_loop_lem h n size le s small room = elim (first_fit_lem h.blocks n heap_start h.heap_end s) [
  | inr (at, bs, found, tiled, more, above) ↦ (
    at + header,
    record h { blocks = bs },
    rw (found, alloc_loop) refl,
    record {
      sound = tiled;
      at = at;
      pointer = refl;
      in_heap = above;
      taken = OneMore-le h.blocks bs at n size le more;
    },
  )
  | inl (found, all) ↦
      let g = expand_heap h n in
      let (sound, same, (b, added, fit)) = expand_heap_lem h n s small room in
      elim (first_fit_lem g.blocks n heap_start g.heap_end sound) [
        | inl (found', all') ↦
            let all'' : All (λ c. fits c n ≡ false) (h.blocks ++ b ∷ []) =
              subst (All (λ c. fits c n ≡ false)) added all' in
            let clash : true ≡ false = sym fit ∙ last_fits h.blocks b n all'' in cc
        | inr (at, bs, found', tiled, more, above) ↦
            let o = OneMore-le g.blocks bs at n size le more in
            (
              at + header,
              record g { blocks = bs },
              rw (found, found', alloc_loop) refl,
              record {
                sound = tiled;
                at = at;
                pointer = refl;
                in_heap = above;
                taken = record {
                  before = o.before;
                  after = o.after;
                  block = o.block;
                  less_live = sym same ∙ o.less_live;
                  more_live = o.more_live;
                  block_at = o.block_at;
                  block_size = o.block_size;
                };
              },
            )
      ]
]

-- On a sound heap, a request below 2^63 bytes that leaves the heap below the top of the address space:
-- for no bytes it gives null and changes nothing; for some bytes, and only then, it is served, in two
-- turns of the loop at most, by a block in use of at least that size; the other blocks in use stay as
-- they are and the blocks cover the heap as before.
pub kmalloc_lem :
    (h : Heap) (size : ℕ)
    → IsSound h
    → size < 2 ^ 63
    → h.heap_end + pages_for (align size) * 4096 < 2 ^ 64
    → ((size ≡ 0) × (kmalloc h size ≡ some (0, h)))
      ⊎ ((0 < size)
          × (p : ℕ) × (h' : Heap) × (kmalloc h size ≡ some (p, h'))
          × Allocated h h' size p)
unfolding kmalloc
kmalloc_lem h size s small room = elim (Bool-cases (size == 0)) [
  | inl e ↦ inl (ground arith, rw (e, kmalloc) refl)
  | inr e ↦
      let (p, h', got, a) = alloc_loop_lem h (align size) size (omega arith) s (omega arith) room in
      inr (ground arith, p, h', rw (e, kmalloc) got, a)
]
