-- ===== src/Malloc/Tiles.antt =====
-- The blocks of arch/x86_64/mm/malloc.c cover the heap, one behind the other.
use shadow_box_os.Common.{
  ℕ, ◌+◌, ◌-◌, ◌≤◌, ◌<◌, ◌≡◌, refl, sym, ap, ◌∙◌, arith, ◌⊎◌, inl, inr, true, false, List, [], ◌∷◌,
  ◌++◌, Bool-cases, ltb, ◌==◌, if◌then◌else◌, subst,
}
use shadow_box_os.Malloc.{Block, header, split_block, fits, mark_free, joins, merge}

-- The blocks fill the bytes from `a` to `e` without gap or overlap.
abbrev pub Tiled : ℕ → List Block → ℕ → Type 0
Tiled a [] e = a ≡ e
Tiled a (b ∷ bs) e = (b.addr ≡ a) × Tiled (a + header + b.size) bs e

-- The blocks in use, in the order of the addresses.
abbrev pub live : List Block → List Block
live [] = []
live (b ∷ bs) = if b.free then live bs else b ∷ live bs

-- `more` has one block in use more than `less`, at `at` with at least `size` bytes.
pub record OneMore (less more : List Block) (at size : ℕ) : Type 0 where
  pub before : List Block
  pub after : List Block
  pub block : Block
  pub less_live : live less ≡ before ++ after
  pub more_live : live more ≡ before ++ block ∷ after
  pub block_at : block.addr ≡ at
  pub block_size : size ≤ block.size

pub Tiled-append :
    (a m e : ℕ) (bs cs : List Block) → Tiled a bs m → Tiled m cs e → Tiled a (bs ++ cs) e
Tiled-append a m e [] cs t u = let same : m ≡ a = sym t in subst (λ x. Tiled x cs e) same u
Tiled-append a m e (b ∷ bs) cs t u = (t.0, Tiled-append (a + header + b.size) m e bs cs t.1 u)

pub live_free : (b : Block) (bs : List Block) → b.free ≡ true → live (b ∷ bs) ≡ live bs
live_free b bs e = ap (λ f. if f then live bs else b ∷ live bs) e

pub live_used : (b : Block) (bs : List Block) → b.free ≡ false → live (b ∷ bs) ≡ b ∷ live bs
live_used b bs e = ap (λ f. if f then live bs else b ∷ live bs) e

pub live-append : (bs cs : List Block) → live (bs ++ cs) ≡ live bs ++ live cs
live-append [] cs = refl
live-append (b ∷ bs) cs = elim (Bool-cases b.free) [
  | inl e ↦
      live_free b (bs ++ cs) e ∙ live-append bs cs ∙ ap (λ l. l ++ live cs) (sym (live_free b bs e))
  | inr e ↦
      live_used b (bs ++ cs) e
      ∙ ap (◌∷◌ b) (live-append bs cs)
      ∙ ap (λ l. l ++ live cs) (sym (live_used b bs e))
]

-- A block in front leaves the difference as it is.
pub OneMore-cons :
    (b : Block) (less more : List Block) (at size : ℕ)
    → OneMore less more at size
    → OneMore (b ∷ less) (b ∷ more) at size
OneMore-cons b less more at size o = elim (Bool-cases b.free) [
  | inl e ↦ record {
    before = o.before;
    after = o.after;
    block = o.block;
    less_live = live_free b less e ∙ o.less_live;
    more_live = live_free b more e ∙ o.more_live;
    block_at = o.block_at;
    block_size = o.block_size;
  }
  | inr e ↦ record {
    before = b ∷ o.before;
    after = o.after;
    block = o.block;
    less_live = live_used b less e ∙ ap (◌∷◌ b) o.less_live;
    more_live = live_used b more e ∙ ap (◌∷◌ b) o.more_live;
    block_at = o.block_at;
    block_size = o.block_size;
  }
]

-- split_block keeps the bytes covered and takes the block.
pub split_block_lem :
    (b : Block) (size : ℕ) (bs : List Block) (a e : ℕ)
    → fits b size ≡ true
    → Tiled a (b ∷ bs) e
    → Tiled a (split_block b size bs) e × OneMore (b ∷ bs) (split_block b size bs) b.addr size
unfolding split_block
split_block_lem b size bs a e f t =
    let is_free : b.free ≡ true = ground arith in
    let enough : size ≤ b.size = ground arith in
    elim (Bool-cases (ltb (size + header + 8) b.size)) [
      | inl c ↦
          let more : size + header + 8 < b.size = ground arith in
          let end : a + header + size + header + (b.size - size - header) ≡ a + header + b.size =
            omega arith in
          rw (c, split_block)
            (
              (t.0, (ap (λ x. x + header + size) t.0, subst (λ x. Tiled x bs e) (sym end) t.1)),
              record {
                before = [];
                after = live bs;
                block = record b { size = size; free = false };
                less_live = rw is_free refl;
                more_live = refl;
                block_at = refl;
                block_size = omega arith;
              },
            )
      | inr c ↦
          rw (c, split_block)
            (
              t,
              record {
                before = [];
                after = live bs;
                block = record b { free = false };
                less_live = rw is_free refl;
                more_live = refl;
                block_at = refl;
                block_size = enough;
              },
            )
    ]

-- A kfree's merges keep the bytes covered and the blocks in use.
pub merge_lem :
    (bs : List Block) (a e : ℕ) → Tiled a bs e → Tiled a (merge bs) e × (live (merge bs) ≡ live bs)
unfolding merge
merge_lem [] a e t = (t, refl)
merge_lem (b ∷ []) a e t = (t, refl)
merge_lem (b ∷ c ∷ bs) a e t = elim (Bool-cases (joins b c)) [
  | inl j ↦
      let is_free : b.free ≡ true = ground arith in
      let next_free : c.free ≡ true = ground arith in
      let end : a + header + b.size + header + c.size ≡ a + header + (b.size + (header + c.size)) =
        omega arith in
      let (tiled, same) =
        merge_lem bs (a + header + (b.size + (header + c.size))) e
          (subst (λ x. Tiled x bs e) end t.1.1) in
      rw (j, merge) ((t.0, tiled), rw (is_free, next_free) same)
  | inr j ↦
      let (tiled, same) = merge_lem (c ∷ bs) (a + header + b.size) e t.1 in
      rw (j, merge) ((t.0, tiled), ap (λ l. if b.free then l else b ∷ l) same)
]

-- Marking the block at `at` free takes it out of the blocks in use, if it was in use.
pub mark_free_lem :
    (bs : List Block) (at a e : ℕ)
    → Tiled a bs e
    → Tiled a (mark_free bs at) e
      × ((live (mark_free bs at) ≡ live bs) ⊎ OneMore (mark_free bs at) bs at 0)
unfolding mark_free
mark_free_lem [] at a e t = (t, inl refl)
mark_free_lem (b ∷ bs) at a e t = elim (Bool-cases (b.addr == at)) [
  | inl f ↦ elim (Bool-cases b.free) [
    | inl g ↦ rw (f, mark_free) (t, inl (rw g refl))
    | inr g ↦
        rw (f, mark_free)
          (
            t,
            inr (record {
              before = [];
              after = live bs;
              block = b;
              less_live = refl;
              more_live = rw g refl;
              block_at = ground arith;
              block_size = omega arith;
            }),
          )
  ]
  | inr f ↦
      let (tiled, done) = mark_free_lem bs at (a + header + b.size) e t.1 in
      rw (f, mark_free)
        (
          (t.0, tiled),
          elim done [
            | inl same ↦ inl (ap (λ l. if b.free then l else b ∷ l) same)
            | inr o ↦ inr (OneMore-cons b (mark_free bs at) bs at 0 o)
          ],
        )
]
