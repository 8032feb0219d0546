-- ===== src/Descriptors/Counts.antt =====
-- kernel/task.c: over any sequence of calls the count of a file is the number of its references.
use shadow_box_os.Common.Int.{ℤ, pos, negsuc}
use shadow_box_os.Common.{
  ℕ, zero, suc, ◌+◌, ◌≤◌, ◌<◌, ◌^◌, ◌≡◌, refl, ap, inl, inr, Option-cases, Option, none, some, List,
  [], ◌∷◌, length, length-set, set, get_or, ◌==◌, if◌then◌else◌, arith,
}
use shadow_box_os.Descriptors.{Files, free_slot, install, get, close, counted_up, counted_down}

abbrev one_at : ℕ → Option ℕ → ℕ
one_at f none = 0
one_at f (some g) = if g == f then 1 else 0

-- How many slots hold the file.
abbrev pub held : ℕ → List (Option ℕ) → ℕ
held f [] = 0
held f (o ∷ fds) = one_at f o + held f fds

held-set :
    (f : ℕ) (fds : List (Option ℕ)) (i : ℕ) (o : Option ℕ)
    → i < length fds
    → held f (set fds i o) + one_at f (get_or fds i none) ≡ held f fds + one_at f o
held-set f [] i o h = absurd (omega arith)
held-set f (x ∷ fds) zero o h = omega arith
held-set f (x ∷ fds) (suc i) o h = omega (arith, held-set f fds i o (omega arith))

held-le : (f : ℕ) (fds : List (Option ℕ)) → held f fds ≤ length fds
held-le f [] = omega arith
held-le f (none ∷ fds) = omega (arith, held-le f fds)
held-le f (some g ∷ fds) = ground (arith, held-le f fds)

free_slot_lem :
    (fds : List (Option ℕ)) (i : ℕ)
    → free_slot fds ≡ some i
    → (i < length fds) × (get_or fds i none ≡ none)
unfolding free_slot
free_slot_lem [] i h = absurd (ground (arith, h))
free_slot_lem (none ∷ fds) i h = let e : i ≡ 0 = ground (arith, h) in rw e (omega arith, refl)
free_slot_lem (some g ∷ fds) i h = elim (Option-cases (free_slot fds)) [
  | inl full ↦ absurd (ground (arith, h, full))
  | inr (j, found) ↦
      let (below, free) = free_slot_lem fds j found in
      let e : i ≡ suc j = ground (arith, h, found) in rw e (omega arith, free)
]

get_or-in : (fds : List (Option ℕ)) (i f : ℕ) → get_or fds i none ≡ some f → i < length fds
get_or-in [] i f h = absurd (ground (arith, h))
get_or-in (x ∷ fds) zero f h = omega arith
get_or-in (x ∷ fds) (suc i) f h = omega (arith, get_or-in fds i f h)

-- The count of every file is the number of the slots that hold it and of the references elsewhere,
-- and these fit into the count.
pub record IsCounted (elsewhere : ℕ → ℕ) (s : Files) : Type 0 where
  pub exact : (f : ℕ) → s.refcount f ≡ elsewhere f + held f s.fds
  pub fits : (f : ℕ) → elsewhere f + length s.fds < 2 ^ 32

module _ (elsewhere : ℕ → ℕ) (s : Files) (v : IsCounted elsewhere s) where
  added_count :
      (f i g : ℕ)
      → free_slot s.fds ≡ some i
      → counted_up s.refcount f g ≡ elsewhere g + held g (set s.fds i (some f))
  added_count f i g found =
      let (below, free) = free_slot_lem s.fds i found in
      let moved : held g (set s.fds i (some f)) ≡ held g s.fds + one_at g (some f) =
        omega (arith, held-set g s.fds i (some f) below, ap (one_at g) free) in
      let small = held-le g (set s.fds i (some f)) in
      ground (arith, moved, small, length-set s.fds i (some f), v.exact g, v.fits g)

  dropped_count :
      (f i g : ℕ)
      → get_or s.fds i none ≡ some f
      → counted_down s.refcount f g ≡ elsewhere g + held g (set s.fds i none)
  dropped_count f i g found =
      let moved : held g (set s.fds i none) + one_at g (some f) ≡ held g s.fds =
        omega (arith, held-set g s.fds i none (get_or-in s.fds i f found), ap (one_at g) found) in
      ground (arith, moved, held-le g s.fds, v.exact g, v.fits g)

  pub install-IsCounted : (f : ℕ) → IsCounted elsewhere (install s f).1
  unfolding install
  install-IsCounted f = elim (Option-cases (free_slot s.fds)) [
    | inl full ↦ rw (full, install) v
    | inr (i, found) ↦
        rw (found, install)
          (record {
            exact = λ g. added_count f i g found;
            fits = λ g. rw (length-set s.fds i (some f)) (v.fits g);
          })
  ]

  pub close-IsCounted : (fd : ℤ) → IsCounted elsewhere (close s fd).1
  unfolding close get
  close-IsCounted (negsuc n) = v
  close-IsCounted (pos i) = elim (Option-cases (get_or s.fds i none)) [
    | inl nothing ↦ rw (nothing, close, get) v
    | inr (f, found) ↦
        rw (found, close, get)
          (record {
            exact = λ g. dropped_count f i g found;
            fits = λ g. rw (length-set s.fds i none) (v.fits g);
          })
  ]

  -- What a close does to a file in the slot.
  pub closed :
      (i f : ℕ)
      → get s (pos i) ≡ some f
      → (close s (pos i)).0
        ≡ (if elsewhere f + held f (close s (pos i)).1.fds == 0 then some f else none)
  unfolding close get
  closed i f found =
      rw (found, close, get) (ap (λ n. if n == 0 then some f else none) (dropped_count f i f found))

pub data Call : Type 0 where
  installs : ℕ → Call
  closes : ℤ → Call

-- The table after the calls.
unfoldable pub run : List Call → Files → Files
run [] s = s
run (installs f ∷ calls) s = run calls (install s f).1
run (closes fd ∷ calls) s = run calls (close s fd).1

run-IsCounted :
    (elsewhere : ℕ → ℕ) (calls : List Call) (s : Files)
    → IsCounted elsewhere s
    → IsCounted elsewhere (run calls s)
unfolding run
run-IsCounted elsewhere [] s v = v
run-IsCounted elsewhere (installs f ∷ calls) s v =
    run-IsCounted elsewhere calls (install s f).1 (install-IsCounted elsewhere s v f)
run-IsCounted elsewhere (closes fd ∷ calls) s v =
    run-IsCounted elsewhere calls (close s fd).1 (close-IsCounted elsewhere s v fd)

-- From a table in which the count of every file is the number of the slots that hold it and of the
-- references elsewhere, over any installs and closes, the counts stay so, and then a close of a
-- descriptor gives its file up exactly if no slot holds it any more and there is no reference
-- elsewhere.
pub run_counts :
    (elsewhere : ℕ → ℕ) (calls : List Call) (s : Files) (i f : ℕ)
    → IsCounted elsewhere s
    → get (run calls s) (pos i) ≡ some f
    → let (given_up, s') = close (run calls s) (pos i) in
      IsCounted elsewhere s'
      × (given_up ≡ (if elsewhere f + held f s'.fds == 0 then some f else none))
run_counts elsewhere calls s i f v found =
    let w = run-IsCounted elsewhere calls s v in
    (close-IsCounted elsewhere (run calls s) w (pos i), closed elsewhere (run calls s) w i f found)
