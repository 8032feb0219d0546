-- ===== src/Tmpfs/Mounted/Grows.antt =====
-- fs/tmpfs.c: what a search in any directory finds after an entry was added to one.
use shadow_box_os.Common.Text.{matches, matches_iff}
use shadow_box_os.Common.{
  ℕ, ◌<◌, ◌≡◌, ◌≢◌, refl, ap, sym, ◌∙◌, false, ◌⊎◌, inl, inr, none, some, List, [], ◌∷◌, length,
  All, arith, Bool-cases, Option-cases, ◌==◌,
}
use shadow_box_os.Vfs.{vfs_finddir}
use shadow_box_os.Tmpfs.{Kind, file, directory, Entry, Fs, Memory}
use shadow_box_os.Tmpfs.Tree.{find_in, find_child, finddir, make_vfs_node, is_full, added}
use shadow_box_os.Tmpfs.Names.{SameNames, find_in-same}
use shadow_box_os.Tmpfs.Directory.{
  IsSound, IsFresh, after, added_run, with-Adds, after-other, after-SameName, find_child_lem, Adds,
}
use shadow_box_os.Tmpfs.Mounted.{nodes_of, lookup}
use shadow_box_os.Tmpfs.Mounted.Paths.{IsPlain}

lookup_lem : (fs : Fs) (k : ℕ) (q : List ℕ) → IsPlain q → lookup fs k q ≡ find_child fs (some k) q
unfolding lookup finddir make_vfs_node
lookup_lem fs k q plain = elim (Option-cases (find_child fs (some k) q)) [
  | inl lost ↦ ground (arith, lost, plain.2)
  | inr (j, found) ↦ ground (arith, found, plain.2)
]

kind_cases : (k : Kind) → (k ≡ file) ⊎ (k ≡ directory)
kind_cases file = inl refl
kind_cases directory = inr refl

-- In a tmpfs the search of the virtual file system for a plain name is that of the directory.
pub finddir_lem :
    (fs : Fs) (k : ℕ) (q : List ℕ)
    → IsPlain q
    → vfs_finddir (nodes_of fs) k q ≡ find_child fs (some k) q
unfolding vfs_finddir find_child
finddir_lem fs k q plain = elim (kind_cases (fs.entry k).kind) [
  | inl f ↦ ground (arith, f)
  | inr e ↦ ground (arith, e, lookup_lem fs k q plain, find_child_lem fs k q e)
]

find_in-apart :
    (entry : ℕ → Entry) (cs q : List ℕ) (a j : ℕ)
    → All (λ c. c ≢ a) cs
    → find_in entry cs q ≡ some j
    → j ≢ a
unfolding find_in
find_in-apart entry [] q a j h e = absurd (ground (arith, e))
find_in-apart entry (c ∷ cs) q a j h e = elim (Bool-cases (matches (entry c).name q)) [
  | inl same ↦ ground (arith, same, e, h.0)
  | inr other ↦ find_in-apart entry cs q a j h.1 (ground (arith, other, e))
]

find_child-apart :
    (fs : Fs) (k : ℕ) (q : List ℕ) (a j : ℕ)
    → All (λ c. c ≢ a) (fs.entry k).children
    → find_child fs (some k) q ≡ some j
    → j ≢ a
unfolding find_child
find_child-apart fs k q a j h e = elim (kind_cases (fs.entry k).kind) [
  | inl f ↦ absurd (ground (arith, f, e))
  | inr dir ↦
      find_in-apart fs.entry (fs.entry k).children q a j h (sym (find_child_lem fs k q dir) ∙ e)
]

All-SameNames :
    (f g : ℕ → Entry) (a : ℕ) (cs : List ℕ)
    → ((k : ℕ) → k ≢ a → (g k).name ≡ (f k).name)
    → All (λ c. c ≢ a) cs
    → SameNames f g cs
All-SameNames f g a [] h away = tt
All-SameNames f g a (c ∷ cs) h away = (h c away.0, All-SameNames f g a cs h away.1)

module _ (fs : Fs) (d : ℕ) (name : List ℕ) (kind : Kind) (m : Memory) (a : ℕ) (v : IsSound fs d)
    (short : length name < 128) (fresh : IsFresh fs d m) (given : m.entry_at ≡ some a)
    (unused : (k : ℕ) → All (λ c. c ≢ a) (fs.entry k).children) (room : is_full fs d ≡ false)
    (absent : find_child fs (some d) name ≡ none) where
  pub now : Fs
  now = after fs d name kind m a v short fresh given

  pub adds : Adds fs now d a name
  unfolding now
  adds = with-Adds fs d name kind m a v short fresh given room absent

  pub now_run : added fs d name kind m ≡ (some a, now)
  unfolding now
  now_run = added_run fs d name kind m a v short fresh given

  find_child-other :
      (k : ℕ) (q : List ℕ) → k ≢ a → k ≢ d → find_child now (some k) q ≡ find_child fs (some k) q
  unfolding find_child now
  find_child-other k q away other =
      let e : now.entry k ≡ fs.entry k =
        after-other fs d name kind m a v short fresh given k other away in
      let names : SameNames fs.entry now.entry (fs.entry k).children =
        All-SameNames fs.entry now.entry a (fs.entry k).children
          (after-SameName fs d name kind m a v short fresh given) (unused k) in
      rw e (rw (find_in-same fs.entry now.entry (fs.entry k).children q names) refl)

  find_child-same :
      (q : List ℕ) (j : ℕ) → find_child fs (some d) q ≡ some j → find_child now (some d) q ≡ some j
  find_child-same q j h = elim (Bool-cases (matches name q)) [
    | inr other ↦ adds.found q ∙ ground (arith, other, h)
    | inl same ↦
        absurd
          (ground (arith, ap (find_child fs (some d)) ((matches_iff name q).0 same), absent, h))
  ]

  -- Every other directory finds what it found, and none of it is the new entry.
  pub grows :
      (k : ℕ) (q : List ℕ) (j : ℕ)
      → k ≢ a
      → IsPlain q
      → vfs_finddir (nodes_of fs) k q ≡ some j
      → (j ≢ a) × (vfs_finddir (nodes_of now) k q ≡ some j)
  grows k q j away plain h =
      (find_child-apart fs k q a j (unused k) there, finddir_lem now k q plain ∙ still)
    where
      there : find_child fs (some k) q ≡ some j
      there = sym (finddir_lem fs k q plain) ∙ h

      still : find_child now (some k) q ≡ some j
      still = elim (Bool-cases (k == d)) [
        | inr other ↦ find_child-other k q away (ground (arith, other)) ∙ there
        | inl same ↦
            let e : k ≡ d = ground (arith, same) in
            ap (λ x. find_child now (some x) q) e
            ∙ find_child-same q j (ap (λ x. find_child fs (some x) q) (sym e) ∙ there)
      ]
