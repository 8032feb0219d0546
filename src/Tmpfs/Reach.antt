-- ===== src/Tmpfs/Reach.antt =====
-- fs/tmpfs.c: the root directory over any sequence of calls.
use shadow_box_os.Common.{
  ℕ, ◌<◌, ◌≡◌, refl, ap, sym, subst, ◌∙◌, Bool, true, false, inl, inr, Bool-cases, Option-cases,
  none, some, List, [], ◌∷◌, length, arith, ◌+◌, ◌%◌, ◌^◌, replicate,
}
use shadow_box_os.Tmpfs.{
  Entry, done, Fs, Memory, grow, update, directory, write, written, stored, create_entry, new_entry,
}
use shadow_box_os.Tmpfs.Tree.{init, mkdir, open_file, rmdir, unlink, rename}
use shadow_box_os.Tmpfs.Names.{SameNames, Distinct-same}
use shadow_box_os.Tmpfs.Directory.{IsSound, IsFresh, Adds, Removes}
use shadow_box_os.Tmpfs.Making.{mkdir_entry_lem, create_file_entry_lem}
use shadow_box_os.Tmpfs.Removing.{rmdir_in_lem, unlink_in_lem}
use shadow_box_os.Tmpfs.Renaming.{rename_entry_lem}

-- One call on a file system: names have at most 127 characters and memory is fresh.
pub data Step (d : ℕ) : Fs → Fs → Type 0 where
  makes :
      (fs : Fs) (path : List ℕ) (m : Memory)
      → length path < 128
      → IsFresh fs d m
      → Step d fs (mkdir fs path m).1
  opens :
      (fs : Fs) (name : List ℕ) (creates : Bool) (m : Memory)
      → length name < 128
      → IsFresh fs d m
      → Step d fs (open_file fs name creates m).1
  removes_dir : (fs : Fs) (path : List ℕ) → Step d fs (rmdir fs path).1
  removes_file : (fs : Fs) (path : List ℕ) → Step d fs (unlink fs path).1
  renames :
      (fs : Fs) (oldpath newpath : List ℕ)
      → length newpath < 128
      → Step d fs (rename fs oldpath newpath).1
  writes :
      (fs : Fs) (c offset n : ℕ) (source : List ℕ) (first : Bool) (given : ℕ → Bool) (e : Entry)
      → write (fs.entry c) offset source first given ≡ done n e
      → Step d fs (update fs c e)

pub data Reach (d : ℕ) (fs : Fs) : Fs → Type 0 where
  here : Reach d fs fs
  next : {fs' fs'' : Fs} → Reach d fs fs' → Step d fs' fs'' → Reach d fs fs''

pub record IsRoot (fs : Fs) (d : ℕ) : Type 0 where
  pub root_is : fs.root ≡ some d
  pub sound : IsSound fs d

-- A write leaves what the directories look at.
abbrev SameHead : Entry → Entry → Type 0
SameHead e e' = (e'.name ≡ e.name) × (e'.kind ≡ e.kind) × (e'.children ≡ e.children)

stored-SameHead :
    (e : Entry) (offset n : ℕ) (source : List ℕ) (g : List ℕ × ℕ) (e' : Entry)
    → stored e offset source g ≡ done n e'
    → SameHead e e'
unfolding stored
stored-SameHead e offset n source (bytes, capacity) e' h = ground arith

written-SameHead :
    (e : Entry) (offset n : ℕ) (source : List ℕ) (given : ℕ → Bool) (e' : Entry)
    → written e offset source given ≡ done n e'
    → SameHead e e'
unfolding written
written-SameHead e offset n source given e' h = elim (Option-cases (e.buffer)) [
  | inl empty ↦ ground (arith, empty)
  | inr (bytes, held) ↦
      elim (Option-cases
        (grow 9 given ((offset + length source) % 2 ^ 32) e.file_length e.capacity bytes)) [
          | inl stuck ↦ ground (arith, held, stuck)
          | inr (g, run) ↦ stored-SameHead e offset n source g e' (ground (arith, held, run))
        ]
]

write-SameHead :
    (e : Entry) (offset n : ℕ) (source : List ℕ) (first : Bool) (given : ℕ → Bool) (e' : Entry)
    → write e offset source first given ≡ done n e'
    → SameHead e e'
unfolding write
write-SameHead e offset n source first given e' h = elim (Option-cases (e.buffer)) [
  | inr (bytes, held) ↦ written-SameHead e offset n source given e' (ground (arith, held))
  | inl empty ↦ elim (Bool-cases first) [
    | inl got ↦ written-SameHead _ offset n source given e' (go got empty)
    | inr no_memory ↦ ground (arith, empty, no_memory)
  ]
]
  where
    go :
        first ≡ true
        → e.buffer ≡ none
        → written
            (record e { buffer = some (replicate 4096 0); capacity = 4096 })
            offset
            source
            given
          ≡ done n e'
    go got empty = ground (arith, got, empty)

update-IsSound :
    (fs : Fs) (d c : ℕ) (e : Entry)
    → SameHead (fs.entry c) e
    → IsSound fs d
    → IsSound (update fs c e) d
update-IsSound fs d c e h v = record {
  is_dir = now_kind ∙ v.is_dir;
  room = rw now_children v.room;
  apart = rw now_children v.apart;
  distinct =
      rw now_children
        (Distinct-same fs.entry (update fs c e).entry (fs.entry d).children (same _) v.distinct);
}
  where
    now_kind : ((update fs c e).entry d).kind ≡ (fs.entry d).kind
    now_kind = ground (arith, h, ap (λ x. (fs.entry x).kind))

    now_children : ((update fs c e).entry d).children ≡ (fs.entry d).children
    now_children = ground (arith, h)

    same : (cs : List ℕ) → SameNames fs.entry (update fs c e).entry cs
    same [] = tt
    same (x ∷ cs) = (ground (arith, h), same cs)

moved : {fs fs' : Fs} (d : ℕ) → fs' ≡ fs → IsRoot fs d → IsRoot fs' d
moved d e v = subst (λ x. IsRoot x d) (sym e) v

module _ (fs : Fs) (d : ℕ) (v : IsRoot fs d) where
  added-IsRoot : {fs' : Fs} (c : ℕ) (name : List ℕ) → Adds fs fs' d c name → IsRoot fs' d
  added-IsRoot c name a = record { root_is = a.same_root ∙ v.root_is; sound = a.sound }

  removed-IsRoot : {fs' : Fs} (name : List ℕ) → Removes fs fs' d name → IsRoot fs' d
  removed-IsRoot name r = record { root_is = r.same_root ∙ v.root_is; sound = r.sound }

  makes-IsRoot :
      (path : List ℕ) (m : Memory)
      → length path < 128
      → IsFresh fs d m
      → IsRoot (mkdir fs path m).1 d
  unfolding mkdir
  makes-IsRoot path m short fresh = elim (mkdir_entry_lem fs d path m v.sound short fresh) [
    | inl (same, _) ↦ moved d (ground (arith, v.root_is, same)) v
    | inr (a, fs', _, _, run, adds) ↦
        moved d (ground (arith, v.root_is, run)) (added-IsRoot a path adds)
  ]

  opens-IsRoot :
      (name : List ℕ) (creates : Bool) (m : Memory)
      → length name < 128
      → IsFresh fs d m
      → IsRoot (open_file fs name creates m).1 d
  unfolding open_file
  opens-IsRoot name false m short fresh = moved d (ground (arith, v.root_is)) v
  opens-IsRoot name true m short fresh =
      elim (create_file_entry_lem fs d name m v.sound short fresh) [
        | inl (same, _) ↦ moved d (ground (arith, v.root_is, same)) v
        | inr (inl (c, _, same)) ↦ moved d (ground (arith, v.root_is, same)) v
        | inr (inr (a, fs', _, _, run, adds)) ↦
            moved d (ground (arith, v.root_is, run)) (added-IsRoot a name adds)
      ]

  removes_dir-IsRoot : (path : List ℕ) → IsRoot (rmdir fs path).1 d
  unfolding rmdir
  removes_dir-IsRoot path = elim (rmdir_in_lem fs d path v.sound) [
    | inl (same, _) ↦ moved d (ground (arith, v.root_is, same)) v
    | inr (inl (c, _, _, same)) ↦ moved d (ground (arith, v.root_is, same)) v
    | inr (inr (c, fs', _, _, run, r)) ↦
        moved d (ground (arith, v.root_is, run)) (removed-IsRoot path r)
  ]

  removes_file-IsRoot : (path : List ℕ) → IsRoot (unlink fs path).1 d
  unfolding unlink
  removes_file-IsRoot path = elim (unlink_in_lem fs d path v.sound) [
    | inl (same, _) ↦ moved d (ground (arith, v.root_is, same)) v
    | inr (c, fs', _, _, run, r) ↦ moved d (ground (arith, v.root_is, run)) (removed-IsRoot path r)
  ]

  renames-IsRoot :
      (oldpath newpath : List ℕ) → length newpath < 128 → IsRoot (rename fs oldpath newpath).1 d
  unfolding rename
  renames-IsRoot oldpath newpath short =
      elim (rename_entry_lem fs d oldpath newpath v.sound short) [
        | inl (same, _) ↦ moved d (ground (arith, v.root_is, same)) v
        | inr (inl (c, b, _, _, same)) ↦ moved d (ground (arith, v.root_is, same)) v
        | inr (inr (c, fs', _, run, r)) ↦
            moved d (ground (arith, v.root_is, run))
              (record { root_is = r.same_root ∙ v.root_is; sound = r.sound })
      ]

pub Step-IsRoot : {d : ℕ} {fs fs' : Fs} → Step d fs fs' → IsRoot fs d → IsRoot fs' d
Step-IsRoot {d} (makes fs path m short fresh) v = makes-IsRoot fs d v path m short fresh
Step-IsRoot {d} (opens fs name creates m short fresh) v =
    opens-IsRoot fs d v name creates m short fresh
Step-IsRoot {d} (removes_dir fs path) v = removes_dir-IsRoot fs d v path
Step-IsRoot {d} (removes_file fs path) v = removes_file-IsRoot fs d v path
Step-IsRoot {d} (renames fs oldpath newpath short) v = renames-IsRoot fs d v oldpath newpath short
Step-IsRoot {d} (writes fs c offset n source first given e h) v = record {
  root_is = v.root_is;
  sound =
      update-IsSound fs d c e (write-SameHead (fs.entry c) offset n source first given e h) v.sound;
}

pub init-IsRoot : (fs : Fs) (m : Memory) (d : ℕ) → m.entry_at ≡ some d → IsRoot (init fs m).1 d
unfolding init create_entry new_entry
init-IsRoot fs m d given = moved d run (record {
  root_is = refl;
  sound = record {
    is_dir = ground arith;
    room = rw empty (omega arith);
    apart = rw empty tt;
    distinct = rw empty tt;
  };
})
  where
    rooted : Fs
    rooted =
        record (update fs d (new_entry (47 ∷ []) directory none fs.next_inode m.buffer_given)) {
          next_inode = (fs.next_inode + 1) % 2 ^ 32;
          root = some d;
        }

    run : (init fs m).1 ≡ rooted
    run = ground (arith, given)

    empty : (rooted.entry d).children ≡ []
    empty = ground arith

-- After tmpfs_init with memory for the root, over any sequence of calls of mkdir, open, rmdir, unlink
-- and rename on it with names of at most 127 characters and with memory that is not in use, and of
-- writes that stay in their buffers, the root is a directory of at most 256 entries, none of them
-- itself, and no two entries have the same name.
pub Reach-IsRoot :
    (fs : Fs) (m : Memory) {d : ℕ} {fs' : Fs}
    → m.entry_at ≡ some d
    → Reach d (init fs m).1 fs'
    → IsRoot fs' d
Reach-IsRoot fs m {d} given here = init-IsRoot fs m d given
Reach-IsRoot fs m given (next r st) = Step-IsRoot st (Reach-IsRoot fs m given r)
