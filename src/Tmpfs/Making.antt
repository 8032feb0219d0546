-- ===== src/Tmpfs/Making.antt =====
-- fs/tmpfs.c: making entries of a directory, on every branch.
use shadow_box_os.Common.{
  ℕ, ◌<◌, ◌≡◌, refl, true, false, ◌⊎◌, inl, inr, Bool-cases, Option-cases, none, some, List, length,
  arith,
}
use shadow_box_os.Tmpfs.{Fs, Memory, Kind, file, directory, create_entry}
use shadow_box_os.Tmpfs.Tree.{find_child, added, is_full, mkdir_entry, create_file_entry}
use shadow_box_os.Tmpfs.Directory.{IsSound, IsFresh, Adds, after, with-Adds, added_run}

module _ (fs : Fs) (d : ℕ) (name : List ℕ) (m : Memory) (v : IsSound fs d)
    (short : length name < 128) (fresh : IsFresh fs d m) where
  -- The new entry, once there is room and the name is free.
  added_lem :
      (kind : Kind)
      → is_full fs d ≡ false
      → find_child fs (some d) name ≡ none
      → ((m.entry_at ≡ none) × (added fs d name kind m ≡ (none, fs)))
        ⊎ ((a : ℕ) × (fs' : Fs) × (m.entry_at ≡ some a)
            × (added fs d name kind m ≡ (some a, fs'))
            × Adds fs fs' d a name)
  unfolding added create_entry
  added_lem kind room new = elim (Option-cases (m.entry_at)) [
    | inl no_memory ↦ inl (no_memory, ground (arith, no_memory))
    | inr (a, given) ↦ inr (
      a,
      after fs d name kind m a v short fresh given,
      given,
      added_run fs d name kind m a v short fresh given,
      with-Adds fs d name kind m a v short fresh given room new,
    )
  ]

  -- For a name of at most 127 characters and fresh memory, tmpfs_mkdir_entry fails, and changes
  -- nothing, if the directory has 256 entries, has the name already or gets no memory, and otherwise
  -- adds the entry under the name, where the search finds it; all other names are found as before.
  pub mkdir_entry_lem :
      ((mkdir_entry fs (some d) name m ≡ (none, fs))
        × ((is_full fs d ≡ true)
            ⊎ (((c : ℕ) × (find_child fs (some d) name ≡ some c)) ⊎ (m.entry_at ≡ none))))
      ⊎ ((a : ℕ) × (fs' : Fs) × (m.entry_at ≡ some a)
          × (find_child fs (some d) name ≡ none)
          × (mkdir_entry fs (some d) name m ≡ (some a, fs'))
          × Adds fs fs' d a name)
  unfolding mkdir_entry
  mkdir_entry_lem = elim (Bool-cases (is_full fs d)) [
    | inl full ↦ inl (rw full refl, inl full)
    | inr room ↦ elim (Option-cases (find_child fs (some d) name)) [
      | inr (c, old) ↦ inl (ground (arith, room, old), inr (inl (c, old)))
      | inl new ↦ elim (added_lem directory room new) [
        | inl (no_memory, run) ↦ inl (ground (arith, room, new, run), inr (inr no_memory))
        | inr (a, fs', given, run, adds) ↦
            inr (a, fs', given, new, ground (arith, room, new, run), adds)
      ]
    ]
  ]

  -- For a name of at most 127 characters and fresh memory, tmpfs_create_file_entry fails, and changes
  -- nothing, if the directory has 256 entries, even if the name is one of them, or gets no memory; it
  -- gives the entry that has the name, whatever it is, with no change; and otherwise it adds one.
  pub create_file_entry_lem :
      ((create_file_entry fs (some d) name m ≡ (none, fs))
        × ((is_full fs d ≡ true) ⊎ (m.entry_at ≡ none)))
      ⊎ (((c : ℕ) × (find_child fs (some d) name ≡ some c)
            × (create_file_entry fs (some d) name m ≡ (some c, fs)))
          ⊎ ((a : ℕ) × (fs' : Fs) × (m.entry_at ≡ some a)
              × (find_child fs (some d) name ≡ none)
              × (create_file_entry fs (some d) name m ≡ (some a, fs'))
              × Adds fs fs' d a name))
  unfolding create_file_entry
  create_file_entry_lem = elim (Bool-cases (is_full fs d)) [
    | inl full ↦ inl (rw full refl, inl full)
    | inr room ↦ elim (Option-cases (find_child fs (some d) name)) [
      | inr (c, old) ↦ inr (inl (c, old, ground (arith, room, old)))
      | inl new ↦ elim (added_lem file room new) [
        | inl (no_memory, run) ↦ inl (ground (arith, room, new, run), inr no_memory)
        | inr (a, fs', given, run, adds) ↦
            inr (inr (a, fs', given, new, ground (arith, room, new, run), adds))
      ]
    ]
  ]
