-- ===== src/Tmpfs/Removing.antt =====
-- fs/tmpfs.c: removing entries of a directory, on every branch.
use shadow_box_os.Common.Errno.{ok, err, enoent, enotempty}
use shadow_box_os.Common.{
  ◌++◌, ℕ, ◌<◌, ◌≡◌, refl, ap, sym, ◌∙◌, ◌⊎◌, inl, inr, Option-cases, none, some, List, [], ◌∷◌,
  length, if◌then◌else◌, arith,
}
use shadow_box_os.Common.Text.{matches}
use shadow_box_os.Tmpfs.{Entry, Fs, Kind, file, directory, update}
use shadow_box_os.Tmpfs.Tree.{
  find_in, find_child, entry_of, own_buffer, freed_children, freed_with, remove_entry, rmdir_in,
  unlink_in,
}
use shadow_box_os.Tmpfs.Names.{
  find_in-same, split_child_lem, Removed, Distinct-same, SameNames, SameNames-update,
}
use shadow_box_os.Tmpfs.Directory.{IsSound, Removes, find_child_lem}

Kind-cases : (k : Kind) → (k ≡ directory) ⊎ (k ≡ file)
Kind-cases directory = inl refl
Kind-cases file = inr refl

empty-or-more : (xs : List ℕ) → (xs ≡ []) ⊎ (0 < length xs)
empty-or-more [] = inl refl
empty-or-more (x ∷ xs) = inr (omega arith)

module _ (fs : Fs) (d : ℕ) (name : List ℕ) (v : IsSound fs d) where
  without : List ℕ → Fs
  without rest = update fs d (record (fs.entry d) { children = rest })

  without-entry :
      (rest : List ℕ) → ((without rest).entry d) ≡ record (fs.entry d) { children = rest }
  unfolding without
  without-entry rest = ground arith

  without-Removes :
      (c : ℕ) (rest : List ℕ)
      → Removed fs.entry (fs.entry d).children name c rest
      → Removes fs (without rest) d name
  unfolding without
  without-Removes c rest r = record {
    found = λ q.
        find_child_lem (without rest) d q kind
        ∙ ap (λ l. find_in (without rest).entry l q) children
        ∙ find_in-same fs.entry (without rest).entry rest q same
        ∙ r.others q
        ∙ ap (λ o. if matches name q then none else o) (sym (find_child_lem fs d q v.is_dir));
    sound = record {
      is_dir = kind;
      room = rw children (omega (arith, r.fewer, v.room));
      apart = rw children (r.apart d v.apart);
      distinct = rw children (Distinct-same fs.entry (without rest).entry rest same r.distinct);
    };
    same_root = refl;
  }
    where
      same : SameNames fs.entry (without rest).entry rest
      same = SameNames-update fs.entry d _ rest (r.apart d v.apart)

      kind : ((without rest).entry d).kind ≡ directory
      kind = ap (λ (e : Entry). e.kind) (without-entry rest) ∙ v.is_dir

      children : ((without rest).entry d).children ≡ rest
      children = ap (λ (e : Entry). e.children) (without-entry rest)

  -- tmpfs_remove_entry takes out the entry that the search finds, and frees it.
  remove_entry_lem :
      (c : ℕ)
      → find_child fs (some d) name ≡ some c
      → (fs' : Fs) × (remove_entry fs (some d) name ≡ (ok (freed_with fs c), fs'))
        × Removes fs fs' d name
  unfolding remove_entry without
  remove_entry_lem c found =
      let (rest, run, r) =
        split_child_lem fs.entry (fs.entry d).children name c v.distinct
          (sym (find_child_lem fs d name v.is_dir) ∙ found) in
      (without rest, ground (arith, run), without-Removes c rest r)

  -- In a sound directory unlink says ENOENT, and changes nothing, if no entry has the name or the one
  -- that has it is a directory, and otherwise frees that entry, behind its buffer if it has one, and
  -- nothing else, and takes it out: the name is not found any more, all others are found as before, and
  -- the directory stays sound.
  pub unlink_in_lem :
      ((unlink_in fs (some d) name ≡ (err enoent, fs))
        × ((find_child fs (some d) name ≡ none)
            ⊎ ((c : ℕ) × (find_child fs (some d) name ≡ some c) × ((fs.entry c).kind ≡ directory))))
      ⊎ ((c : ℕ) × (fs' : Fs) × (find_child fs (some d) name ≡ some c)
          × ((fs.entry c).kind ≡ file)
          × (unlink_in fs (some d) name ≡ (ok (own_buffer (fs.entry c) c ++ entry_of c ∷ []), fs'))
          × Removes fs fs' d name)
  unfolding unlink_in freed_with freed_children
  unlink_in_lem = elim (Option-cases (find_child fs (some d) name)) [
    | inl absent ↦ inl (ground (arith, absent), inl absent)
    | inr (c, found) ↦ elim (Kind-cases ((fs.entry c).kind)) [
      | inl is_dir ↦ inl (ground (arith, found, is_dir), inr (c, found, is_dir))
      | inr is_file ↦
          let (fs', run, removes) = remove_entry_lem c found in
          inr (c, fs', found, is_file, ground (arith, found, is_file, run), removes)
    ]
  ]

  -- In a sound directory rmdir says ENOENT if no entry has the name or the one that has it is a file,
  -- ENOTEMPTY if it has entries of its own, and changes nothing then; otherwise it frees that entry,
  -- behind its buffer if it has one, and nothing else, and takes it out.
  pub rmdir_in_lem :
      ((rmdir_in fs (some d) name ≡ (err enoent, fs))
        × ((find_child fs (some d) name ≡ none)
            ⊎ ((c : ℕ) × (find_child fs (some d) name ≡ some c) × ((fs.entry c).kind ≡ file))))
      ⊎ (((c : ℕ) × (find_child fs (some d) name ≡ some c)
            × (0 < length (fs.entry c).children)
            × (rmdir_in fs (some d) name ≡ (err enotempty, fs)))
          ⊎ ((c : ℕ) × (fs' : Fs) × (find_child fs (some d) name ≡ some c)
              × ((fs.entry c).children ≡ [])
              × (rmdir_in fs (some d) name
                  ≡ (ok (own_buffer (fs.entry c) c ++ entry_of c ∷ []), fs'))
              × Removes fs fs' d name))
  unfolding rmdir_in freed_with freed_children
  rmdir_in_lem = elim (Option-cases (find_child fs (some d) name)) [
    | inl absent ↦ inl (ground (arith, absent), inl absent)
    | inr (c, found) ↦ elim (Kind-cases ((fs.entry c).kind)) [
      | inr is_file ↦ inl (ground (arith, found, is_file), inr (c, found, is_file))
      | inl is_dir ↦ elim (empty-or-more ((fs.entry c).children)) [
        | inr some_left ↦ inr (inl (c, found, some_left, ground (arith, found, is_dir, some_left)))
        | inl empty ↦
            let (fs', run, removes) = remove_entry_lem c found in
            inr (inr (c, fs', found, empty, ground (arith, found, is_dir, empty, run), removes))
      ]
    ]
  ]
