-- ===== src/Tmpfs/Examples.antt =====
-- fs/tmpfs.c at concrete inputs.
use shadow_box_os.Common.Errno.{eio, ok, err, enoent, eexist}
use shadow_box_os.Common.{
  ◌++◌, ◌==◌, inl, inr, Bool-cases, ℕ, ◌≡◌, refl, true, ◌⊎◌, none, some, List, [], ◌∷◌, arith,
}
use shadow_box_os.Common.Text.{matches}
use shadow_box_os.Tmpfs.{file, directory, overrun, Fs, Memory, create_entry, new_entry, write}
use shadow_box_os.Tmpfs.Tree.{
  init, open_file, create_file_entry, entry_of, own_buffer, unlink_in, rename_entry, find_child,
  find_in, added, linked, make_vfs_node, is_full, rename,
}
use shadow_box_os.Tmpfs.Files.{
  read_at, write_at, file_run, content_run, empty, file_run-content_run, write_overrun,
  fresh-IsFile,
}
use shadow_box_os.Tmpfs.Directory.{IsFresh, Adds, Removes}
use shadow_box_os.Tmpfs.Removing.{unlink_in_lem}
use shadow_box_os.Tmpfs.Renaming.{Renames, rename_entry_lem}
use shadow_box_os.Vfs.{get_mount, resolve_path, at}
use shadow_box_os.Vfs.Walk.{walk, render, IsName}
use shadow_box_os.Vfs.Calls.{mkdir}
use shadow_box_os.Tmpfs.Mounted.{driver, nodes_of, create_func}
use shadow_box_os.Tmpfs.Mounted.Paths.{IsPlain}
use shadow_box_os.Tmpfs.Mounted.Mkdir.{IsUnused, mkdir_lem}
use shadow_box_os.Tmpfs.Reach.{
  opens, here, next, IsRoot, Reach-IsRoot, Step-IsRoot, init-IsRoot, renames,
}

abbrev boot_fs : Fs
boot_fs = record {
  entry = λ _. record {
    name = [];
    kind = file;
    buffer = none;
    file_length = 0;
    capacity = 0;
    parent = none;
    children = [];
    inode = 0;
  };
  next_inode = 10000;
  root = none;
}

abbrev memory_at : ℕ → Memory
memory_at a = record { entry_at = some a; buffer_given = true; node_given = true }

-- The names "a" and "b".
abbrev a_name : List ℕ
a_name = 97 ∷ []

abbrev b_name : List ℕ
b_name = 98 ∷ []

abbrev root_fs : Fs
root_fs = (init boot_fs (memory_at 1)).1

root_fs-IsRoot : IsRoot root_fs 1
root_fs-IsRoot = init-IsRoot boot_fs (memory_at 1) 1 refl

two-IsFresh : IsFresh root_fs 1 (memory_at 2)
unfolding init create_entry new_entry
two-IsFresh a e = (λ q. absurd (ground arith), tt)

abbrev one_file : Fs
one_file = (open_file root_fs a_name true (memory_at 2)).1

one_file-IsRoot : IsRoot one_file 1
one_file-IsRoot =
    Step-IsRoot (opens root_fs a_name true (memory_at 2) (omega arith) two-IsFresh) root_fs-IsRoot

file_run-content_run_example :
    file_run
      (new_entry a_name file (some 1) 10001 true)
      (write_at 2 (7 ∷ 8 ∷ []) ∷ read_at 0 9 ∷ [])
    ≡ some (content_run empty (write_at 2 (7 ∷ 8 ∷ []) ∷ read_at 0 9 ∷ []))
file_run-content_run_example =
    file_run-content_run a_name (some 1) 10001 (write_at 2 (7 ∷ 8 ∷ []) ∷ read_at 0 9 ∷ [])
      (omega arith)

unlink_in_lem_example :
    ((unlink_in one_file (some 1) a_name ≡ (err enoent, one_file))
      × ((find_child one_file (some 1) a_name ≡ none)
          ⊎ ((c : ℕ) × (find_child one_file (some 1) a_name ≡ some c)
              × ((one_file.entry c).kind ≡ directory))))
    ⊎ ((c : ℕ) × (fs' : Fs) × (find_child one_file (some 1) a_name ≡ some c)
        × ((one_file.entry c).kind ≡ file)
        × (unlink_in one_file (some 1) a_name
            ≡ (ok (own_buffer (one_file.entry c) c ++ entry_of c ∷ []), fs'))
        × Removes one_file fs' 1 a_name)
unlink_in_lem_example = unlink_in_lem one_file 1 a_name one_file-IsRoot.sound

rename_entry_lem_example :
    ((rename_entry one_file (some 1) a_name b_name ≡ (err enoent, one_file))
      × (find_child one_file (some 1) a_name ≡ none))
    ⊎ (((c : ℕ) × (b : ℕ) × (find_child one_file (some 1) a_name ≡ some c)
          × (find_child one_file (some 1) b_name ≡ some b)
          × (rename_entry one_file (some 1) a_name b_name ≡ (err eexist, one_file)))
        ⊎ ((c : ℕ) × (fs' : Fs) × (find_child one_file (some 1) a_name ≡ some c)
            × (rename_entry one_file (some 1) a_name b_name ≡ (ok [], fs'))
            × Renames one_file fs' 1 c a_name b_name))
rename_entry_lem_example =
    rename_entry_lem one_file 1 a_name b_name one_file-IsRoot.sound (omega arith)

Reach-IsRoot_example : IsRoot (rename one_file a_name b_name).1 1
Reach-IsRoot_example = Reach-IsRoot boot_fs (memory_at 1) refl (
    next (next here (opens root_fs a_name true (memory_at 2) (omega arith) two-IsFresh))
      (renames one_file a_name b_name (omega arith)))

-- The file is found under its new name.
renamed_found : find_child (rename one_file a_name b_name).1 (some 1) b_name ≡ some 2
unfolding init create_entry new_entry open_file create_file_entry is_full find_child find_in matches
    added linked rename rename_entry
renamed_found = refl

-- A file is made through its directory's node, and found again as the same.
made_twice :
    let (first, fs') = create_func (memory_at 2) root_fs 1 a_name in
    let (second, fs'') = create_func (memory_at 3) fs' 1 a_name in
    (first ≡ true) × (second ≡ true) × (find_child fs'' (some 1) a_name ≡ some 2)
unfolding create_func create_file_entry create_entry new_entry is_full find_child find_in matches
    added linked init make_vfs_node
made_twice = (refl, refl, refl)

write_overrun_example :
    write (new_entry a_name file (some 1) 10001 true) 1048575 (7 ∷ 8 ∷ []) true (λ k. true)
    ≡ overrun
write_overrun_example =
    write_overrun (new_entry a_name file (some 1) 10001 true) empty 1048575 (7 ∷ 8 ∷ []) true
      (λ k. true) (fresh-IsFile a_name (some 1) 10001) (omega arith) (omega arith)

a_name-IsName : IsName a_name
a_name-IsName = (omega arith, (omega arith, tt))

b_name-IsName : IsName b_name
b_name-IsName = (omega arith, (omega arith, tt))

a_name-IsPlain : IsPlain a_name
unfolding matches
a_name-IsPlain = (omega arith, refl, refl)

b_name-IsPlain : IsPlain b_name
unfolding matches
b_name-IsPlain = (omega arith, refl, refl)

nothing_mounted : get_mount [] (render (a_name ∷ []) ++ 47 ∷ b_name) ≡ none
unfolding get_mount
nothing_mounted = refl

two-IsUnused : (a : ℕ) → (memory_at 2).entry_at ≡ some a → IsUnused [] 1 root_fs a
unfolding init create_entry new_entry get_mount
two-IsUnused a e = record {
  not_root = ground (arith, e);
  not_mounted = λ p k q. absurd (ground (arith, q));
  not_child = λ k. elim (Bool-cases (k == 1)) [
    | inl same ↦ ground (arith, same)
    | inr other ↦ ground (arith, other)
  ];
}

root_walk : walk (nodes_of root_fs) [] [] 1 (a_name ∷ []) ≡ at (some 1) (some a_name)
unfolding walk get_mount matches
root_walk = refl

-- "/a" is made, and "/a/b" leads to it.
mkdir_lem_example :
    ((mkdir (driver (memory_at 2)) 3 [] 1 (render (a_name ∷ [])) none root_fs
        ≡ some (err eio, root_fs))
      × ((is_full root_fs 1 ≡ true)
          ⊎ (((c : ℕ) × (find_child root_fs (some 1) a_name ≡ some c))
              ⊎ ((memory_at 2).entry_at ≡ none))))
    ⊎ ((a : ℕ) × (fs' : Fs) × ((memory_at 2).entry_at ≡ some a)
        × (mkdir (driver (memory_at 2)) 3 [] 1 (render (a_name ∷ [])) none root_fs
            ≡ some (ok 0, fs'))
        × Adds root_fs fs' 1 a a_name
        × (resolve_path 5 (nodes_of fs') [] 1 (render (a_name ∷ b_name ∷ [])) none
            ≡ at (some a) (some b_name)))
mkdir_lem_example =
    mkdir_lem 3 5 [] 1 none root_fs (memory_at 2) a_name [] 1 a_name b_name (a_name-IsName, tt)
      b_name-IsName (a_name-IsPlain, tt) b_name-IsPlain a_name-IsPlain (omega arith) (omega arith)
      (omega arith) (omega arith) nothing_mounted root_walk root_fs-IsRoot.sound two-IsFresh refl
      two-IsUnused
