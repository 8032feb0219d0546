-- ===== src/Tmpfs/Tree.antt =====
-- fs/tmpfs.c: directories, the calls on the root, and the nodes that stand for entries.
use shadow_box_os.Common.Errno.{Result, ok, err, enoent, eio, eexist, enodev, enotempty}
use shadow_box_os.Common.{
  ℕ, ◌-◌, Bool, not, Option, none, some, List, [], ◌∷◌, ◌++◌, length, take, get_elem?, ltb, leb,
  if◌then◌else◌,
}
use shadow_box_os.Common.Text.{matches}
use shadow_box_os.Tmpfs.{
  Kind, file, directory, is_directory, Entry, Fs, Memory, max_entries, max_name, update,
  create_entry,
}

unfoldable pub find_in : (ℕ → Entry) → List ℕ → List ℕ → Option ℕ
find_in entry [] name = none
find_in entry (c ∷ cs) name = if matches (entry c).name name then some c else find_in entry cs name

unfoldable pub find_child : Fs → Option ℕ → List ℕ → Option ℕ
find_child fs none name = none
find_child fs (some d) name =
    if is_directory (fs.entry d).kind then find_in fs.entry (fs.entry d).children name else none

-- `dir->children[dir->child_count++] = e`
unfoldable pub linked : Fs → ℕ → ℕ → Fs
linked fs d c = let e = fs.entry d in update fs d (record e { children = e.children ++ c ∷ [] })

-- A new entry in the directory, once the checks are made.
unfoldable pub added : Fs → ℕ → List ℕ → Kind → Memory → Option ℕ × Fs
added fs d name kind m = elim (create_entry fs name kind (some d) m) [
  | none ↦ (none, fs)
  | some (c, fs') ↦ (some c, linked fs' d c)
]

unfoldable pub is_full : Fs → ℕ → Bool
is_full fs d = leb max_entries (length (fs.entry d).children)

unfoldable pub mkdir_entry : Fs → Option ℕ → List ℕ → Memory → Option ℕ × Fs
mkdir_entry fs none name m = (none, fs)
mkdir_entry fs (some d) name m =
    if is_full fs d then (none, fs) else elim (find_child fs (some d) name) [
      | some c ↦ (none, fs)
      | none ↦ added fs d name directory m
    ]

unfoldable pub create_file_entry : Fs → Option ℕ → List ℕ → Memory → Option ℕ × Fs
create_file_entry fs none name m = (none, fs)
create_file_entry fs (some d) name m =
    if is_full fs d then (none, fs) else elim (find_child fs (some d) name) [
      | some c ↦ (some c, fs)
      | none ↦ added fs d name file m
    ]

-- The first child with the name, and the others in their order.
unfoldable pub split_child : (ℕ → Entry) → List ℕ → List ℕ → Option (ℕ × List ℕ)
split_child entry [] name = none
split_child entry (c ∷ cs) name =
    let rest = split_child entry cs name in
    if matches (entry c).name name
    then some (c, cs)
    else elim rest [ none ↦ none | some (a, ds) ↦ some (a, c ∷ ds) ]

-- What is given to kfree: the buffer of the entry at an address, or the entry.
pub data Freed : Type 0 where
  buffer_of entry_of : ℕ → Freed

abbrev pub own_buffer : Entry → ℕ → List Freed
own_buffer e c = elim (e.buffer) [ none ↦ [] | some bytes ↦ buffer_of c ∷ [] ]

unfoldable pub freed_children : (ℕ → Entry) → List ℕ → List Freed
freed_children entry [] = []
freed_children entry (c ∷ cs) = own_buffer (entry c) c ++ (entry_of c ∷ freed_children entry cs)

-- What is freed with the entry at `c`, in order: its buffer, the children of a directory, each behind
-- its buffer, and the entry.
unfoldable pub freed_with : Fs → ℕ → List Freed
freed_with fs c =
    let e = fs.entry c in
    let children = freed_children fs.entry e.children in
    own_buffer e c ++ (if is_directory e.kind then children ++ entry_of c ∷ [] else entry_of c ∷ [])

-- The answer, what is freed, and the file system after.
unfoldable pub remove_entry : Fs → Option ℕ → List ℕ → Result (List Freed) × Fs
remove_entry fs none name = (err eio, fs)
remove_entry fs (some d) name =
    let e = fs.entry d in
    elim (split_child fs.entry e.children name) [
      | none ↦ (err enoent, fs)
      | some (c, cs) ↦ (ok (freed_with fs c), update fs d (record e { children = cs }))
    ]

unfoldable pub rename_entry : Fs → Option ℕ → List ℕ → List ℕ → Result (List Freed) × Fs
rename_entry fs dir oldname newname = elim (find_child fs dir oldname) [
  | none ↦ (err enoent, fs)
  | some c ↦ elim (find_child fs dir newname) [
    | some _ ↦ (err eexist, fs)
    | none ↦ (ok [], update fs c (record (fs.entry c) { name = take (max_name - 1) newname }))
  ]
]

-- The checks that rmdir makes on the entry it found.
unfoldable pub rmdir_in : Fs → Option ℕ → List ℕ → Result (List Freed) × Fs
rmdir_in fs dir name = elim (find_child fs dir name) [
  | none ↦ (err enoent, fs)
  | some c ↦
      if not (is_directory (fs.entry c).kind)
      then (err enoent, fs)
      else if ltb 0 (length (fs.entry c).children)
      then (err enotempty, fs)
      else remove_entry fs dir name
]

unfoldable pub unlink_in : Fs → Option ℕ → List ℕ → Result (List Freed) × Fs
unlink_in fs dir name = elim (find_child fs dir name) [
  | none ↦ (err enoent, fs)
  | some c ↦ if is_directory (fs.entry c).kind then (err enoent, fs) else remove_entry fs dir name
]

-- The calls on the root: mkdir, rmdir, unlink, rename, open and access.
unfoldable pub mkdir : Fs → List ℕ → Memory → Result (List Freed) × Fs
mkdir fs path m = elim (fs.root) [
  | none ↦ (err enodev, fs)
  | some d ↦
      let (made, fs') = mkdir_entry fs (some d) path m in
      (elim made [ some c ↦ ok [] | none ↦ err eio ], fs')
]

abbrev pub on_root : (Fs → Option ℕ → Result (List Freed) × Fs) → Fs → Result (List Freed) × Fs
on_root f fs = elim (fs.root) [ none ↦ (err enodev, fs) | some d ↦ f fs (some d) ]

unfoldable pub rmdir : Fs → List ℕ → Result (List Freed) × Fs
rmdir fs path = on_root (λ fs d. rmdir_in fs d path) fs

unfoldable pub unlink : Fs → List ℕ → Result (List Freed) × Fs
unlink fs path = on_root (λ fs d. unlink_in fs d path) fs

unfoldable pub rename : Fs → List ℕ → List ℕ → Result (List Freed) × Fs
rename fs oldpath newpath = on_root (λ fs d. rename_entry fs d oldpath newpath) fs

unfoldable pub access : Fs → List ℕ → Result (List Freed)
access fs path = elim (fs.root) [
  | none ↦ err enodev
  | some d ↦ elim (find_child fs (some d) path) [ some c ↦ ok [] | none ↦ err enoent ]
]

-- The node of an entry; `impl` is the address of the entry, or `none` for a null pointer.
pub record Node : Type 0 where
  pub name : List ℕ
  pub kind : Kind
  pub inode : ℕ
  pub node_length : ℕ
  pub impl : Option ℕ

unfoldable pub make_vfs_node : Fs → ℕ → Bool → Option Node
make_vfs_node fs c given =
    let e = fs.entry c in
    if given
    then some (record {
      name = take 127 e.name;
      kind = e.kind;
      inode = e.inode;
      node_length = e.file_length;
      impl = some c;
    })
    else none

abbrev pub node_of : Fs → Option ℕ → Bool → Option Node
node_of fs none given = none
node_of fs (some c) given = make_vfs_node fs c given

-- `creates` is the flag 0x100.
unfoldable pub open_file : Fs → List ℕ → Bool → Memory → Option Node × Fs
open_file fs name creates m = elim (fs.root) [
  | none ↦ (none, fs)
  | some d ↦
      let (made, fs') = create_file_entry fs (some d) name m in
      if creates
      then (node_of fs' made m.node_given, fs')
      else (node_of fs (find_child fs (some d) name) m.node_given, fs)
]

abbrev pub dot_dot : List ℕ
dot_dot = 46 ∷ 46 ∷ []

abbrev pub parent_or : Fs → ℕ → ℕ
parent_or fs d = elim (fs.entry d).parent [ none ↦ d | some p ↦ p ]

unfoldable pub finddir : Fs → Node → List ℕ → Bool → Option Node
finddir fs n name given = elim (n.impl) [
  | none ↦ none
  | some d ↦
      if matches name dot_dot
      then make_vfs_node fs (parent_or fs d) given
      else node_of fs (find_child fs (some d) name) given
]

-- The name and the number of the entry at an index.
unfoldable pub readdir : Fs → Node → ℕ → Bool → Option (List ℕ × ℕ)
readdir fs n index given = elim (n.impl) [
  | none ↦ none
  | some d ↦ elim (get_elem? (fs.entry d).children index) [
    | none ↦ none
    | some c ↦ if given then some (take 127 (fs.entry c).name, (fs.entry c).inode) else none
  ]
]

-- tmpfs_init: the root is made with the name "/", and its node if there is memory for it.
unfoldable pub init : Fs → Memory → Option Node × Fs
init fs m = elim (create_entry fs (47 ∷ []) directory none m) [
  | none ↦ (none, record fs { root = none })
  | some (a, fs') ↦ (
    if m.node_given
        then some (record {
          name = 116 ∷ 109 ∷ 112 ∷ 102 ∷ 115 ∷ [];
          kind = directory;
          inode = (fs'.entry a).inode;
          node_length = 0;
          impl = some a;
        })
        else none,
    record fs' { root = some a },
  )
]
