-- ===== src/Tmpfs/Mounted.antt =====
-- fs/tmpfs.c behind kernel/vfs.c: the functions that a node of a tmpfs has. The number of a node is
-- the address of its entry.
pub mod Grows
pub mod Paths
pub mod Mkdir
use shadow_box_os.Common.Errno.{Result, ok, err}
use shadow_box_os.Common.{ℕ, Bool, true, false, Option, none, some, List, [], ◌∷◌, if◌then◌else◌}
use shadow_box_os.Vfs
use shadow_box_os.Vfs.Calls.{Driver}
use shadow_box_os.Tmpfs.{Kind, file, directory, Fs, Memory, is_directory}
use shadow_box_os.Tmpfs.Tree.{
  Node, Freed, make_vfs_node, finddir, mkdir_entry, create_file_entry, rmdir_in, unlink_in, node_of,
}

abbrev pub flag_of : Kind → ℕ
flag_of file = 1
flag_of directory = 2

-- Memory for the node is given while a path is walked.
unfoldable pub lookup : Fs → ℕ → List ℕ → Option ℕ
lookup fs c name = elim (make_vfs_node fs c true) [
  | none ↦ none
  | some n ↦ elim (finddir fs n name true) [ none ↦ none | some k ↦ k.impl ]
]

abbrev pub nodes_of : Fs → Vfs.Nodes
nodes_of fs c = record {
  flags = flag_of (fs.entry c).kind;
  finddir = if is_directory (fs.entry c).kind then some (lookup fs c) else none;
}

abbrev pub is_given : Option Node → Bool
is_given none = false
is_given (some n) = true

-- tmpfs_mkdir_func makes the entry, and then its node.
unfoldable pub mkdir_func : Memory → Fs → ℕ → List ℕ → Bool × Fs
mkdir_func m fs c name =
    let (made, fs') = mkdir_entry fs (some c) name m in
    (is_given (node_of fs' made m.node_given), fs')

-- tmpfs_create_func, the same for a file; one that is there already is as good.
unfoldable pub create_func : Memory → Fs → ℕ → List ℕ → Bool × Fs
create_func m fs c name =
    let (made, fs') = create_file_entry fs (some c) name m in
    (is_given (node_of fs' made m.node_given), fs')

abbrev pub status : Result (List Freed) × Fs → Result ℕ × Fs
status (ok freed, fs) = (ok 0, fs)
status (err e, fs) = (err e, fs)

abbrev pub for_directory {ℓ} : {F : Type ℓ} → Fs → ℕ → F → Option F
for_directory fs c f = if is_directory (fs.entry c).kind then some f else none

abbrev pub driver : Memory → Driver Fs
driver m = record {
  nodes = nodes_of;
  mkdir_func = λ fs c. for_directory fs c (mkdir_func m fs c);
  create_func = λ fs c. for_directory fs c (create_func m fs c);
  rmdir_func = λ fs c. for_directory fs c (λ name. status (rmdir_in fs (some c) name));
  unlink_func = λ fs c. for_directory fs c (λ name. status (unlink_in fs (some c) name));
}
