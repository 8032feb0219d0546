-- ===== src/Vfs.antt =====
-- kernel/vfs.c: the mount table, the resolution of paths, and the locks on files. A node is named by
-- its address; what a file system answers to finddir is part of the node.
pub mod Mounts
pub mod Paths
pub mod Walk
pub mod Calls
mod Examples
use shadow_box_os.Common.Errno.{Result, ok, err, enomem}
use shadow_box_os.Common.Text.{matches}
use shadow_box_os.Common.{
  ℕ, zero, suc, ◌+◌, ◌-◌, ◌*◌, ◌%◌, ◌^◌, bit_and, Bool, true, false, not, ◌&&◌, ◌||◌, Option, none,
  some, List, [], ◌∷◌, ◌++◌, length, take, ltb, leb, ◌==◌, if◌then◌else◌,
}

abbrev pub max_mounts : ℕ
max_mounts = 16

pub record MountEntry : Type 0 where
  pub path : List ℕ
  pub node : ℕ
  pub flags : ℕ

-- The mounts in use, from the first slot on.
abbrev pub MountTable : Type 0
MountTable = List MountEntry

unfoldable pub mount : MountTable → List ℕ → ℕ → ℕ → Result MountTable
mount t path node flags =
    if leb max_mounts (length t)
    then err enomem
    else ok (t ++ record { path = take 127 path; node = node; flags = flags } ∷ [])

-- `none` is -1: the path is not mounted.
unfoldable pub unmount : MountTable → List ℕ → Option MountTable
unmount [] path = none
unmount (m ∷ t) path =
    let rest = unmount t path in
    if matches m.path path then some t else elim rest [ none ↦ none | some t' ↦ some (m ∷ t') ]

unfoldable pub get_mount : MountTable → List ℕ → Option ℕ
get_mount [] path = none
get_mount (m ∷ t) path = if matches m.path path then some m.node else get_mount t path

-- The fields that are read here. `finddir` is the function of the file system, if the node has one.
pub record Node : Type 0 where
  pub flags : ℕ
  pub finddir : Option (List ℕ → Option ℕ)

abbrev pub Nodes : Type 0
Nodes = ℕ → Node

abbrev pub fs_directory : ℕ
fs_directory = 2

unfoldable pub vfs_finddir : Nodes → ℕ → List ℕ → Option ℕ
vfs_finddir nodes n name = elim (nodes n).finddir [
  | none ↦ none
  | some fd ↦ if bit_and (nodes n).flags fs_directory == 0 then none else fd name
]

-- `while (*path == '/') path++`
unfoldable pub skip : List ℕ → List ℕ
skip [] = []
skip (c ∷ cs) = if c == 47 then skip cs else c ∷ cs

-- At most `room` characters up to the next slash, and what follows them.
unfoldable pub component : ℕ → List ℕ → List ℕ × List ℕ
component zero cs = ([], cs)
component (suc room) [] = ([], [])
component (suc room) (c ∷ cs) =
    let (name, rest) = component room cs in if c == 47 then ([], c ∷ cs) else (c ∷ name, rest)

-- The component behind the path so far, in its 128 bytes; `none` is a zero behind them.
unfoldable pub extended : List ℕ → List ℕ → Option (List ℕ)
extended full name =
    if leb 127 (length full) then none else some (full ++ 47 ∷ take (127 - (length full + 1)) name)

unfoldable pub parent_of : Nodes → ℕ → ℕ
parent_of nodes n = elim (vfs_finddir nodes n (46 ∷ 46 ∷ [])) [ none ↦ n | some p ↦ p ]

-- `at node name` is the node that is returned and what `out_name` is set to, if it is set.
pub data Resolved : Type 0 where
  out_of_fuel : Resolved
  overrun : Resolved
  at : Option ℕ → Option (List ℕ) → Resolved

-- A component that no mount is found under: the rest of the path and the node decide.
unfoldable pub descend : Nodes → ℕ → List ℕ → List ℕ → (ℕ → List ℕ → Resolved) → Resolved
descend nodes current name rest go =
    if matches name (46 ∷ [])
    then go current rest
    else if matches name (46 ∷ 46 ∷ [])
    then go (parent_of nodes current) rest
    else elim (skip rest) [
      | [] ↦ at (some current) (some name)
      | c ∷ cs ↦ elim (vfs_finddir nodes current name) [
        | none ↦ at none none
        | some n ↦ go n (c ∷ cs)
      ]
    ]

unfoldable pub resolve_loop : ℕ → Nodes → MountTable → List ℕ → ℕ → List ℕ → Resolved
resolve_loop zero nodes t full current path = out_of_fuel
resolve_loop (suc f) nodes t full current path = elim (skip path) [
  | [] ↦ at (some current) (some [])
  | c ∷ cs ↦
      let (name, rest) = component 127 (c ∷ cs) in
      elim (extended full name) [
        | none ↦ overrun
        | some full' ↦ elim (get_mount t full') [
          | some m ↦ resolve_loop f nodes t full' m rest
          | none ↦ descend nodes current name rest (λ n p. resolve_loop f nodes t full' n p)
        ]
      ]
]

abbrev pub or_root : ℕ → Option ℕ → ℕ
or_root root none = root
or_root root (some n) = n

-- `start` is `none` for a null pointer.
unfoldable pub resolve_path : ℕ → Nodes → MountTable → ℕ → List ℕ → Option ℕ → Resolved
resolve_path f nodes t root [] start = at start none
resolve_path f nodes t root (c ∷ cs) start =
    if c == 47
    then resolve_loop f nodes t [] root cs
    else resolve_loop f nodes t [] (or_root root start) (c ∷ cs)

-- Whether vfs_write refuses because the node is mounted read-only.
unfoldable pub is_read_only : MountTable → ℕ → Bool
is_read_only [] n = false
is_read_only (m ∷ t) n = ((m.node == n) && not (bit_and m.flags 1 == 0)) || is_read_only t n

-- `file` is what the write of the file system answers, if the node has one.
unfoldable pub write : MountTable → Option ℕ → Option ℕ → ℕ
write t none file = 0
write t (some n) file = if is_read_only t n then 0 else elim file [ none ↦ 0 | some count ↦ count ]

-- The lock on a node; the kinds are 0 to read, 1 to write and 2 to unlock.
pub record Lock : Type 0 where
  pub lock_count : ℕ
  pub lock_type : ℕ
  pub lock_owner : ℕ
  pub lock_start : ℕ
  pub lock_end : ℕ

abbrev pub f_unlck : ℕ
f_unlck = 2

-- The answer is whether the call succeeds.
unfoldable pub flock : Lock → ℕ → Bool × Lock
flock l operation =
    if operation == f_unlck
    then (true, record l { lock_count = 0 })
    else if ltb 0 l.lock_count
    then (false, l)
    else (true, record l { lock_count = 1; lock_type = operation })

unfoldable pub lock_file : Lock → ℕ → ℕ → ℕ → ℕ → Lock
lock_file l start end kind owner = record {
  lock_type = kind;
  lock_owner = owner;
  lock_start = start;
  lock_end = end;
  lock_count = if kind == f_unlck then 0 else 1;
}

unfoldable pub unlock_file : Lock → ℕ → Lock
unlock_file l owner =
    if l.lock_owner == owner then record l { lock_count = 0; lock_type = f_unlck } else l
