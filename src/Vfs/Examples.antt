-- ===== src/Vfs/Examples.antt =====
-- kernel/vfs.c at concrete inputs.
use shadow_box_os.Common.Text.{matches}
use shadow_box_os.Common.{ℕ, ◌+◌, ◌≡◌, ◌≢◌, refl, none, some, List, [], ◌∷◌, arith}
use shadow_box_os.Vfs.{
  MountTable, Nodes, get_mount, at, out_of_fuel, resolve_path, resolve_loop, skip, component,
  extended, descend, vfs_finddir,
}
use shadow_box_os.Vfs.Paths.{resolve_path_total}
use shadow_box_os.Vfs.Walk.{resolve_path-walk, render, walk}

-- "/d" is mounted at node 7.
abbrev slash_d : List ℕ
slash_d = 47 ∷ 100 ∷ []

abbrev slash_e : List ℕ
slash_e = 47 ∷ 101 ∷ []

abbrev mounts : MountTable
mounts = record { path = slash_d; node = 7; flags = 0 } ∷ []

-- Every node is a directory in which any name leads to the next node.
abbrev nodes : Nodes
nodes n = record { flags = 2; finddir = some (λ name. some (n + 1)) }

resolve_path_total_example : resolve_path 3 nodes mounts 1 slash_d none ≢ out_of_fuel
resolve_path_total_example = resolve_path_total 3 nodes mounts 1 slash_d none (omega arith)

-- "/d/a/b" goes to the mounted node, down to "a" in it, and stops before "b".
resolve_path-walk_example :
    resolve_path 9 nodes mounts 1 (render ((100 ∷ []) ∷ (97 ∷ []) ∷ (98 ∷ []) ∷ [])) none
    ≡ walk nodes mounts [] 1 ((100 ∷ []) ∷ (97 ∷ []) ∷ (98 ∷ []) ∷ [])
resolve_path-walk_example =
    resolve_path-walk 9 nodes mounts 1 none (100 ∷ []) ((97 ∷ []) ∷ (98 ∷ []) ∷ []) (omega arith)
      (omega arith) (omega arith)

mounted_walk :
    resolve_path 9 nodes mounts 1 (render ((100 ∷ []) ∷ (97 ∷ []) ∷ (98 ∷ []) ∷ [])) none
    ≡ at (some 8) (some (98 ∷ []))
unfolding resolve_path resolve_loop skip component extended descend vfs_finddir get_mount matches
mounted_walk = refl
