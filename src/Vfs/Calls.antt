-- ===== src/Vfs/Calls.antt =====
-- kernel/vfs.c: the calls that resolve a path and then call the file system behind the node.
use shadow_box_os.Common.Errno.{Result, ok, err, enoent, eio, erofs}
use shadow_box_os.Common.{ℕ, Bool, false, Option, none, some, List, ◌==◌, if◌then◌else◌, bit_and}
use shadow_box_os.Vfs.{
  Nodes, MountTable, Resolved, out_of_fuel, overrun, at, fs_directory, resolve_path,
}

-- What stands behind the nodes of a file system with the state `S`: a function of a node is `none`
-- where the node has a null pointer. The functions of mkdir and create say whether a node came back.
pub record Driver {ℓ} (S : Type ℓ) : Type ℓ where
  pub nodes : S → Nodes
  pub mkdir_func : S → ℕ → Option (List ℕ → Bool × S)
  pub create_func : S → ℕ → Option (List ℕ → Bool × S)
  pub rmdir_func : S → ℕ → Option (List ℕ → Result ℕ × S)
  pub unlink_func : S → ℕ → Option (List ℕ → Result ℕ × S)

-- The call `go` on the parent and the last name. `none` is an access outside an array, a path that
-- needs more fuel, or a name that was never set, as for an empty path.
unfoldable pub in_parent {ℓ} :
    {S : Type ℓ} → Resolved → S → (ℕ → List ℕ → Result ℕ × S) → Option (Result ℕ × S)
in_parent out_of_fuel s go = none
in_parent overrun s go = none
in_parent (at none name) s go = some (err enoent, s)
in_parent (at (some p) none) s go = none
in_parent (at (some p) (some name)) s go = some (go p name)

-- `ret` stays EROFS where the parent is no directory or lacks the function.
unfoldable pub called {ℓ} :
    {S : Type ℓ} → Nodes → ℕ → Option (List ℕ → Result ℕ × S) → S → List ℕ → Result ℕ × S
called nodes p none s name = (err erofs, s)
called nodes p (some f) s name =
    if bit_and (nodes p).flags fs_directory == 0 then (err erofs, s) else f name

-- What vfs_mkdir makes of the answer.
unfoldable pub answered {ℓ} :
    {S : Type ℓ} → Option (List ℕ → Bool × S) → Option (List ℕ → Result ℕ × S)
answered none = none
answered (some f) = some (λ name. let (made, s) = f name in (if made then ok 0 else err eio, s))

module _ {ℓ} {S : Type ℓ} (driver : Driver S) where
  -- No node comes back where the parent is null, is no directory or lacks the function.
  unfoldable pub create : Option ℕ → List ℕ → S → Bool × S
  create none name s = (false, s)
  create (some p) name s = elim (driver.create_func s p) [
    | none ↦ (false, s)
    | some f ↦ if bit_and (driver.nodes s p).flags fs_directory == 0 then (false, s) else f name
  ]

  unfoldable pub mkdir : ℕ → MountTable → ℕ → List ℕ → Option ℕ → S → Option (Result ℕ × S)
  mkdir f t root path start s =
      in_parent (resolve_path f (driver.nodes s) t root path start) s
        (λ p name. called (driver.nodes s) p (answered (driver.mkdir_func s p)) s name)

  unfoldable pub rmdir : ℕ → MountTable → ℕ → List ℕ → Option ℕ → S → Option (Result ℕ × S)
  rmdir f t root path start s =
      in_parent (resolve_path f (driver.nodes s) t root path start) s
        (λ p name. called (driver.nodes s) p (driver.rmdir_func s p) s name)

  unfoldable pub unlink : ℕ → MountTable → ℕ → List ℕ → Option ℕ → S → Option (Result ℕ × S)
  unlink f t root path start s =
      in_parent (resolve_path f (driver.nodes s) t root path start) s
        (λ p name. called (driver.nodes s) p (driver.unlink_func s p) s name)
