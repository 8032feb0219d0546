-- ===== src/Tmpfs/Mounted/Mkdir.antt =====
-- vfs_mkdir of kernel/vfs.c on a tmpfs: what it makes is what vfs_resolve_path finds.
use shadow_box_os.Common.Errno.{ok, err, eio}
use shadow_box_os.Common.{
  ℕ, ◌≤◌, ◌<◌, ◌≡◌, ◌≢◌, ap, sym, ◌∙◌, Bool, true, false, ◌⊎◌, inl, inr, Bool-cases, Option, none,
  some, List, [], ◌∷◌, ◌++◌, length, ◌+◌, All, All-append, append-nil, append_assoc, length-append,
  if◌then◌else◌, arith,
}
use shadow_box_os.Common.Text.{matches_self}
use shadow_box_os.Vfs.{MountTable, get_mount, vfs_finddir, at, resolve_path}
use shadow_box_os.Vfs.Walk.{walk, render, IsName, resolve_path-walk}
use shadow_box_os.Vfs.Calls.{mkdir, in_parent, called, answered}
use shadow_box_os.Tmpfs.{directory, Fs, Memory}
use shadow_box_os.Tmpfs.Tree.{find_child, mkdir_entry, is_full, make_vfs_node}
use shadow_box_os.Tmpfs.Directory.{IsSound, IsFresh, Adds}
use shadow_box_os.Tmpfs.Making.{mkdir_entry_lem}
use shadow_box_os.Tmpfs.Mounted.{driver, nodes_of, mkdir_func}
use shadow_box_os.Tmpfs.Mounted.Grows.{now, now_run, adds, grows, finddir_lem}
use shadow_box_os.Tmpfs.Mounted.Paths.{IsPlain, walk-grown, walk-last}

-- The address is neither the root nor mounted nor a child of any directory.
pub record IsUnused (t : MountTable) (root : ℕ) (fs : Fs) (a : ℕ) : Type 0 where
  pub not_root : root ≢ a
  pub not_mounted : (p : List ℕ) (k : ℕ) → get_mount t p ≡ some k → k ≢ a
  pub not_child : (k : ℕ) → All (λ c. c ≢ a) (fs.entry k).children

mkdir_run :
    (m : Memory) (f : ℕ) (t : MountTable) (root : ℕ) (path : List ℕ) (start : Option ℕ) (fs : Fs)
    (d : ℕ) (name : List ℕ) (made : Bool) (fs' : Fs)
    → resolve_path f (nodes_of fs) t root path start ≡ at (some d) (some name)
    → (fs.entry d).kind ≡ directory
    → mkdir_func m fs d name ≡ (made, fs')
    → mkdir (driver m) f t root path start fs ≡ some (if made then ok 0 else err eio, fs')
unfolding mkdir in_parent called answered
mkdir_run m f t root path start fs d name made fs' h dir run = ground (arith, h, dir, run)

module _ (m : Memory) (fs : Fs) (d : ℕ) (name : List ℕ) where
  refused : mkdir_entry fs (some d) name m ≡ (none, fs) → mkdir_func m fs d name ≡ (false, fs)
  unfolding mkdir_func
  refused h = ground (arith, h)

  served :
      (a : ℕ) (fs' : Fs)
      → m.node_given ≡ true
      → mkdir_entry fs (some d) name m ≡ (some a, fs')
      → mkdir_func m fs d name ≡ (true, fs')
  unfolding mkdir_func make_vfs_node
  served a fs' given h = ground (arith, h, given)

render-append : (ns : List (List ℕ)) (x : List ℕ) → render (ns ++ x ∷ []) ≡ render ns ++ 47 ∷ x
render-append [] x = ap (λ y. 47 ∷ y) (append-nil x)
render-append (n ∷ ns) x =
    ap (λ y. 47 ∷ n ++ y) (render-append ns x) ∙ sym (append_assoc (47 ∷ n) (render ns) (47 ∷ x))

module _ (t : MountTable) (root : ℕ) (fs : Fs) (m : Memory) (d : ℕ) (name : List ℕ)
    (short : length name < 128) (v : IsSound fs d) (fresh : IsFresh fs d m)
    (unused : (a : ℕ) → m.entry_at ≡ some a → IsUnused t root fs a) where
  abbrev Refused : Type 0
  Refused =
      (is_full fs d ≡ true)
      ⊎ (((c : ℕ) × (find_child fs (some d) name ≡ some c)) ⊎ (m.entry_at ≡ none))

  -- What a new entry at `a` comes with.
  record Made (a : ℕ) (fs' : Fs) : Type 0 where
    given : m.entry_at ≡ some a
    run : mkdir_entry fs (some d) name m ≡ (some a, fs')
    adds : Adds fs fs' d a name
    grown :
        (k : ℕ) (q : List ℕ) (j : ℕ)
        → k ≢ a
        → IsPlain q
        → vfs_finddir (nodes_of fs) k q ≡ some j
        → (j ≢ a) × (vfs_finddir (nodes_of fs') k q ≡ some j)

  new_entry-Made :
      (a : ℕ)
      → is_full fs d ≡ false
      → find_child fs (some d) name ≡ none
      → m.entry_at ≡ some a
      → (fs' : Fs) × Made a fs'
  unfolding mkdir_entry
  new_entry-Made a room absent given = (
    now fs d name directory m a v short fresh given (unused a given).not_child room absent,
    record {
      given = given;
      run = ground (
        arith,
        room,
        absent,
        now_run fs d name directory m a v short fresh given (unused a given).not_child room absent,
      );
      adds =
          adds fs d name directory m a v short fresh given (unused a given).not_child room absent;
      grown =
          grows fs d name directory m a v short fresh given (unused a given).not_child room absent;
    },
  )

  cases :
      ((mkdir_entry fs (some d) name m ≡ (none, fs)) × Refused)
      ⊎ ((a : ℕ) × (fs' : Fs) × Made a fs')
  unfolding mkdir_entry
  cases = elim (mkdir_entry_lem fs d name m v short fresh) [
    | inl refusal ↦ inl refusal
    | inr (a, fs', given, absent, run, _) ↦ elim (Bool-cases (is_full fs d)) [
      | inr room ↦ let (fs', all) = new_entry-Made a room absent given in inr (a, fs', all)
      | inl full ↦ absurd (ground (arith, full, run))
    ]
  ]

-- vfs_mkdir of a path of names without slashes, a slash before each, none of them "." or "..", which
-- with one such name more behind it fits into 127 characters, with fuel for its characters. The walk
-- over the names stops before `name`, of at most 127 characters, in a sound directory `d`; nothing is
-- mounted at the path with one name more; memory for nodes is given; and memory for an entry is not in
-- use, neither in a directory nor as the root nor in the mount table. Then it says EIO, and changes
-- nothing, if `d` has 256 entries, has the name or no memory for an entry is given; otherwise it says
-- 0 and adds the name to `d`, and with one name more behind it the same path leads vfs_resolve_path to
-- the new directory.
pub mkdir_lem :
    (f f' : ℕ) (t : MountTable) (root : ℕ) (start : Option ℕ) (fs : Fs) (m : Memory) (n : List ℕ)
    (ns : List (List ℕ)) (d : ℕ) (name x : List ℕ)
    → All IsName (n ∷ ns)
    → IsName x
    → All IsPlain (n ∷ ns)
    → IsPlain x
    → IsPlain name
    → length name < 128
    → length (render ((n ∷ ns) ++ x ∷ [])) ≤ 127
    → length (render (n ∷ ns)) < f
    → length (render ((n ∷ ns) ++ x ∷ [])) < f'
    → get_mount t (render (n ∷ ns) ++ 47 ∷ x) ≡ none
    → walk (nodes_of fs) t [] root (n ∷ ns) ≡ at (some d) (some name)
    → IsSound fs d
    → IsFresh fs d m
    → m.node_given ≡ true
    → ((a : ℕ) → m.entry_at ≡ some a → IsUnused t root fs a)
    → ((mkdir (driver m) f t root (render (n ∷ ns)) start fs ≡ some (err eio, fs))
        × ((is_full fs d ≡ true)
            ⊎ (((c : ℕ) × (find_child fs (some d) name ≡ some c)) ⊎ (m.entry_at ≡ none))))
      ⊎ ((a : ℕ) × (fs' : Fs) × (m.entry_at ≡ some a)
          × (mkdir (driver m) f t root (render (n ∷ ns)) start fs ≡ some (ok 0, fs'))
          × Adds fs fs' d a name
          × (resolve_path f' (nodes_of fs') t root (render ((n ∷ ns) ++ x ∷ [])) start
              ≡ at (some a) (some x)))
mkdir_lem f f' t root start fs m n ns d name x names x_name plain x_plain name_plain short fits fuel
      fuel' free found v fresh nodes unused =
    elim (cases t root fs m d name short v fresh unused) [
      | inl (same, why) ↦ inl (
        mkdir_run m f t root (render (n ∷ ns)) start fs d name false fs stops v.is_dir
            (refused m fs d name same),
        why,
      )
      | inr (a, fs', made) ↦ inr (
        a,
        fs',
        made.given,
        mkdir_run m f t root (render (n ∷ ns)) start fs d name true fs' stops v.is_dir
            (served m fs d name a fs' nodes made.run),
        made.adds,
        resolve_path-walk f' (nodes_of fs') t root start n (ns ++ x ∷ [])
              (All-append IsName (n ∷ ns) (x ∷ []) names (x_name, tt)) fits fuel'
            ∙ walk-grown (nodes_of fs) (nodes_of fs') t a d name name_plain
                (unused a made.given).not_mounted made.grown (new a fs' made) [] root (n ∷ ns) x
                (unused a made.given).not_root plain found
            ∙ walk-last (nodes_of fs') t (render (n ∷ ns)) a x free x_plain,
      )
    ]
  where
    longer : length (render ((n ∷ ns) ++ x ∷ [])) ≡ length (render (n ∷ ns)) + length (47 ∷ x)
    longer = ap length (render-append (n ∷ ns) x) ∙ length-append (render (n ∷ ns)) (47 ∷ x)

    stops : resolve_path f (nodes_of fs) t root (render (n ∷ ns)) start ≡ at (some d) (some name)
    stops =
        resolve_path-walk f (nodes_of fs) t root start n ns names (omega (arith, longer, fits)) fuel
        ∙ found

    new :
        (a : ℕ) (fs' : Fs)
        → Made t root fs m d name short v fresh unused a fs'
        → vfs_finddir (nodes_of fs') d name ≡ some a
    new a fs' made =
        finddir_lem fs' d name name_plain ∙ made.adds.found name ∙ ground (arith, matches_self name)
