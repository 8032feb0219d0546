-- ===== src/Vfs/Mounts.antt =====
-- kernel/vfs.c: vfs_mount, vfs_unmount and vfs_get_mount as a table in which the oldest mount counts.
use shadow_box_os.Common.Errno.{ok, err, enomem}
use shadow_box_os.Common.Text.{matches, matches_iff, matches_self}
use shadow_box_os.Common.{
  ℕ, ◌≤◌, ◌<◌, ◌≡◌, refl, ap, sym, ◌∙◌, ◌⊎◌, inl, inr, Bool-cases, none, some, List, [], ◌∷◌, ◌++◌,
  length, leb, if◌then◌else◌, arith, take, take_all,
}
use shadow_box_os.Vfs.{MountTable, MountEntry, mount, unmount, get_mount, max_mounts}

module _ (e : MountEntry) where
  get_mount-append :
      (t : MountTable) (q : List ℕ)
      → get_mount (t ++ e ∷ []) q ≡ elim (get_mount t q) [
        | some n ↦ some n
        | none ↦ if matches e.path q then some e.node else none
      ]
  unfolding get_mount
  get_mount-append [] q = refl
  get_mount-append (m ∷ t) q = ground (arith, get_mount-append t q)

  unmount-append :
      (t : MountTable) → get_mount t e.path ≡ none → unmount (t ++ e ∷ []) e.path ≡ some t
  unfolding get_mount unmount
  unmount-append [] h = ground (arith, matches_self e.path)
  unmount-append (m ∷ t) h = ground (arith, unmount-append t)

-- vfs_mount refuses a seventeenth mount with ENOMEM; otherwise, for a path of at most 127 characters,
-- the node is found under the path unless a mount of the same path was there before, which goes on
-- to be found; all other paths are found as before; and if the path was not mounted, vfs_unmount of
-- it gives back the table from before.
pub mount_lem :
    (t : MountTable) (path : List ℕ) (node flags : ℕ)
    → length path < 128
    → ((mount t path node flags ≡ err enomem) × (max_mounts ≤ length t))
      ⊎ ((t' : MountTable) × (mount t path node flags ≡ ok t')
          × ((q : List ℕ)
              → get_mount t' q ≡ elim (get_mount t q) [
                | some n ↦ some n
                | none ↦ if matches path q then some node else none
              ])
          × (get_mount t path ≡ none → unmount t' path ≡ some t))
unfolding mount
mount_lem t path node flags short = elim (Bool-cases (leb max_mounts (length t))) [
  | inl full ↦ inl (rw full refl, ground arith)
  | inr room ↦
      inr (t ++ e ∷ [], ground (arith, room, name), λ q. get_mount-append e t q, unmount-append e t)
]
  where
    e : MountEntry
    e = record { path = path; node = node; flags = flags }

    name : take 127 path ≡ path
    name = take_all 127 path (omega arith)

-- No path is mounted twice.
abbrev pub Once : MountTable → Type 0
Once [] = Unit
Once (m ∷ t) = (get_mount t m.path ≡ none) × Once t

-- Where no path is mounted twice, vfs_unmount fails exactly if the path is not mounted; otherwise the
-- path is not found any more, and all others are found as before.
pub unmount_lem :
    (t : MountTable) (path : List ℕ)
    → Once t
    → ((unmount t path ≡ none) × (get_mount t path ≡ none))
      ⊎ ((t' : MountTable) × (n : ℕ) × (unmount t path ≡ some t')
          × (get_mount t path ≡ some n)
          × ((q : List ℕ) → get_mount t' q ≡ (if matches path q then none else get_mount t q)))
unfolding unmount get_mount
unmount_lem [] path h = inl (refl, refl)
unmount_lem (m ∷ t) path h = elim (Bool-cases (matches m.path path)) [
  | inl hit ↦
      let same : m.path ≡ path = (matches_iff _ _).0 hit in
      inr (
        t,
        m.node,
        ground (arith, hit),
        ground (arith, hit),
        λ q.
            let gone : path ≡ q → get_mount t q ≡ none =
              λ p. ap (get_mount t) (sym (same ∙ p)) ∙ h.0 in
            ground (arith, same, matches_iff path q, gone),
      )
  | inr miss ↦ elim (unmount_lem t path h.1) [
    | inl (failed, absent) ↦ inl (ground (arith, miss, failed), ground (arith, miss, absent))
    | inr (t', n, run, found, others) ↦ inr (
      m ∷ t',
      n,
      ground (arith, miss, run),
      ground (arith, miss, found),
      λ q. ground (
        arith,
        miss,
        others q,
        matches_iff m.path q,
        matches_iff path q,
        matches_iff m.path path,
      ),
    )
  ]
]
