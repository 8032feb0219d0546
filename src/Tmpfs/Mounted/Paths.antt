-- ===== src/Tmpfs/Mounted/Paths.antt =====
-- kernel/vfs.c: a walk over names after a directory was made at its end.
use shadow_box_os.Common.Text.{matches}
use shadow_box_os.Common.{
  ℕ, ◌<◌, ◌≡◌, ◌≢◌, refl, ap, sym, ◌∙◌, false, inl, inr, Option-cases, none, some, List, [], ◌∷◌,
  ◌++◌, length, arith, All, append_assoc, append-nil,
}
use shadow_box_os.Vfs.{Nodes, MountTable, get_mount, vfs_finddir, at}
use shadow_box_os.Vfs.Walk.{walk, render}

-- A name that is not empty and neither "." nor "..".
abbrev pub IsPlain : List ℕ → Type 0
IsPlain n = (0 < length n) × (matches n (46 ∷ []) ≡ false) × (matches n (46 ∷ 46 ∷ []) ≡ false)

module _ (nodes : Nodes) (t : MountTable) (full : List ℕ) (current : ℕ) (n : List ℕ) where
  walk-end : walk nodes t full current [] ≡ at (some current) (some [])
  unfolding walk
  walk-end = refl

  walk-mounted :
      (k : ℕ) (ns : List (List ℕ))
      → get_mount t (full ++ 47 ∷ n) ≡ some k
      → walk nodes t full current (n ∷ ns) ≡ walk nodes t (full ++ 47 ∷ n) k ns
  unfolding walk
  walk-mounted k ns h = ground (arith, h)

  pub walk-last :
      get_mount t (full ++ 47 ∷ n) ≡ none
      → IsPlain n
      → walk nodes t full current (n ∷ []) ≡ at (some current) (some n)
  unfolding walk
  walk-last free plain = ground (arith, free, plain)

  walk-down :
      (k : ℕ) (m : List ℕ) (ns : List (List ℕ))
      → get_mount t (full ++ 47 ∷ n) ≡ none
      → IsPlain n
      → vfs_finddir nodes current n ≡ some k
      → walk nodes t full current (n ∷ m ∷ ns) ≡ walk nodes t (full ++ 47 ∷ n) k (m ∷ ns)
  unfolding walk
  walk-down k m ns free plain found = ground (arith, free, plain, found)

  walk-lost :
      (m : List ℕ) (ns : List (List ℕ))
      → get_mount t (full ++ 47 ∷ n) ≡ none
      → IsPlain n
      → vfs_finddir nodes current n ≡ none
      → walk nodes t full current (n ∷ m ∷ ns) ≡ at none none
  unfolding walk
  walk-lost m ns free plain lost = ground (arith, free, plain, lost)

module _ (nodes nodes' : Nodes) (t : MountTable) (a d : ℕ) (name : List ℕ) (last : IsPlain name)
    (mounts : (p : List ℕ) (k : ℕ) → get_mount t p ≡ some k → k ≢ a)
    (grows : (k : ℕ) (q : List ℕ) (j : ℕ)
      → k ≢ a
      → IsPlain q
      → vfs_finddir nodes k q ≡ some j
      → (j ≢ a) × (vfs_finddir nodes' k q ≡ some j))
    (new : vfs_finddir nodes' d name ≡ some a) where
  longer :
      (full n : List ℕ) (ns : List (List ℕ)) (x : List ℕ)
      → walk nodes' t ((full ++ 47 ∷ n) ++ render ns) a (x ∷ [])
        ≡ walk nodes' t (full ++ render (n ∷ ns)) a (x ∷ [])
  longer full n ns x = ap (λ p. walk nodes' t p a (x ∷ [])) (append_assoc full (47 ∷ n) (render ns))

  through :
      (full : List ℕ) (current : ℕ) (n : List ℕ) (ns : List (List ℕ)) (x : List ℕ) (k : ℕ)
      → get_mount t (full ++ 47 ∷ n) ≡ some k
      → walk nodes' t (full ++ 47 ∷ n) k (ns ++ x ∷ [])
        ≡ walk nodes' t ((full ++ 47 ∷ n) ++ render ns) a (x ∷ [])
      → walk nodes' t full current (n ∷ (ns ++ x ∷ []))
        ≡ walk nodes' t (full ++ render (n ∷ ns)) a (x ∷ [])
  through full current n ns x k mounted h =
      walk-mounted nodes' t full current n k (ns ++ x ∷ []) mounted ∙ h ∙ longer full n ns x

  -- A walk that stopped before `name` in `d` goes on through the new node.
  pub walk-grown :
      (full : List ℕ) (current : ℕ) (ns : List (List ℕ)) (x : List ℕ)
      → current ≢ a
      → All IsPlain ns
      → walk nodes t full current ns ≡ at (some d) (some name)
      → walk nodes' t full current (ns ++ x ∷ []) ≡ walk nodes' t (full ++ render ns) a (x ∷ [])
  walk-grown full current [] x away plain h =
      absurd (ground (arith, sym (walk-end nodes t full current []) ∙ h, last.0))
  walk-grown full current (n ∷ []) x away plain h =
      elim (Option-cases (get_mount t (full ++ 47 ∷ n))) [
        | inr (k, mounted) ↦ through full current n [] x k mounted (
            walk-grown (full ++ 47 ∷ n) k [] x (mounts _ k mounted) tt
              (sym (walk-mounted nodes t full current n k [] mounted) ∙ h))
        | inl free ↦
            let same : at (some current) (some n) ≡ at (some d) (some name) =
              sym (walk-last nodes t full current n free plain.0) ∙ h in
            walk-down nodes' t full current n a x [] free plain.0 (ground (arith, same, new))
            ∙ ap (λ p. walk nodes' t p a (x ∷ [])) (sym (append-nil (full ++ 47 ∷ n)))
            ∙ longer full n [] x
      ]
  walk-grown full current (n ∷ m ∷ ns) x away plain h =
      elim (Option-cases (get_mount t (full ++ 47 ∷ n))) [
        | inr (k, mounted) ↦ through full current n (m ∷ ns) x k mounted (
            walk-grown (full ++ 47 ∷ n) k (m ∷ ns) x (mounts _ k mounted) plain.1
              (sym (walk-mounted nodes t full current n k (m ∷ ns) mounted) ∙ h))
        | inl free ↦ elim (Option-cases (vfs_finddir nodes current n)) [
          | inl lost ↦
              absurd
                (ground (arith, sym (walk-lost nodes t full current n m ns free plain.0 lost) ∙ h))
          | inr (k, found) ↦
              let (apart, still) = grows current n k away plain.0 found in
              walk-down nodes' t full current n k m (ns ++ x ∷ []) free plain.0 still
              ∙ walk-grown (full ++ 47 ∷ n) k (m ∷ ns) x apart plain.1
                  (sym (walk-down nodes t full current n k m ns free plain.0 found) ∙ h)
              ∙ longer full n (m ∷ ns) x
        ]
      ]
