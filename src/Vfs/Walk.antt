-- ===== src/Vfs/Walk.antt =====
-- kernel/vfs.c: vfs_resolve_path against a walk over the names of the path.
use shadow_box_os.Common.Text.{matches}
use shadow_box_os.Common.{
  ℕ, zero, suc, ◌+◌, ◌-◌, ◌≤◌, ◌<◌, ◌≡◌, ◌≢◌, refl, ap, sym, ◌∙◌, inl, inr, Option-cases,
  List-cases, Option, none, some, List, [], ◌∷◌, ◌++◌, length, if◌then◌else◌, arith, take, take_all,
  All, length-append,
}
use shadow_box_os.Vfs.{
  Nodes, MountTable, get_mount, vfs_finddir, skip, component, extended, parent_of, Resolved, at,
  descend, resolve_loop, resolve_path,
}

-- A slash before every name.
abbrev pub render : List (List ℕ) → List ℕ
render [] = []
render (n ∷ ns) = 47 ∷ n ++ render ns

-- A name that is not empty and has no slash.
abbrev pub IsName : List ℕ → Type 0
IsName n = (0 < length n) × All (λ c. c ≢ 47) n

abbrev pub if_empty : List (List ℕ) → Resolved → Resolved → Resolved
if_empty [] a b = a
if_empty (n ∷ ns) a b = b

-- The walk: a mount of the path so far counts first, then "." and "..", then the last name stays,
-- and any other is looked up in the node.
unfoldable pub walk : Nodes → MountTable → List ℕ → ℕ → List (List ℕ) → Resolved
walk nodes t full current [] = at (some current) (some [])
walk nodes t full current (n ∷ ns) = elim (get_mount t (full ++ 47 ∷ n)) [
  | some m ↦ walk nodes t (full ++ 47 ∷ n) m ns
  | none ↦
      let stay = walk nodes t (full ++ 47 ∷ n) current ns in
      let up = walk nodes t (full ++ 47 ∷ n) (parent_of nodes current) ns in
      let down : Resolved = elim (vfs_finddir nodes current n) [
        | none ↦ at none none
        | some k ↦ walk nodes t (full ++ 47 ∷ n) k ns
      ] in
      if matches n (46 ∷ [])
      then stay
      else if matches n (46 ∷ 46 ∷ [])
      then up
      else if_empty ns (at (some current) (some n)) down
]

skip-skip : (p : List ℕ) → skip (skip p) ≡ skip p
unfolding skip
skip-skip [] = refl
skip-skip (c ∷ cs) = ground (arith, skip-skip cs)

skip-name : (c : ℕ) (p : List ℕ) → c ≢ 47 → skip (47 ∷ c ∷ p) ≡ c ∷ p
unfolding skip
skip-name c p h = ground (arith, h)

skip-nil : skip [] ≡ []
unfolding skip
skip-nil = refl

component-name :
    (room : ℕ) (n : List ℕ) (ns : List (List ℕ))
    → All (λ c. c ≢ 47) n
    → length n ≤ room
    → component room (n ++ render ns) ≡ (n, render ns)
unfolding component
component-name zero [] ns h le = refl
component-name zero (c ∷ cs) ns h le = absurd (omega arith)
component-name (suc room) [] [] h le = refl
component-name (suc room) [] (n ∷ ns) h le = refl
component-name (suc room) (c ∷ cs) ns h le =
    ground (arith, h.0, component-name room cs ns h.1 (omega arith))

extended_lem :
    (full n : List ℕ) → length full + 1 + length n ≤ 127 → extended full n ≡ some (full ++ 47 ∷ n)
unfolding extended
extended_lem full n h =
    let whole : take (127 - (length full + 1)) n ≡ n = take_all _ n (omega arith) in
    ground (arith, whole)

module _ (nodes : Nodes) (t : MountTable) where
  resolve_loop-skip :
      (f : ℕ) (full : List ℕ) (current : ℕ) (p : List ℕ)
      → resolve_loop f nodes t full current (skip p) ≡ resolve_loop f nodes t full current p
  unfolding resolve_loop
  resolve_loop-skip zero full current p = refl
  resolve_loop-skip (suc f) full current p = elim (List-cases (skip p)) [
    | inl done ↦ ground (arith, done, skip-skip p)
    | inr (c, cs, more) ↦ ground (arith, more, skip-skip p)
  ]

  -- What the loop does with the name `n`.
  turn : ℕ → List ℕ → ℕ → List ℕ → List ℕ → Resolved
  turn f full current n rest = elim (get_mount t (full ++ 47 ∷ n)) [
    | none ↦ descend nodes current n rest (λ k p. resolve_loop f nodes t (full ++ 47 ∷ n) k p)
    | some m ↦ resolve_loop f nodes t (full ++ 47 ∷ n) m rest
  ]

  resolve_loop-turn :
      (f : ℕ) (full : List ℕ) (current : ℕ) (n : List ℕ) (ns : List (List ℕ))
      → IsName n
      → length full + 1 + length n ≤ 127
      → resolve_loop (suc f) nodes t full current (render (n ∷ ns))
        ≡ turn f full current n (render ns)
  unfolding resolve_loop turn
  resolve_loop-turn f full current [] ns h le = absurd (omega arith)
  resolve_loop-turn f full current (c ∷ cs) ns h le = ground (
    arith,
    skip-name c (cs ++ render ns) h.1.0,
    component-name 127 (c ∷ cs) ns h.1 (omega arith),
    extended_lem full (c ∷ cs) le,
  )

  turn-walk :
      (f : ℕ) (full : List ℕ) (current : ℕ) (n : List ℕ) (ns : List (List ℕ))
      → All IsName ns
      → ((k : ℕ)
          → resolve_loop f nodes t (full ++ 47 ∷ n) k (render ns)
            ≡ walk nodes t (full ++ 47 ∷ n) k ns)
      → turn f full current n (render ns) ≡ walk nodes t full current (n ∷ ns)
  unfolding turn descend walk
  turn-walk f full current n [] h ih = elim (Option-cases (get_mount t (full ++ 47 ∷ n))) [
    | inr (m, mounted) ↦ ground (arith, mounted, ih m)
    | inl free ↦ ground (arith, free, ih current, ih (parent_of nodes current), skip-nil)
  ]
  turn-walk f full current n ([] ∷ ns) h ih = absurd (omega arith)
  turn-walk f full current n ((c ∷ cs) ∷ ns) h ih =
      elim (Option-cases (get_mount t (full ++ 47 ∷ n))) [
        | inr (m, mounted) ↦ ground (arith, mounted, ih m)
        | inl free ↦ elim (Option-cases (vfs_finddir nodes current n)) [
          | inl missing ↦ ground (
            arith,
            free,
            missing,
            ih current,
            ih (parent_of nodes current),
            skip-name c (cs ++ render ns) h.0.1.0,
          )
          | inr (k, found) ↦ ground (
            arith,
            free,
            found,
            ih current,
            ih (parent_of nodes current),
            ih k,
            resolve_loop-skip f (full ++ 47 ∷ n) k (render ((c ∷ cs) ∷ ns)),
            skip-name c (cs ++ render ns) h.0.1.0,
          )
        ]
      ]

  resolve_loop-walk :
      (f : ℕ) (full : List ℕ) (current : ℕ) (ns : List (List ℕ))
      → All IsName ns
      → length full + length (render ns) ≤ 127
      → length (render ns) < f
      → resolve_loop f nodes t full current (render ns) ≡ walk nodes t full current ns
  unfolding walk resolve_loop
  resolve_loop-walk zero full current ns h le lt = absurd (omega arith)
  resolve_loop-walk (suc f) full current [] h le lt = ground (arith, skip-nil)
  resolve_loop-walk (suc f) full current (n ∷ ns) h le lt =
      resolve_loop-turn f full current n ns h.0 (omega (arith, length-append n (render ns)))
      ∙ turn-walk f full current n ns h.1 (λ k.
        resolve_loop-walk f (full ++ 47 ∷ n) k ns h.1
          (omega (arith, length-append n (render ns), length-append full (47 ∷ n)))
          (omega (arith, length-append n (render ns))))

-- The path of names without slashes, a slash before each, that fits into 127 characters: with fuel
-- for every character and one more, vfs_resolve_path gives what the walk over the names from the
-- root gives, the node and the last name.
pub resolve_path-walk :
    (f : ℕ) (nodes : Nodes) (t : MountTable) (root : ℕ) (start : Option ℕ) (n : List ℕ)
    (ns : List (List ℕ))
    → All IsName (n ∷ ns)
    → length (render (n ∷ ns)) ≤ 127
    → length (render (n ∷ ns)) < f
    → resolve_path f nodes t root (render (n ∷ ns)) start ≡ walk nodes t [] root (n ∷ ns)
unfolding resolve_path
resolve_path-walk f nodes t root start [] ns h le lt = absurd (omega arith)
resolve_path-walk f nodes t root start (c ∷ cs) ns h le lt =
    ap (resolve_loop f nodes t [] root) (sym (skip-name c (cs ++ render ns) h.0.1.0))
    ∙ resolve_loop-skip nodes t f [] root (render ((c ∷ cs) ∷ ns))
    ∙ resolve_loop-walk nodes t f [] root ((c ∷ cs) ∷ ns) h (omega arith) lt
