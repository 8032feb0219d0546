-- ===== src/Vfs/Paths.antt =====
-- kernel/vfs.c: vfs_resolve_path, its termination and what it does on a path of plain names.
use shadow_box_os.Common.Text.{matches}
use shadow_box_os.Common.{
  ℕ, zero, suc, ◌≤◌, ◌<◌, ◌≡◌, ◌≢◌, ap, inl, inr, Bool-cases, Option-cases, List-cases, Option,
  List, [], ◌∷◌, length, ◌==◌, arith,
}
use shadow_box_os.Vfs.{
  Nodes, MountTable, get_mount, vfs_finddir, skip, component, extended, parent_of, Resolved,
  out_of_fuel, descend, resolve_loop, resolve_path, or_root,
}

length-skip : (p : List ℕ) → length (skip p) ≤ length p
unfolding skip
length-skip [] = omega arith
length-skip (c ∷ cs) = ground (arith, length-skip cs)

pub skip-head : (p : List ℕ) (c : ℕ) (cs : List ℕ) → skip p ≡ c ∷ cs → c ≢ 47
unfolding skip
skip-head [] c cs h = cc
skip-head (x ∷ p) c cs h = ground (arith, skip-head p c cs)

length-component : (room : ℕ) (p : List ℕ) → length (component room p).1 ≤ length p
unfolding component
length-component zero p = omega arith
length-component (suc room) [] = omega arith
length-component (suc room) (c ∷ cs) = ground (arith, length-component room cs)

component_shorter :
    (room c : ℕ) (cs : List ℕ) → c ≢ 47 → length (component (suc room) (c ∷ cs)).1 ≤ length cs
unfolding component
component_shorter room c cs h = ground (arith, length-component room cs, h)

descend_total :
    (nodes : Nodes) (current : ℕ) (name rest : List ℕ) (go : ℕ → List ℕ → Resolved)
    → ((n : ℕ) (p : List ℕ) → length p ≤ length rest → go n p ≢ out_of_fuel)
    → descend nodes current name rest go ≢ out_of_fuel
unfolding descend
descend_total nodes current name rest go h = elim (Bool-cases (matches name (46 ∷ []))) [
  | inl dot ↦ rw dot (h current rest (omega arith))
  | inr other ↦ elim (Bool-cases (matches name (46 ∷ 46 ∷ []))) [
    | inl dots ↦ rw (other, dots) (h (parent_of nodes current) rest (omega arith))
    | inr plain ↦ elim (List-cases (skip rest)) [
      | inl last ↦ ground (arith, other, plain, last)
      | inr (c, cs, more) ↦ elim (Option-cases (vfs_finddir nodes current name)) [
        | inl missing ↦ ground (arith, other, plain, more, missing)
        | inr (n, found) ↦
            let run : descend nodes current name rest go ≡ go n (c ∷ cs) =
              ground (arith, other, plain, more, found) in
            rw run (h n (c ∷ cs) (omega (arith, length-skip rest, ap length more)))
      ]
    ]
  ]
]

-- Fuel for every character is enough.
resolve_loop_total :
    (f : ℕ) (nodes : Nodes) (t : MountTable) (full : List ℕ) (current : ℕ) (path : List ℕ)
    → length path < f
    → resolve_loop f nodes t full current path ≢ out_of_fuel
unfolding resolve_loop
resolve_loop_total zero nodes t full current path h = absurd (omega arith)
resolve_loop_total (suc f) nodes t full current path h = elim (List-cases (skip path)) [
  | inl done ↦ ground (arith, done)
  | inr (c, cs, more) ↦
      let name = (component 127 (c ∷ cs)).0 in
      let rest = (component 127 (c ∷ cs)).1 in
      let shorter : length rest < f = omega (
        arith,
        length-skip path,
        ap length more,
        component_shorter 126 c cs (skip-head path c cs more),
      ) in
      elim (Option-cases (extended full name)) [
        | inl long ↦ ground (arith, more, long)
        | inr (full', short) ↦ elim (Option-cases (get_mount t full')) [
          | inr (m, mounted) ↦
              let run : resolve_loop (suc f) nodes t full current path
                  ≡ resolve_loop f nodes t full' m rest =
                ground (arith, more, short, mounted) in
              rw run (resolve_loop_total f nodes t full' m rest shorter)
          | inl none_there ↦
              let go : ℕ → List ℕ → Resolved = λ n p. resolve_loop f nodes t full' n p in
              let run : resolve_loop (suc f) nodes t full current path
                  ≡ descend nodes current name rest go =
                ground (arith, more, short, none_there) in
              rw run (
                descend_total nodes current name rest go
                  (λ n p le. resolve_loop_total f nodes t full' n p (omega (arith, shorter))))
        ]
      ]
]

-- With fuel for every character and one more, vfs_resolve_path comes to an end on every path, from
-- every start and with every mount table.
pub resolve_path_total :
    (f : ℕ) (nodes : Nodes) (t : MountTable) (root : ℕ) (path : List ℕ) (start : Option ℕ)
    → length path < f
    → resolve_path f nodes t root path start ≢ out_of_fuel
unfolding resolve_path
resolve_path_total f nodes t root [] start h = cc
resolve_path_total f nodes t root (c ∷ cs) start h = elim (Bool-cases (c == 47)) [
  | inl absolute ↦ rw absolute (resolve_loop_total f nodes t [] root cs (omega arith))
  | inr relative ↦ rw relative (resolve_loop_total f nodes t [] (or_root root start) (c ∷ cs) h)
]
