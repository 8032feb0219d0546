-- ===== src/Tmpfs/Renaming.antt =====
-- fs/tmpfs.c: renaming an entry of a directory, on every branch.
use shadow_box_os.Common.Errno.{ok, err, enoent, eexist}
use shadow_box_os.Common.{
  ℕ, ◌<◌, ◌≡◌, ◌≢◌, refl, ap, sym, subst, ◌∙◌, true, ◌⊎◌, inl, inr, Bool-cases, Option-cases, none,
  some, List, [], ◌∷◌, length, All, ◌==◌, if◌then◌else◌, arith, take, take_all,
}
use shadow_box_os.Common.Text.{matches, matches_iff}
use shadow_box_os.Tmpfs.{Entry, Fs, update, directory}
use shadow_box_os.Tmpfs.Tree.{find_in, find_child, rename_entry}
use shadow_box_os.Tmpfs.Names.{
  Unused, Distinct, SameNames, SameNames-update, Unused-same, Distinct-same, find_in-none,
  find_in-Unused, find_in-same,
}
use shadow_box_os.Tmpfs.Directory.{IsSound, find_child_lem}

module _ (entry : ℕ → Entry) where
  found-name : (cs name : List ℕ) (c : ℕ) → find_in entry cs name ≡ some c → (entry c).name ≡ name
  unfolding find_in
  found-name [] name c h = cc
  found-name (x ∷ cs) name c h = elim (Bool-cases (matches (entry x).name name)) [
    | inl hit ↦
        let is : c ≡ x = ground (arith, hit) in
        ap (λ y. (entry y).name) is ∙ (matches_iff _ _).0 hit
    | inr miss ↦ found-name cs name c (ground (arith, miss))
  ]

  found-All :
      (P : ℕ → Type 0) (cs name : List ℕ) (c : ℕ) → All P cs → find_in entry cs name ≡ some c → P c
  unfolding find_in
  found-All P [] name c a h = cc
  found-All P (x ∷ cs) name c a h = elim (Bool-cases (matches (entry x).name name)) [
    | inl hit ↦ let is : x ≡ c = ground (arith, hit) in subst P is a.0
    | inr miss ↦ found-All P cs name c a.1 (ground (arith, miss))
  ]

  Unused-apart : (cs : List ℕ) (c : ℕ) → Unused entry cs (entry c).name → All (λ x. x ≢ c) cs
  Unused-apart [] c h = tt
  Unused-apart (x ∷ cs) c h = (λ e. h.0 (ap (λ y. (entry y).name) e), Unused-apart cs c h.1)

  module _ (c : ℕ) (e : Entry) where
    changed : ℕ → Entry
    changed x = if x == c then e else entry x

    changed-name : (x : ℕ) → (changed x).name ≡ (if x == c then e.name else (entry x).name)
    unfolding changed
    changed-name x = ground arith

    changed-SameNames : (cs : List ℕ) → All (λ x. x ≢ c) cs → SameNames entry changed cs
    unfolding changed
    changed-SameNames cs h = SameNames-update entry c e cs h

    Unused-changed :
        (cs name : List ℕ) → Unused entry cs name → e.name ≢ name → Unused changed cs name
    Unused-changed [] name h k = tt
    Unused-changed (x ∷ cs) name h k = (apart, Unused-changed cs name h.1 k)
      where
        apart : (changed x).name ≢ name
        apart q = elim (Bool-cases (x == c)) [
          | inl s ↦ k (sym (changed-name x ∙ ap (λ b. if b then e.name else (entry x).name) s) ∙ q)
          | inr s ↦
              h.0 (sym (changed-name x ∙ ap (λ b. if b then e.name else (entry x).name) s) ∙ q)
        ]

    find_in-changed :
        (cs old q : List ℕ)
        → Distinct entry cs
        → find_in entry cs old ≡ some c
        → Unused entry cs e.name
        → find_in changed cs q ≡ (
            if matches e.name q then some c else if matches old q then none else find_in entry cs q)
    unfolding find_in
    find_in-changed [] old q d h u = cc
    find_in-changed (x ∷ cs) old q d h u = elim (Bool-cases (matches (entry x).name old)) [
      | inl hit ↦
          let is : x ≡ c = ground (arith, hit) in
          let same : find_in changed cs q ≡ find_in entry cs q =
            find_in-same entry changed cs q (
              changed-SameNames cs (subst (λ y. All (λ z. z ≢ y) cs) is (Unused-apart cs x d.0))) in
          let name : (entry x).name ≡ old = (matches_iff _ _).0 hit in
          let gone : old ≡ q → find_in entry cs q ≡ none =
            λ p. find_in-Unused entry cs q (subst (Unused entry cs) (name ∙ p) d.0) in
          let named : (changed x).name ≡ e.name = ground (arith, changed-name x, is) in
          ground (arith, named, is, same, name, matches_iff old q, gone)
      | inr miss ↦
          let deeper : find_in entry cs old ≡ some c = ground (arith, miss) in
          let apart : x ≢ c = λ p.
            let hit : matches (entry x).name old ≡ true =
              (matches_iff _ _).1 (ap (λ y. (entry y).name) p ∙ found-name cs old c deeper) in
            cc in
          let named : (changed x).name ≡ (entry x).name = ground (arith, changed-name x, apart) in
          ground (
            arith,
            named,
            miss,
            u.0,
            matches_iff (entry x).name q,
            matches_iff old q,
            matches_iff e.name q,
            matches_iff (entry x).name old,
            find_in-changed cs old q d.1 deeper u.1,
          )
    ]

    Distinct-changed :
        (cs old : List ℕ)
        → Distinct entry cs
        → find_in entry cs old ≡ some c
        → Unused entry cs e.name
        → Distinct changed cs
    unfolding find_in
    Distinct-changed [] old d h u = tt
    Distinct-changed (x ∷ cs) old d h u = elim (Bool-cases (matches (entry x).name old)) [
      | inl hit ↦
          let is : x ≡ c = ground (arith, hit) in
          let same =
            changed-SameNames cs (subst (λ y. All (λ z. z ≢ y) cs) is (Unused-apart cs x d.0)) in
          let named : (changed x).name ≡ e.name = ground (arith, changed-name x, is) in
          (
            subst (Unused changed cs) (sym named) (Unused-same entry changed cs e.name same u.1),
            Distinct-same entry changed cs same d.1,
          )
      | inr miss ↦
          let deeper : find_in entry cs old ≡ some c = ground (arith, miss) in
          let apart : x ≢ c = λ p.
            let hit : matches (entry x).name old ≡ true =
              (matches_iff _ _).1 (ap (λ y. (entry y).name) p ∙ found-name cs old c deeper) in
            cc in
          let named : (changed x).name ≡ (entry x).name = ground (arith, changed-name x, apart) in
          (
            subst (Unused changed cs) (sym named)
                (Unused-changed cs (entry x).name d.0 (λ p. u.0 (sym p))),
            Distinct-changed cs old d.1 deeper u.1,
          )
    ]

-- The entry `c` has a new name in the directory, and all else is found as before.
pub record Renames (fs fs' : Fs) (d c : ℕ) (oldname newname : List ℕ) : Type 0 where
  pub found :
      (q : List ℕ)
      → find_child fs' (some d) q ≡ (
          if matches newname q
          then some c
          else if matches oldname q
          then none
          else find_child fs (some d) q)
  pub sound : IsSound fs' d
  pub same_root : fs'.root ≡ fs.root

module _ (fs : Fs) (d c : ℕ) (oldname newname : List ℕ) (v : IsSound fs d)
    (short : length newname < 128) (old : find_child fs (some d) oldname ≡ some c)
    (new : find_child fs (some d) newname ≡ none) where
  renamed : Fs
  renamed = update fs c (record (fs.entry c) { name = take 127 newname })

  renamed-Renames : Renames fs renamed d c oldname newname
  unfolding renamed changed
  renamed-Renames = record {
    found = λ q.
        find_child_lem renamed d q kind
        ∙ ap (λ l. find_in renamed.entry l q) children
        ∙ find_in-changed fs.entry c e cs oldname q v.distinct held unused
        ∙ ap
            (λ n.
              if matches n q
              then some c
              else if matches oldname q
              then none
              else find_in fs.entry cs q)
            name
        ∙ ap (λ o. if matches newname q then some c else if matches oldname q then none else o)
            (sym (find_child_lem fs d q v.is_dir));
    sound = record {
      is_dir = kind;
      room = rw children v.room;
      apart = rw children v.apart;
      distinct = rw children (Distinct-changed fs.entry c e cs oldname v.distinct held unused);
    };
    same_root = refl;
  }
    where
      cs : List ℕ
      cs = (fs.entry d).children

      e : Entry
      e = record (fs.entry c) { name = take 127 newname }

      name : e.name ≡ newname
      name = take_all 127 newname (omega arith)

      held : find_in fs.entry cs oldname ≡ some c
      held = sym (find_child_lem fs d oldname v.is_dir) ∙ old

      unused : Unused fs.entry cs e.name
      unused =
          subst (Unused fs.entry cs) (sym name)
            (find_in-none fs.entry cs newname (sym (find_child_lem fs d newname v.is_dir) ∙ new))

      apart : c ≢ d
      apart = found-All fs.entry (λ x. x ≢ d) cs oldname c v.apart held

      same : renamed.entry d ≡ fs.entry d
      same = ground (arith, apart)

      kind : (renamed.entry d).kind ≡ directory
      kind = ap (λ (x : Entry). x.kind) same ∙ v.is_dir

      children : (renamed.entry d).children ≡ cs
      children = ap (λ (x : Entry). x.children) same

-- In a sound directory and for a new name of at most 127 characters, tmpfs_rename_entry says ENOENT
-- if no entry has the old name, EEXIST if one has the new name, and changes nothing then; otherwise
-- the entry is found under the new name and not under the old one, and all others as before.
pub rename_entry_lem :
    (fs : Fs) (d : ℕ) (oldname newname : List ℕ)
    → IsSound fs d
    → length newname < 128
    → ((rename_entry fs (some d) oldname newname ≡ (err enoent, fs))
        × (find_child fs (some d) oldname ≡ none))
      ⊎ (((c : ℕ) × (b : ℕ) × (find_child fs (some d) oldname ≡ some c)
            × (find_child fs (some d) newname ≡ some b)
            × (rename_entry fs (some d) oldname newname ≡ (err eexist, fs)))
          ⊎ ((c : ℕ) × (fs' : Fs) × (find_child fs (some d) oldname ≡ some c)
              × (rename_entry fs (some d) oldname newname ≡ (ok [], fs'))
              × Renames fs fs' d c oldname newname))
unfolding rename_entry renamed
rename_entry_lem fs d oldname newname v short =
    elim (Option-cases (find_child fs (some d) oldname)) [
      | inl absent ↦ inl (ground (arith, absent), absent)
      | inr (c, old) ↦ elim (Option-cases (find_child fs (some d) newname)) [
        | inr (b, taken) ↦ inr (inl (c, b, old, taken, ground (arith, old, taken)))
        | inl new ↦ inr (
            inr (
              c,
              renamed fs d c oldname newname v short old new,
              old,
              ground (arith, old, new),
              renamed-Renames fs d c oldname newname v short old new,
            ))
      ]
    ]
