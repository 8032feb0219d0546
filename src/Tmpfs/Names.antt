-- ===== src/Tmpfs/Names.antt =====
-- fs/tmpfs.c: names in a list of children, and how a change of the list shows in a search.
use shadow_box_os.Common.{
  ℕ, suc, ◌≡◌, ◌≢◌, refl, ap, sym, subst, ◌∙◌, true, inl, inr, Bool-cases, none, some, List, [],
  ◌∷◌, ◌++◌, length, All, ◌==◌, if◌then◌else◌, arith,
}
use shadow_box_os.Common.Text.{matches, matches_iff}
use shadow_box_os.Tmpfs.{Entry}
use shadow_box_os.Tmpfs.Tree.{find_in, split_child}

-- No child has the name.
abbrev pub Unused : (ℕ → Entry) → List ℕ → List ℕ → Type 0
Unused entry cs name = All (λ c. (entry c).name ≢ name) cs

-- No two children have the same name.
abbrev pub Distinct : (ℕ → Entry) → List ℕ → Type 0
Distinct entry [] = Unit
Distinct entry (c ∷ cs) = Unused entry cs (entry c).name × Distinct entry cs

abbrev pub SameNames : (ℕ → Entry) → (ℕ → Entry) → List ℕ → Type 0
SameNames entry entry' cs = All (λ c. (entry' c).name ≡ (entry c).name) cs

pub find_in-none :
    (entry : ℕ → Entry) (cs name : List ℕ) → find_in entry cs name ≡ none → Unused entry cs name
unfolding find_in
find_in-none entry [] name h = tt
find_in-none entry (c ∷ cs) name h = (
  λ e. let m : matches (entry c).name name ≡ true = (matches_iff _ _).1 e in ground (arith, m),
  find_in-none entry cs name (ground arith),
)

pub find_in-Unused :
    (entry : ℕ → Entry) (cs name : List ℕ) → Unused entry cs name → find_in entry cs name ≡ none
unfolding find_in
find_in-Unused entry [] name h = refl
find_in-Unused entry (c ∷ cs) name h =
    ground (arith, matches_iff (entry c).name name, find_in-Unused entry cs name h.1, h.0)

pub find_in-same :
    (entry entry' : ℕ → Entry) (cs name : List ℕ)
    → SameNames entry entry' cs
    → find_in entry' cs name ≡ find_in entry cs name
unfolding find_in
find_in-same entry entry' [] name h = refl
find_in-same entry entry' (c ∷ cs) name h =
    ground (arith, find_in-same entry entry' cs name h.1, ap (λ n. matches n name) h.0)

pub find_in-append :
    (entry : ℕ → Entry) (cs : List ℕ) (c : ℕ) (name q : List ℕ)
    → (entry c).name ≡ name
    → find_in entry cs name ≡ none
    → find_in entry (cs ++ c ∷ []) q ≡ (if matches name q then some c else find_in entry cs q)
unfolding find_in
find_in-append entry [] c name q e h = rw e refl
find_in-append entry (x ∷ cs) c name q e h = ground (
  arith,
  matches_iff (entry x).name q,
  matches_iff name q,
  matches_iff (entry x).name name,
  find_in-append entry cs c name q e,
)

pub Unused-append :
    (entry : ℕ → Entry) (cs : List ℕ) (c : ℕ) (name : List ℕ)
    → Unused entry cs name
    → (entry c).name ≢ name
    → Unused entry (cs ++ c ∷ []) name
Unused-append entry [] c name h k = (k, tt)
Unused-append entry (x ∷ cs) c name h k = (h.0, Unused-append entry cs c name h.1 k)

pub Distinct-append :
    (entry : ℕ → Entry) (cs : List ℕ) (c : ℕ)
    → Distinct entry cs
    → Unused entry cs (entry c).name
    → Distinct entry (cs ++ c ∷ [])
Distinct-append entry [] c h k = (tt, tt)
Distinct-append entry (x ∷ cs) c h k = (
  Unused-append entry cs c (entry x).name h.0 (λ e. k.0 (sym e)),
  Distinct-append entry cs c h.1 k.1,
)

pub Unused-same :
    (entry entry' : ℕ → Entry) (cs name : List ℕ)
    → SameNames entry entry' cs
    → Unused entry cs name
    → Unused entry' cs name
Unused-same entry entry' [] name h k = tt
Unused-same entry entry' (c ∷ cs) name h k =
    (λ e. k.0 (sym h.0 ∙ e), Unused-same entry entry' cs name h.1 k.1)

pub Distinct-same :
    (entry entry' : ℕ → Entry) (cs : List ℕ)
    → SameNames entry entry' cs
    → Distinct entry cs
    → Distinct entry' cs
Distinct-same entry entry' [] h k = tt
Distinct-same entry entry' (c ∷ cs) h k = (
  subst (Unused entry' cs) (sym h.0) (Unused-same entry entry' cs (entry c).name h.1 k.0),
  Distinct-same entry entry' cs h.1 k.1,
)

pub SameNames-update :
    (entry : ℕ → Entry) (a : ℕ) (e : Entry) (cs : List ℕ)
    → All (λ c. c ≢ a) cs
    → SameNames entry (λ x. if x == a then e else entry x) cs
SameNames-update entry a e [] h = tt
SameNames-update entry a e (c ∷ cs) h =
    (let other : c ≢ a = h.0 in ground arith, SameNames-update entry a e cs h.1)

-- The child `c` with the name is taken out, and `rest` is left.
pub record Removed (entry : ℕ → Entry) (cs name : List ℕ) (c : ℕ) (rest : List ℕ) : Type 0 where
  pub fewer : suc (length rest) ≡ length cs
  pub others :
      (q : List ℕ) → find_in entry rest q ≡ (if matches name q then none else find_in entry cs q)
  pub distinct : Distinct entry rest
  pub unused : (q : List ℕ) → Unused entry cs q → Unused entry rest q
  pub apart : (a : ℕ) → All (λ x. x ≢ a) cs → All (λ x. x ≢ a) rest

-- In a list without two children of one name the search and the removal meet the same child.
pub split_child_lem :
    (entry : ℕ → Entry) (cs name : List ℕ) (c : ℕ)
    → Distinct entry cs
    → find_in entry cs name ≡ some c
    → (rest : List ℕ) × (split_child entry cs name ≡ some (c, rest)) × Removed entry cs name c rest
unfolding find_in split_child
split_child_lem entry [] name c d h = cc
split_child_lem entry (x ∷ cs) name c d h = elim (Bool-cases (matches (entry x).name name)) [
  | inl hit ↦
      let is : (entry x).name ≡ name = (matches_iff _ _).0 hit in
      (
        cs,
        ground (arith, hit),
        record {
          fewer = refl;
          others = λ q.
              let gone : name ≡ q → find_in entry cs q ≡ none =
                λ e. find_in-Unused entry cs q (subst (Unused entry cs) (is ∙ e) d.0) in
              ground (arith, matches_iff (entry x).name q, matches_iff name q, gone, is);
          distinct = d.1;
          unused = λ q h. h.1;
          apart = λ a h. h.1;
        },
      )
  | inr miss ↦
      let (rest, run, r) = split_child_lem entry cs name c d.1 (ground (arith, miss)) in
      (
        x ∷ rest,
        ground (arith, miss, run),
        record {
          fewer = ap suc r.fewer;
          others = λ q. ground (
            arith,
            miss,
            matches_iff (entry x).name q,
            matches_iff name q,
            matches_iff (entry x).name name,
            r.others q,
          );
          distinct = (r.unused (entry x).name d.0, r.distinct);
          unused = λ q h. (h.0, r.unused q h.1);
          apart = λ a h. (h.0, r.apart a h.1);
        },
      )
]
