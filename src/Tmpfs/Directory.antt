-- ===== src/Tmpfs/Directory.antt =====
-- fs/tmpfs.c: what making and removing entries does to a directory, seen through the search by name.
use shadow_box_os.Common.{
  ℕ, ◌+◌, ◌≤◌, ◌<◌, ◌≡◌, ◌≢◌, refl, ap, sym, subst, ◌∙◌, false, none, some, List, [], ◌∷◌, ◌++◌,
  length, All, if◌then◌else◌, arith, length-append, All-append, take_all, ◌%◌, ◌^◌,
}
use shadow_box_os.Common.Text.{matches}
use shadow_box_os.Tmpfs.{
  Entry, Fs, Memory, Kind, directory, max_entries, update, create_entry, new_entry,
}
use shadow_box_os.Tmpfs.Tree.{find_in, find_child, linked, added, is_full}
use shadow_box_os.Tmpfs.Names.{
  Unused, Distinct, SameNames, find_in-none, find_in-same, find_in-append, Distinct-append,
  Distinct-same, SameNames-update,
}

-- A directory that does not hold itself and whose children, 256 at most, have different names.
pub record IsSound (fs : Fs) (d : ℕ) : Type 0 where
  pub is_dir : (fs.entry d).kind ≡ directory
  pub room : length (fs.entry d).children ≤ max_entries
  pub apart : All (λ c. c ≢ d) (fs.entry d).children
  pub distinct : Distinct fs.entry (fs.entry d).children

-- What kmalloc gives is not in use in the directory.
abbrev pub IsFresh : Fs → ℕ → Memory → Type 0
IsFresh fs d m = (a : ℕ) → m.entry_at ≡ some a → (a ≢ d) × All (λ c. c ≢ a) (fs.entry d).children

-- `c` is new in the directory under the name, and all else is found as before.
pub record Adds (fs fs' : Fs) (d c : ℕ) (name : List ℕ) : Type 0 where
  pub found :
      (q : List ℕ)
      → find_child fs' (some d) q ≡ (if matches name q then some c else find_child fs (some d) q)
  pub sound : IsSound fs' d
  pub same_root : fs'.root ≡ fs.root

-- The name is gone, and all else is found as before.
pub record Removes (fs fs' : Fs) (d : ℕ) (name : List ℕ) : Type 0 where
  pub found :
      (q : List ℕ)
      → find_child fs' (some d) q ≡ (if matches name q then none else find_child fs (some d) q)
  pub sound : IsSound fs' d
  pub same_root : fs'.root ≡ fs.root

SameNames-trans :
    (f g h : ℕ → Entry) (cs : List ℕ) → SameNames f g cs → SameNames g h cs → SameNames f h cs
SameNames-trans f g h [] p q = tt
SameNames-trans f g h (c ∷ cs) p q = (q.0 ∙ p.0, SameNames-trans f g h cs p.1 q.1)

-- The file system after `name` was linked into the directory at the address `a`.
pub with_entry : Fs → ℕ → List ℕ → Kind → Memory → ℕ → Fs
with_entry fs d name kind m a =
    let e = new_entry name kind (some d) fs.next_inode m.buffer_given in
    linked (record (update fs a e) { next_inode = (fs.next_inode + 1) % 2 ^ 32 }) d a

pub find_child_lem :
    (fs : Fs) (d : ℕ) (q : List ℕ)
    → (fs.entry d).kind ≡ directory
    → find_child fs (some d) q ≡ find_in fs.entry (fs.entry d).children q
unfolding find_child
find_child_lem fs d q e = rw e refl

module _ (fs : Fs) (d : ℕ) (name : List ℕ) (kind : Kind) (m : Memory) (a : ℕ) (v : IsSound fs d)
    (short : length name < 128) (fresh : IsFresh fs d m) (given : m.entry_at ≡ some a) where
  pub after : Fs
  after = with_entry fs d name kind m a

  with-children : (after.entry d).children ≡ (fs.entry d).children ++ a ∷ []
  unfolding after with_entry linked
  with-children = let other : a ≢ d = (fresh a given).0 in ground (arith, other)

  with-kind : (after.entry d).kind ≡ directory
  unfolding after with_entry linked
  with-kind = let other : a ≢ d = (fresh a given).0 in ground (arith, other, v.is_dir)

  with-name : (after.entry a).name ≡ name
  unfolding after with_entry linked new_entry
  with-name =
      let other : a ≢ d = (fresh a given).0 in
      ground (arith, other, take_all 127 name (omega arith))

  with-SameNames : SameNames fs.entry after.entry (fs.entry d).children
  unfolding after with_entry linked
  with-SameNames =
      SameNames-trans fs.entry with_new after.entry (fs.entry d).children
        (SameNames-update fs.entry a _ (fs.entry d).children (fresh a given).1)
        (SameNames-update with_new d _ (fs.entry d).children v.apart)
    where
      with_new : ℕ → Entry
      with_new = (update fs a (new_entry name kind (some d) fs.next_inode m.buffer_given)).entry

  pub after-other : (k : ℕ) → k ≢ d → k ≢ a → after.entry k ≡ fs.entry k
  unfolding after with_entry linked
  after-other k h q = ground (arith, h, q)

  pub after-SameName : (k : ℕ) → k ≢ a → (after.entry k).name ≡ (fs.entry k).name
  unfolding after with_entry linked
  after-SameName k h = ground (arith, h, ap (λ x. (fs.entry x).name))

  same_root : after.root ≡ fs.root
  unfolding after with_entry linked
  same_root = refl

  pub added_run : added fs d name kind m ≡ (some a, after)
  unfolding after with_entry added create_entry
  added_run = ground (arith, given)

  pub with-Adds : is_full fs d ≡ false → find_child fs (some d) name ≡ none → Adds fs after d a name
  unfolding is_full
  with-Adds room absent = record {
    found = λ q.
        find_child_lem after d q with-kind
        ∙ ap (λ l. find_in after.entry l q) with-children
        ∙ find_in-append after.entry cs a name q with-name
            (find_in-same fs.entry after.entry cs name with-SameNames ∙ unused)
        ∙ ap (λ o. if matches name q then some a else o)
            (find_in-same fs.entry after.entry cs q with-SameNames
              ∙ sym (find_child_lem fs d q v.is_dir));
    sound = record {
      is_dir = with-kind;
      room = rw with-children (omega (arith, length-append cs (a ∷ []), below));
      apart =
          rw with-children (All-append (λ c. c ≢ d) cs (a ∷ []) v.apart ((fresh a given).0, tt));
      distinct = rw with-children (
          Distinct-append after.entry cs a
            (Distinct-same fs.entry after.entry cs with-SameNames v.distinct)
            (subst (Unused after.entry cs) (sym with-name) (
              find_in-none after.entry cs name
                (find_in-same fs.entry after.entry cs name with-SameNames ∙ unused))));
    };
    same_root = same_root;
  }
    where
      cs : List ℕ
      cs = (fs.entry d).children

      unused : find_in fs.entry cs name ≡ none
      unused = sym (find_child_lem fs d name v.is_dir) ∙ absent

      below : length cs < 256
      below = ground (arith, room)
