-- ===== src/Descriptors.antt =====
-- kernel/task.c: the descriptor table of a process, and the counts of the files in it.
pub mod Counts
mod Examples
use shadow_box_os.Common.Errno.{Result, ok, err, emfile}
use shadow_box_os.Common.Int.{ℤ, pos, negsuc}
use shadow_box_os.Common.{
  ℕ, ◌+◌, ◌-◌, ◌%◌, ◌^◌, Option, none, some, List, [], ◌∷◌, set, get_or, ◌==◌, if◌then◌else◌,
}

abbrev pub max_fds : ℕ
max_fds = 256

-- The slots of the process, and the `refcount` of every file.
pub record Files : Type 0 where
  pub fds : List (Option ℕ)
  pub refcount : ℕ → ℕ

-- `file->refcount++` and `file->refcount--`
abbrev pub counted_up : (ℕ → ℕ) → ℕ → ℕ → ℕ
counted_up r f x = if x == f then (r f + 1) % 2 ^ 32 else r x

abbrev pub counted_down : (ℕ → ℕ) → ℕ → ℕ → ℕ
counted_down r f x = if x == f then (r f + 2 ^ 32 - 1) % 2 ^ 32 else r x

unfoldable pub free_slot : List (Option ℕ) → Option ℕ
free_slot [] = none
free_slot (none ∷ fds) = some 0
free_slot (some f ∷ fds) = elim (free_slot fds) [ none ↦ none | some i ↦ some (i + 1) ]

unfoldable pub install : Files → ℕ → Result ℕ × Files
install s f = elim (free_slot s.fds) [
  | none ↦ (err emfile, s)
  | some i ↦ (ok i, record { fds = set s.fds i (some f); refcount = counted_up s.refcount f })
]

unfoldable pub get : Files → ℤ → Option ℕ
get s (negsuc n) = none
get s (pos fd) = get_or s.fds fd none

-- The file that is given up, if its last reference went.
unfoldable pub close : Files → ℤ → Option ℕ × Files
unfolding get
close s (negsuc n) = (none, s)
close s (pos fd) = elim (get s (pos fd)) [
  | none ↦ (none, s)
  | some f ↦
      let r = counted_down s.refcount f in
      (if r f == 0 then some f else none, record { fds = set s.fds fd none; refcount = r })
]
