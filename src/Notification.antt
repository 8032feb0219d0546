-- ===== src/Notification.antt =====
-- kernel/notification.c: the list of notifications.
pub mod Lists
mod Examples
use shadow_box_os.Common.{
  ℕ, zero, suc, ◌+◌, ◌%◌, ◌^◌, Bool, true, false, Option, none, some, List, [], ◌∷◌, ◌++◌, length,
  set, take, drop, replicate, ◌==◌, if◌then◌else◌,
}

-- The fields of `notification_t` that are copied out; the strings are arrays of bytes.
pub record Note : Type 0 where
  pub id : ℕ
  pub priority : ℕ
  pub app_name : List ℕ
  pub summary : List ℕ
  pub body : List ℕ

pub record Daemon : Type 0 where
  pub notes : List Note
  pub next_notify_id : ℕ

abbrev pub init : Daemon
init = record { notes = []; next_notify_id = 1 }

-- `none` is a null notification, and `given` says that the allocation succeeded. The number is 0 if
-- the notification is not taken.
unfoldable pub send : Daemon → Option Note → Bool → ℕ × Daemon
send d none given = (0, d)
send d (some n) given =
    if given
    then (
      d.next_notify_id,
      record {
        notes = record n { id = d.next_notify_id } ∷ d.notes;
        next_notify_id = (d.next_notify_id + 1) % 2 ^ 32;
      },
    )
    else (0, d)

unfoldable pub without_first : List Note → ℕ → List Note
without_first [] id = []
without_first (n ∷ ns) id = if n.id == id then ns else n ∷ without_first ns id

abbrev pub dismiss : Daemon → ℕ → Daemon
dismiss d id = record d { notes = without_first d.notes id }

-- The bytes of a string before its end, `most` of them at most.
unfoldable pub string_prefix : ℕ → List ℕ → List ℕ
string_prefix zero cs = []
string_prefix (suc most) [] = []
string_prefix (suc most) (c ∷ cs) = if c == 0 then [] else c ∷ string_prefix most cs

-- The loop that copies a string over the bytes of `old`, and the zero at the end of the field.
abbrev pub copied : ℕ → List ℕ → List ℕ → List ℕ
copied last old source =
    let bytes = string_prefix last source in set (bytes ++ drop (length bytes) old) last 0

-- The slot of the caller's array: what was in it shows behind a shorter string.
abbrev pub copy_out : Note → Note → Note
copy_out old n = record {
  id = n.id;
  priority = n.priority % 2 ^ 8;
  app_name = copied 63 old.app_name n.app_name;
  summary = copied 127 old.summary n.summary;
  body = copied 511 old.body n.body;
}

-- The slots that are filled, from the newest notification on, at most as many as there are slots.
unfoldable pub peek : List Note → List Note → List Note
peek [] ns = []
peek (old ∷ out) [] = []
peek (old ∷ out) (n ∷ ns) = copy_out old n ∷ peek out ns
