-- ===== src/Input.antt =====
-- kernel/input.c: the ring of input events between the drivers and /dev/input. Both functions run
-- with interrupts off from end to end, so calls are steps in a sequence.
pub mod Queue
mod Examples
use shadow_box_os.Common.{
  ℕ, Bool, true, false, Option, none, some, List, [], ◌∷◌, get_or, replicate,
}
use shadow_box_os.Ring.{Ring, full, store, empty, oldest, advance}

-- `input_event_t`; `x`, `y` and `value` are 16-bit patterns, which are only moved.
pub record Event : Type 0 where
  pub kind : ℕ
  pub code : ℕ
  pub x : ℕ
  pub y : ℕ
  pub value : ℕ

abbrev pub blank : Event
blank = record { kind = 0; code = 0; x = 0; y = 0; value = 0 }

abbrev pub input_ring_size : ℕ
input_ring_size = 256

-- The static ring at boot.
pub boot : Ring Event
boot = record { cells = replicate input_ring_size blank; head = 0; tail = 0 }

-- The slot keeps the `value` that it had. A full ring drops the event.
unfoldable pub push : Ring Event → ℕ → ℕ → ℕ → ℕ → Ring Event
push r kind code x y = elim (full input_ring_size r) [
  | true ↦ r
  | false ↦ store input_ring_size r (record {
    kind = kind;
    code = code;
    x = x;
    y = y;
    value = (get_or r.cells r.head blank).value;
  })
]

-- `none` is the return value 0, with `*ev` unwritten.
unfoldable pub poll_event : Ring Event → Option Event × Ring Event
poll_event r = elim (empty r) [
  | true ↦ (none, r)
  | false ↦ (some (oldest blank r), advance input_ring_size r)
]
