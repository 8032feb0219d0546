-- ===== src/Input/Queue.antt =====
-- The event ring is a queue of at most 255 events that refuses the newest when it is full.
use shadow_box_os.Common.{
  ℕ, ◌≡◌, inl, inr, refl, sym, ap, ◌∙◌, Option, List, [], ◌∷◌, map, arith, Bool-cases,
  length-replicate, length-map, get_or,
}
use mathlib.Core.List.{map-append}
use mathlib.Core.Option
use native.Mathlib.Nat.{le_of_eq}
use shadow_box_os.Fifo
use shadow_box_os.Ring.{Ring, full, empty, contents}
use shadow_box_os.Ring.Invariant.{IsValid, store-IsValid, advance-IsValid}
use shadow_box_os.Ring.Refine.{contents-store, contents-advance}
use shadow_box_os.Ring.Loops.{contents-empty, no_room, room}
use shadow_box_os.Input.{Event, blank, input_ring_size, boot, push, poll_event}

-- What the drivers send of an event: all but `value`.
abbrev pub Message : Type 0
Message = ℕ × ℕ × ℕ × ℕ

abbrev pub message : Event → Message
message e = (e.kind, e.code, e.x, e.y)

-- The messages that wait, oldest first.
pub waiting : Ring Event → List Message
waiting r = map message (contents blank input_ring_size r)

pub push-IsValid :
    (r : Ring Event) (kind code x y : ℕ)
    → IsValid input_ring_size r
    → IsValid input_ring_size (push r kind code x y)
unfolding push
push-IsValid r kind code x y v = elim (Bool-cases (full input_ring_size r)) [
  | inl e ↦ rw (e, push) v
  | inr e ↦ rw (e, push) (store-IsValid v _)
]

pub poll_event-IsValid :
    (r : Ring Event) → IsValid input_ring_size r → IsValid input_ring_size (poll_event r).1
unfolding poll_event
poll_event-IsValid r v = elim (Bool-cases (empty r)) [
  | inl e ↦ rw (e, poll_event) v
  | inr e ↦ rw (e, poll_event) (advance-IsValid v)
]

-- input_push is a push into the queue of waiting messages, bounded by 255.
pub push_refines :
    (r : Ring Event) (kind code x y : ℕ)
    → IsValid input_ring_size r
    → waiting (push r kind code x y) ≡ (Fifo.push 255 (waiting r) (kind, code, x, y)).1
unfolding push waiting Fifo.push
push_refines r kind code x y v = elim (Bool-cases (full input_ring_size r)) [
  | inl e ↦ rw (e, push) (ground (arith, no_room blank r v e, length-map message held))
  | inr e ↦
      rw (e, push)
        (ground (
          arith,
          room blank r v e,
          contents-store v blank sent e,
          length-map message held,
          map-append message held (sent ∷ []),
        ))
]
  where
    held : List Event
    held = contents blank input_ring_size r

    sent : Event
    sent = record {
      kind = kind;
      code = code;
      x = x;
      y = y;
      value = (get_or r.cells r.head blank).value;
    }

-- input_poll_event is a pop of the queue of waiting messages.
pub poll_event_refines :
    (r : Ring Event)
    → IsValid input_ring_size r
    → let (out, r') = poll_event r in (Option.map message out, waiting r') ≡ Fifo.pop (waiting r)
unfolding poll_event waiting Fifo.pop
poll_event_refines r v = elim (Bool-cases (empty r)) [
  | inl e ↦ rw (e, poll_event) (rw (contents-empty blank r v e))
  | inr e ↦ rw (e, poll_event) (rw (contents-advance v blank e))
]

-- A driver sends a message, or a reader polls.
pub data Call : Type 0 where
  sends : ℕ → ℕ → ℕ → ℕ → Call
  polls : Call

-- The messages that a sequence of calls hands to the reader.
unfoldable pub run : Ring Event → List Call → List (Option Message)
run r [] = []
run r (sends kind code x y ∷ cs) = run (push r kind code x y) cs
run r (polls ∷ cs) = let (out, r') = poll_event r in Option.map message out ∷ run r' cs

unfoldable pub run_queue : List Message → List Call → List (Option Message)
run_queue q [] = []
run_queue q (sends kind code x y ∷ cs) = run_queue (Fifo.push 255 q (kind, code, x, y)).1 cs
run_queue q (polls ∷ cs) = let (out, q') = Fifo.pop q in out ∷ run_queue q' cs

run_from :
    (cs : List Call) (r : Ring Event)
    → IsValid input_ring_size r
    → run r cs ≡ run_queue (waiting r) cs
unfolding run run_queue
run_from [] r v = refl
run_from (sends kind code x y ∷ cs) r v =
    run_from cs (push r kind code x y) (push-IsValid r kind code x y v)
    ∙ ap (λ q. run_queue q cs) (push_refines r kind code x y v)
run_from (polls ∷ cs) r v =
    ap (◌∷◌ (Option.map message (poll_event r).0))
      (run_from cs (poll_event r).1 (poll_event-IsValid r v))
    ∙ ap (λ (o : Option Message × List Message). o.0 ∷ run_queue o.1 cs) (poll_event_refines r v)

boot-IsValid : IsValid input_ring_size boot
unfolding boot
boot-IsValid = record {
  backed = le_of_eq (sym (length-replicate input_ring_size blank));
  head_in = omega arith;
  tail_in = omega arith;
}

-- From boot, no sequence of input_push and input_poll_event tells the ring from an empty queue of
-- messages bounded by 255, whatever the drivers send and however the calls interleave.
pub run_refines : (cs : List Call) → run boot cs ≡ run_queue [] cs
unfolding waiting boot
run_refines cs = run_from cs boot boot-IsValid ∙ ap (λ q. run_queue q cs) nothing_waits
  where
    nothing_waits : waiting boot ≡ []
    nothing_waits = rw (contents-empty blank boot boot-IsValid refl)
