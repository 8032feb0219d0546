-- ===== src/Tcp/Stream.antt =====
-- The stream of net/tcp.c: the reader gets the data that were accepted, in order. Data that do not
-- fit into the receive buffer are not accepted, although they are acknowledged.
use shadow_box_os.Common.{
  ℕ, ◌≡◌, sym, ap, ◌∙◌, arith, inl, inr, Option, none, some, List, [], ◌∷◌, ◌++◌, append-nil,
  append_assoc, length, take-append-drop, Bool-cases, ltb, if◌then◌else◌, All, length-drop,
}
use shadow_box_os.Common.Errno.{Result, ok, err}
use shadow_box_os.Tcp.{Socket, Segment, Reply, receive, is_established, socket_recv}
use shadow_box_os.Tcp.Buffer.{IsWellFormed, accepted, IsBounded, receive_lem}

pub data Call : Type 0 where
  arrives : Segment → Call
  reads : ℕ → Call

-- What the reader got, what of the segments' data was accepted, and the socket afterwards.
pub record Outcome : Type 0 where
  pub delivered : List ℕ
  pub accepted_data : List ℕ
  pub after : Socket

abbrev read_outcome : Socket → Result (List ℕ × Socket) → Outcome
read_outcome s (ok (bytes, t)) = record { delivered = bytes; accepted_data = []; after = t }
read_outcome s (err e) = record { delivered = []; accepted_data = []; after = s }

abbrev received_outcome : Socket → List ℕ → Option (Socket × List Reply) → Outcome
received_outcome s bytes none = record { delivered = []; accepted_data = []; after = s }
received_outcome s bytes (some (t, rs)) = record {
  delivered = [];
  accepted_data = bytes;
  after = t;
}

unfoldable pub step : Socket → Call → Outcome
step s (arrives g) = received_outcome s (accepted s g) (receive s g)
step s (reads n) = read_outcome s (socket_recv s n)

unfoldable pub run : Socket → List Call → Outcome
run s [] = record { delivered = []; accepted_data = []; after = s }
run s (c ∷ cs) =
    let o = step s c in
    let rest = run o.after cs in
    record {
      delivered = o.delivered ++ rest.delivered;
      accepted_data = o.accepted_data ++ rest.accepted_data;
      after = rest.after;
    }

abbrev pub IsWellFormedCall : Call → Type 0
IsWellFormedCall (arrives g) = IsWellFormed g
IsWellFormedCall (reads n) = Unit

step_conserves :
    (s : Socket) (c : Call)
    → IsBounded s
    → IsWellFormedCall c
    → let o = step s c in
      (o.delivered ++ o.after.received ≡ s.received ++ o.accepted_data) × IsBounded o.after
unfolding step socket_recv
step_conserves s (arrives g) b w =
    let (t, rs, got, bytes, bound) = receive_lem s g b w in rw got (bytes, bound)
step_conserves s (reads n) b w = elim (Bool-cases (is_established s.state)) [
  | inl e ↦
      let k = if ltb n (length s.received) then n else length s.received in
      rw (e, socket_recv)
        (
          take-append-drop k s.received ∙ sym (append-nil s.received),
          omega (arith, length-drop k s.received),
        )
  | inr e ↦ rw (e, socket_recv) (sym (append-nil s.received), b)
]

-- From a socket whose buffer holds 65536 bytes at most, over any segments that are well formed, their
-- header within a packet of less than 2^31 bytes, and any reads: what the reader got and what waits in
-- the buffer is what waited before and the data accepted, in that order, and the buffer never holds
-- more than 65536 bytes. The data of a segment are accepted whole if the connection is established
-- and they fit with what waits into 65536 bytes, and dropped whole if not.
pub run_stream :
    (s : Socket) (cs : List Call)
    → IsBounded s
    → All IsWellFormedCall cs
    → let o = run s cs in
      (o.delivered ++ o.after.received ≡ s.received ++ o.accepted_data) × IsBounded o.after
unfolding run
run_stream s [] b w = (sym (append-nil s.received), b)
run_stream s (c ∷ cs) b w =
    let o = step s c in
    let (now, bound) = step_conserves s c b w.0 in
    let rest = run o.after cs in
    let (later, bound') = run_stream o.after cs bound w.1 in
    (
      append_assoc o.delivered rest.delivered rest.after.received
          ∙ ap (λ xs. o.delivered ++ xs) later
          ∙ sym (append_assoc o.delivered o.after.received rest.accepted_data)
          ∙ ap (λ xs. xs ++ rest.accepted_data) now
          ∙ append_assoc s.received o.accepted_data rest.accepted_data,
      bound',
    )
