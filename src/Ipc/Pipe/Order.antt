-- ===== src/Ipc/Pipe/Order.antt =====
-- A pipe is a queue of at most `capacity - 1` bytes: reads return what was written, in order, once.
use shadow_box_os.Common.{
  ℕ, ◌-◌, ◌≤◌, ◌≡◌, refl, sym, ap, ◌∙◌, Bool, true, some, List, [], ◌∷◌, ◌++◌, arith, length, take,
  drop, min, append_assoc, append-nil, take-append-drop,
}
use shadow_box_os.Common.Errno.{Result, ok, err}
use shadow_box_os.Fifo
use shadow_box_os.Ring.{Ring, fill, drain, contents}
use shadow_box_os.Ring.Invariant.{IsValid}
use shadow_box_os.Ring.Loops.{
  fill-IsValid, contents-empty, drain-IsValid, fill_refines, drain_refines,
}
use shadow_box_os.Ipc.Pipe.{Pipe, create, read, write, pipe_buf_size}

abbrev pub IsSound : Pipe → Type 0
IsSound p = IsValid p.capacity p.ring

-- The bytes that wait in the pipe, oldest first.
abbrev pub pending : Pipe → List ℕ
pending p = contents 0 p.capacity p.ring

-- If the allocator gave 4096 bytes, a pipe that pipe_create hands out is sound and empty, has
-- room for 4095 bytes and one open end of each kind.
pub create-IsSound :
    (s r w : Bool) (bytes : List ℕ) (p : Pipe)
    → pipe_buf_size ≤ length bytes
    → create s (some bytes) r w ≡ ok p
    → IsSound p × (pending p ≡ []) × (p.capacity ≡ 4096) × (p.readers ≡ 1) × (p.writers ≡ 1)
unfolding create
create-IsSound true true true bytes p room e =
    ground (arith, fresh_valid, contents-empty 0 fresh fresh_valid refl)
  where
    fresh : Ring ℕ
    fresh = record { cells = bytes; head = 0; tail = 0 }

    fresh_valid : IsValid pipe_buf_size fresh
    fresh_valid = omega arith
create-IsSound s r w bytes p room e = cc

-- One call on a pipe: a write of some bytes, or a read of at most so many.
pub data Call : Type 0 where
  writes : List ℕ → Call
  reads : ℕ → Call

-- What a call takes in, what it gives out, and the pipe after it.
pub record Outcome : Type 0 where
  pub accepted : List ℕ
  pub received : List ℕ
  pub after : Pipe

abbrev of_write : Pipe → List ℕ → Result (ℕ × Pipe) → Outcome
of_write p bytes (ok (n, q)) = record { accepted = take n bytes; received = []; after = q }
of_write p bytes (err e) = record { accepted = []; received = []; after = p }

abbrev of_read : Pipe → Result (List ℕ × Pipe) → Outcome
of_read p (ok (bytes, q)) = record { accepted = []; received = bytes; after = q }
of_read p (err e) = record { accepted = []; received = []; after = p }

pub step : Pipe → Call → Outcome
step p (writes bytes) = of_write p bytes (write (some p) (some bytes))
step p (reads n) = of_read p (read (some p) true n)

-- Calls in sequence: all that was accepted, all that was received, and the pipe at the end.
pub run : Pipe → List Call → Outcome
run p [] = record { accepted = []; received = []; after = p }
run p (c ∷ cs) =
    let first = step p c in
    let rest = run first.after cs in
    record {
      accepted = first.accepted ++ rest.accepted;
      received = first.received ++ rest.received;
      after = rest.after;
    }

write-IsSound : (p : Pipe) (bytes : List ℕ) → IsSound p → IsSound (step p (writes bytes)).after
unfolding step write
write-IsSound p bytes v = fill-IsValid p.ring bytes v

read-IsSound : (p : Pipe) (n : ℕ) → IsSound p → IsSound (step p (reads n)).after
unfolding step read
read-IsSound p n v = drain-IsValid 0 n p.ring v

pub step-IsSound : (p : Pipe) (c : Call) → IsSound p → IsSound (step p c).after
step-IsSound p (writes bytes) v = write-IsSound p bytes v
step-IsSound p (reads n) v = read-IsSound p n v

-- On a sound pipe, pipe_write takes the first bytes, as many as fit beside those that wait (one slot of the
-- capacity stays empty), and appends them.
pub write_lem :
    (p : Pipe) (bytes : List ℕ)
    → IsSound p
    → let fitting = min (length bytes) (p.capacity - 1 - length (pending p)) in
      (q : Pipe) × (write (some p) (some bytes) ≡ ok (fitting, q))
      × (pending q ≡ pending p ++ take fitting bytes)
      × IsSound q
unfolding step write Fifo.push_all
write_lem p bytes v =
    let put = fill p.capacity p.ring bytes in
    (
      record p { ring = put.1 },
      ground (arith, fill_refines 0 p.ring bytes v),
      ground (arith, fill_refines 0 p.ring bytes v),
      write-IsSound p bytes v,
    )

-- On a sound pipe, pipe_read returns the oldest bytes, as many as asked for and there, and keeps the others.
pub read_lem :
    (p : Pipe) (n : ℕ)
    → IsSound p
    → (q : Pipe) × (read (some p) true n ≡ ok (take n (pending p), q))
      × (pending q ≡ drop n (pending p))
      × IsSound q
unfolding step read Fifo.pop_all
read_lem p n v =
    let got = drain 0 p.capacity n p.ring in
    (
      record p { ring = got.1 },
      ground (arith, drain_refines 0 n p.ring v),
      ground (arith, drain_refines 0 n p.ring v),
      read-IsSound p n v,
    )

step_conserves :
    (p : Pipe) (c : Call)
    → IsSound p
    → let o = step p c in o.received ++ pending o.after ≡ pending p ++ o.accepted
unfolding step write read Fifo.push_all Fifo.pop_all
step_conserves p (writes bytes) v = ground (arith, fill_refines 0 p.ring bytes v)
step_conserves p (reads n) v =
    ground
      (arith, drain_refines 0 n p.ring v, take-append-drop n (pending p), append-nil (pending p))

-- On a sound pipe, over any sequence of calls, what was received and what still waits is what waited before and
-- what was accepted since, in the same order: nothing is lost, doubled or reordered.
pub run_conserves :
    (p : Pipe) (cs : List Call)
    → IsSound p
    → let o = run p cs in o.received ++ pending o.after ≡ pending p ++ o.accepted
unfolding run
run_conserves p [] v = sym (append-nil (pending p))
run_conserves p (c ∷ cs) v =
    let first = step p c in
    let rest = run first.after cs in
    append_assoc first.received rest.received (pending rest.after)
    ∙ ap (◌++◌ first.received) (run_conserves first.after cs (step-IsSound p c v))
    ∙ sym (append_assoc first.received (pending first.after) rest.accepted)
    ∙ ap (λ xs. xs ++ rest.accepted) (step_conserves p c v)
    ∙ append_assoc (pending p) first.accepted rest.accepted
