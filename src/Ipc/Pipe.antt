-- ===== src/Ipc/Pipe.antt =====
-- The pipes of kernel/ipc.c (pipe_create, pipe_read, pipe_write, pipe_close). Each call holds the
-- pipe's lock from end to end, so calls are steps in a sequence. The bytes of `data` beyond what
-- was written are whatever the allocator left there.
pub mod Order
pub mod Lifetime
mod Examples
use shadow_box_os.Common.{
  ℕ, ◌+◌, ◌-◌, ◌%◌, ◌^◌, Bool, true, false, ◌&&◌, Option, none, some, List, [], ◌∷◌, length, ◌==◌,
  if◌then◌else◌,
}
use shadow_box_os.Common.Errno.{Errno, einval, enomem, Result, ok, err}
use shadow_box_os.Ring.{Ring, fill, drain}

abbrev pub pipe_buf_size : ℕ
pipe_buf_size = 4096

-- `pipe_buffer_t`: the ring's head is `write_pos`, its tail `read_pos`.
pub record Pipe : Type 0 where
  pub ring : Ring ℕ
  pub capacity : ℕ
  pub readers : ℕ
  pub writers : ℕ

-- The four allocations in order: the pipe, its data, the two nodes. A failure frees the others.
pub create : Bool → Option (List ℕ) → Bool → Bool → Result Pipe
create false bytes rnode wnode = err enomem
create true none rnode wnode = err enomem
create true (some bytes) rnode wnode =
    if rnode && wnode
    then ok (record {
      ring = record { cells = bytes; head = 0; tail = 0 };
      capacity = pipe_buf_size;
      readers = 1;
      writers = 1;
    })
    else err enomem

-- `none` is a null pipe, and `false` a null buffer. Returns the bytes that reach the buffer.
pub read : Option Pipe → Bool → ℕ → Result (List ℕ × Pipe)
read none buf size = err einval
read (some p) false size = err einval
read (some p) true size =
    let (bytes, r) = drain 0 p.capacity size p.ring in ok (bytes, record p { ring = r })

-- Returns how many of the bytes went in.
pub write : Option Pipe → Option (List ℕ) → Result (ℕ × Pipe)
write none buf = err einval
write (some p) none = err einval
write (some p) (some bytes) =
    let (n, r) = fill p.capacity p.ring bytes in ok (n, record p { ring = r })

-- `uint32_t` decrement.
abbrev dec32 : ℕ → ℕ
dec32 n = (n + 2 ^ 32 - 1) % 2 ^ 32

abbrev pub dropped : Pipe → Bool → Pipe
dropped p true = record p { writers = dec32 p.writers }
dropped p false = record p { readers = dec32 p.readers }

-- `none` afterwards: the pipe and its data were freed.
pub close : Pipe → Bool → Option Pipe
close p is_writer =
    let q = dropped p is_writer in if (q.readers == 0) && (q.writers == 0) then none else some q
