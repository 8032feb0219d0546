-- ===== src/Ipc/Pipe/Lifetime.antt =====
-- When a pipe is freed: with its last open end, and not before.
use shadow_box_os.Common.{
  ℕ, ◌+◌, ◌<◌, ◌^◌, ◌≡◌, ◌⊎◌, inl, inr, refl, Bool, true, false, none, some, arith, Bool-cases,
  ◌==◌, ◌&&◌,
}
use shadow_box_os.Ipc.Pipe.{Pipe, close, dropped}

-- How many ends are open.
abbrev pub open_ends : Pipe → ℕ
open_ends p = p.readers + p.writers

-- The end that a close names is open, and the counts are 32-bit values.
pub record IsOpen (p : Pipe) (is_writer : Bool) : Type 0 where
  pub readers_small : p.readers < 2 ^ 32
  pub writers_small : p.writers < 2 ^ 32
  pub writer_open : is_writer ≡ true → 0 < p.writers
  pub reader_open : is_writer ≡ false → 0 < p.readers

-- A close of an open end frees the pipe if that was the last end, and otherwise leaves the bytes,
-- the capacity and one open end less.
pub close_lem :
    (p : Pipe) (is_writer : Bool)
    → IsOpen p is_writer
    → ((open_ends p ≡ 1) × (close p is_writer ≡ none))
      ⊎ ((q : Pipe) × (close p is_writer ≡ some q)
          × (open_ends q + 1 ≡ open_ends p)
          × (0 < open_ends q)
          × (q.ring ≡ p.ring)
          × (q.capacity ≡ p.capacity))
unfolding close
close_lem p true v =
    let q = dropped p true in
    elim (Bool-cases ((q.readers == 0) && (q.writers == 0))) [
      | inl last ↦ inl (ground (arith, v.writer_open, v.reader_open), ground arith)
      | inr more ↦ inr (q, ground arith, ground arith, ground arith, refl, refl)
    ]
close_lem p false v =
    let q = dropped p false in
    elim (Bool-cases ((q.readers == 0) && (q.writers == 0))) [
      | inl last ↦ inl (ground (arith, v.writer_open, v.reader_open), ground arith)
      | inr more ↦ inr (q, ground arith, ground arith, ground arith, refl, refl)
    ]
