-- ===== src/Tcp/Data.antt =====
-- The data that a TCP socket of net/tcp.c takes from segments and hands to its reader.
use shadow_box_os.Common.{
  ℕ, ◌+◌, ◌%◌, ◌^◌, ◌≤◌, ◌<◌, ◌≡◌, refl, arith, ◌⊎◌, inl, inr, true, false, none, some, List, [],
  ◌∷◌, ◌++◌, length, drop, Bool-cases, ◌==◌, leb,
}
use shadow_box_os.Tcp.{Socket, Segment, Reply, sends_ack, take_data, data_len, room_for, header_len}

-- The bytes of the segment behind its header.
abbrev pub payload : Segment → List ℕ
payload g = drop (header_len g) g.bytes

-- The socket after a segment whose data were acknowledged.
abbrev pub advanced : Socket → Segment → Socket
advanced s g = record s { recv_seq = (g.seq + data_len g) % 2 ^ 32 }

abbrev pub data_ack : Socket → Segment → List Reply
data_ack s g = sends_ack s.send_seq ((g.seq + data_len g) % 2 ^ 32) ∷ []

-- The four ways of a segment's data: there are none; they do not fit in the buffer and are dropped,
-- but acknowledged; they are stored and acknowledged; or the header claims to be longer than the
-- packet, and the copy leaves packet and buffer.
pub take_data_lem :
    (s : Socket) (g : Segment)
    → ((data_len g ≡ 0) × (take_data s g ≡ some (s, [])))
      ⊎ ((0 < data_len g)
          × (room_for s g ≡ false)
          × (take_data s g ≡ some (advanced s g, data_ack s g)))
      ⊎ ((0 < data_len g)
          × (room_for s g ≡ true)
          × (header_len g ≤ length g.bytes)
          × (take_data s g
              ≡ some (record (advanced s g) { received = s.received ++ payload g }, data_ack s g)))
      ⊎ ((room_for s g ≡ true) × (length g.bytes < header_len g) × (take_data s g ≡ none))
unfolding take_data
take_data_lem s g = elim (Bool-cases (data_len g == 0)) [
  | inl e ↦ inl (ground arith, rw (e, take_data) refl)
  | inr e ↦ elim (Bool-cases (room_for s g)) [
    | inr full ↦ inr (inl (ground arith, full, rw (e, full, take_data) refl))
    | inl room ↦ elim (Bool-cases (leb (header_len g) (length g.bytes))) [
      | inl fits ↦
          inr (inr (inl (ground arith, room, ground arith, rw (e, room, fits, take_data) refl)))
      | inr long ↦ inr (inr (inr (room, ground arith, rw (e, room, long, take_data) refl)))
    ]
  ]
]
