-- ===== src/Tcp.antt =====
-- net/tcp.c: TCP sockets, their states, the data they receive and their timers.
pub mod States
pub mod Data
pub mod Buffer
pub mod Stream
pub mod Table
pub mod Timers
pub mod Send
mod Examples
use shadow_box_os.Common.{
  ℕ, zero, suc, ◌+◌, ◌-◌, ◌*◌, ◌/◌, ◌%◌, ◌^◌, Bool, true, false, not, ◌&&◌, ◌||◌, Option, none,
  some, List, [], ◌∷◌, ◌++◌, length, get_or, take, drop, min, bit_and, ltb, leb, ◌==◌,
  if◌then◌else◌,
}
use shadow_box_os.Common.Errno.{Errno, einval, Result, ok, err}

pub data State : Type 0 where
  closed : State
  listen : State
  syn_sent : State
  syn_received : State
  established : State
  fin_wait_1 : State
  fin_wait_2 : State
  close_wait : State
  closing : State
  last_ack : State
  time_wait : State

-- `tcp_socket_t`; the first `recv_buffer_size` bytes of the receive buffer.
pub record Socket : Type 0 where
  pub local_ip : ℕ
  pub local_port : ℕ
  pub remote_ip : ℕ
  pub remote_port : ℕ
  pub send_seq : ℕ
  pub recv_seq : ℕ
  pub send_unack : ℕ
  pub send_window : ℕ
  pub recv_window : ℕ
  pub state : State
  pub received : List ℕ
  pub cwnd : ℕ
  pub ssthresh : ℕ
  pub rtt : ℕ
  pub rtt_var : ℕ
  pub rto : ℕ

abbrev pub tcp_mss : ℕ
tcp_mss = 1460

abbrev pub tcp_min_rto : ℕ
tcp_min_rto = 200

abbrev pub tcp_max_rto : ℕ
tcp_max_rto = 120000

abbrev pub buffer_size : ℕ
buffer_size = 65536

-- A new socket; the two buffers and the socket were allocated.
unfoldable pub socket_create : Socket
socket_create = record {
  local_ip = 0;
  local_port = 0;
  remote_ip = 0;
  remote_port = 0;
  send_seq = 0;
  recv_seq = 0;
  send_unack = 0;
  send_window = 8192;
  recv_window = 8192;
  state = closed;
  received = [];
  cwnd = 10;
  ssthresh = 65535;
  rtt = 0;
  rtt_var = 0;
  rto = tcp_min_rto;
}

-- The segments that the code sends, by the fields that it sets from its arguments.
pub data Reply : Type 0 where
  sends_syn : Reply
  sends_ack : ℕ → ℕ → Reply
  sends_fin : Reply

-- `next_port` is the static counter, `now` the clock in milliseconds, and `has_dev` says that there
-- is a device. The results are the socket, the counter and what is sent.
unfoldable pub socket_connect : Socket → ℕ → ℕ → ℕ → ℕ → Bool → Socket × ℕ × List Reply
socket_connect s ip port next_port now has_dev =
    let fresh = s.local_port == 0 in
    (
      record s {
        remote_ip = ip;
        remote_port = port;
        local_port = if fresh then next_port else s.local_port;
        send_seq = (now * 1000) % 2 ^ 32;
        state = syn_sent;
      },
      if fresh then (next_port + 1) % 2 ^ 16 else next_port,
      if has_dev then sends_syn ∷ [] else [],
    )

unfoldable pub socket_listen : Socket → ℕ → Socket × ℕ
socket_listen s next_port =
    let fresh = s.local_port == 0 in
    (
      record s { local_port = if fresh then next_port else s.local_port; state = listen },
      if fresh then (next_port + 1) % 2 ^ 16 else next_port,
    )

abbrev pub tcp_fin : ℕ
tcp_fin = 0x01

abbrev pub tcp_syn : ℕ
tcp_syn = 0x02

abbrev pub tcp_ack : ℕ
tcp_ack = 0x10

-- The header's fields in host order, and the whole packet.
pub record Segment : Type 0 where
  pub src_port : ℕ
  pub dest_port : ℕ
  pub seq : ℕ
  pub ack : ℕ
  pub data_offset : ℕ
  pub flags : ℕ
  pub bytes : List ℕ

abbrev pub byte : List ℕ → ℕ → ℕ
byte packet i = get_or packet i 0

abbrev pub be16 : List ℕ → ℕ → ℕ
be16 packet i = byte packet i * 256 + byte packet (i + 1)

abbrev pub be32 : List ℕ → ℕ → ℕ
be32 packet i = be16 packet i * 65536 + be16 packet (i + 2)

-- A packet shorter than the header is dropped.
unfoldable pub parse : List ℕ → Option Segment
parse packet =
    if ltb (length packet) 20
    then none
    else some (record {
      src_port = be16 packet 0;
      dest_port = be16 packet 2;
      seq = be32 packet 4;
      ack = be32 packet 8;
      data_offset = byte packet 12;
      flags = byte packet 13;
      bytes = packet;
    })

abbrev pub has : Segment → ℕ → Bool
has g flag = not (bit_and g.flags flag == 0)

abbrev pub is_syn_ack : Segment → Bool
is_syn_ack g = bit_and g.flags (tcp_syn + tcp_ack) == tcp_syn + tcp_ack

-- The bytes of the header, by its own word.
abbrev pub header_len : Segment → ℕ
header_len g = (g.data_offset / 16) * 4

-- `uint32_t`: a header that claims to be longer than the packet wraps around.
abbrev pub data_len : Segment → ℕ
data_len g = (length g.bytes % 2 ^ 32 + 2 ^ 32 - header_len g) % 2 ^ 32

abbrev pub room_for : Socket → Segment → Bool
room_for s g = leb ((length s.received + data_len g) % 2 ^ 32) buffer_size

-- What happens to the data of a segment; `none` is a copy past the packet and the buffer.
unfoldable pub take_data : Socket → Segment → Option (Socket × List Reply)
take_data s g =
    let recv_seq = (g.seq + data_len g) % 2 ^ 32 in
    let kept = record s { recv_seq = recv_seq } in
    let stored = record kept { received = s.received ++ drop (header_len g) g.bytes } in
    let reply = sends_ack s.send_seq recv_seq ∷ [] in
    if data_len g == 0
    then some (s, [])
    else if not (room_for s g)
    then some (kept, reply)
    else if leb (header_len g) (length g.bytes)
    then some (stored, reply)
    else none

abbrev pub acked : Socket → Segment → Socket
acked s g = if has g tcp_ack then record s { send_unack = g.ack } else s

abbrev pub seq_next : Segment → ℕ
seq_next g = (g.seq + 1) % 2 ^ 32

abbrev pub finished : Socket → Segment → Socket × List Reply
finished s g =
    if has g tcp_fin
    then (record s { state = close_wait }, sends_ack s.send_seq (seq_next g) ∷ [])
    else (s, [])

abbrev pub opened : Socket → Segment → State → Socket
opened s g st = record s { state = st; recv_seq = seq_next g }

abbrev pub timed : Socket → Segment → Option (Socket × List Reply)
timed s g =
    if has g tcp_fin
    then some (record s { state = time_wait }, sends_ack s.send_seq (seq_next g) ∷ [])
    else some (s, [])

abbrev pub syn_answered : Socket → Segment → Option (Socket × List Reply)
syn_answered s g =
    if is_syn_ack g
    then some (
      record (opened s g established) { send_unack = g.ack },
      sends_ack s.send_seq (seq_next g) ∷ [],
    )
    else if has g tcp_syn
    then some (opened s g syn_received, sends_ack s.send_seq (seq_next g) ∷ sends_syn ∷ [])
    else some (s, [])

abbrev pub ack_answered : Socket → Segment → Option (Socket × List Reply)
ack_answered s g =
    if has g tcp_ack
    then some (record s { state = established; send_unack = g.ack }, [])
    else some (s, [])

abbrev pub with_replies : List Reply → Option (Socket × List Reply) → Option (Socket × List Reply)
with_replies replies none = none
with_replies replies (some (s, more)) = some (s, replies ++ more)

abbrev pub data_answered : Socket → Segment → Option (Socket × List Reply)
data_answered s g =
    let (t, replies) = finished (acked s g) g in with_replies replies (take_data t g)

-- The switch of tcp_handle_packet.
unfoldable pub receive_in : State → Socket → Segment → Option (Socket × List Reply)
receive_in syn_sent s g = syn_answered s g
receive_in syn_received s g = ack_answered s g
receive_in established s g = data_answered s g
receive_in fin_wait_1 s g = timed s g
receive_in fin_wait_2 s g = timed s g
receive_in _ s g = some (s, [])

abbrev pub receive : Socket → Segment → Option (Socket × List Reply)
receive s g = receive_in s.state s g

abbrev pub matches : Socket → Segment → Bool
matches s g =
    (s.local_port == g.dest_port) && ((s.remote_port == 0) || (s.remote_port == g.src_port))

-- The first socket that matches takes the segment.
unfoldable pub dispatch : List Socket → Segment → Option (List Socket × List Reply)
dispatch [] g = some ([], [])
dispatch (s ∷ ss) g =
    let rest = dispatch ss g in
    if matches s g
    then elim (receive s g) [ none ↦ none | some (t, replies) ↦ some (t ∷ ss, replies) ]
    else elim rest [ none ↦ none | some (ts, replies) ↦ some (s ∷ ts, replies) ]

unfoldable pub handle_packet : List Socket → List ℕ → Option (List Socket × List Reply)
handle_packet ss packet = elim (parse packet) [ none ↦ some (ss, []) | some g ↦ dispatch ss g ]

abbrev pub is_established : State → Bool
is_established established = true
is_established _ = false

-- The bytes copied out, and the socket.
unfoldable pub socket_recv : Socket → ℕ → Result (List ℕ × Socket)
socket_recv s len =
    if is_established s.state
    then (let to_copy = if ltb len (length s.received) then len else length s.received in
        ok (take to_copy s.received, record s { received = drop to_copy s.received }))
    else err einval

unfoldable pub congestion_control : Socket → Socket
congestion_control s =
    let grown =
      if ltb s.cwnd s.ssthresh then (s.cwnd * 2) % 2 ^ 32 else (s.cwnd + tcp_mss) % 2 ^ 32 in
    record s { cwnd = if ltb 65535 grown then 65535 else grown }

-- `abs` of the difference of two `uint32_t` as `int`.
abbrev pub abs_diff : ℕ → ℕ → ℕ
abs_diff a b = let d = (a + 2 ^ 32 - b) % 2 ^ 32 in if ltb d (2 ^ 31) then d else 2 ^ 32 - d

abbrev pub sampled : Socket → ℕ → Socket
sampled s sample =
    if s.rtt == 0 then record s { rtt = sample; rtt_var = sample / 2 } else record s {
      rtt = (7 * s.rtt + sample) % 2 ^ 32 / 8;
      rtt_var = (3 * s.rtt_var + abs_diff s.rtt sample) % 2 ^ 32 / 4;
    }

abbrev pub clamped : ℕ → ℕ
clamped rto =
    let low = if ltb rto tcp_min_rto then tcp_min_rto else rto in
    if ltb tcp_max_rto low then tcp_max_rto else low

unfoldable pub update_rtt : Socket → ℕ → Socket
update_rtt s sample =
    let t = sampled s sample in record t { rto = clamped ((t.rtt + 4 * t.rtt_var) % 2 ^ 32) }
