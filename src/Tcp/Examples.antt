-- ===== src/Tcp/Examples.antt =====
-- The theorems on TCP at concrete sockets and segments.
use shadow_box_os.Common.{ℕ, ◌≡◌, refl, arith, some, List, [], ◌∷◌, ◌++◌, All, true}
use shadow_box_os.Tcp.{
  State, syn_sent, established, Socket, Segment, Reply, sends_ack, socket_create, socket_connect,
  socket_listen, listen, parse, handle_packet, dispatch, receive, receive_in, take_data,
}
use shadow_box_os.Tcp.States.{Moves, receive-Moves}
use shadow_box_os.Tcp.Buffer.{IsBounded, accepted, receive_lem}
use shadow_box_os.Tcp.Stream.{arrives, reads, run, run_stream}
use shadow_box_os.Tcp.Table.{Took, handle_packet_lem}
use shadow_box_os.Common.Errno.{ok}
use shadow_box_os.Tcp.Send.{socket_bind}

-- From port 80 to port 49152, PSH and ACK, with the bytes "hi".
abbrev packet : List ℕ
packet =
    0 ∷ 80 ∷ 192 ∷ 0 ∷ 0 ∷ 0 ∷ 1 ∷ 0 ∷ 0 ∷ 0 ∷ 0 ∷ 5 ∷ 0x50 ∷ 0x18 ∷ 0 ∷ 0 ∷ 0 ∷ 0 ∷ 0 ∷ 0 ∷ 104
    ∷ 105 ∷ []

abbrev segment : Segment
segment = record {
  src_port = 80;
  dest_port = 49152;
  seq = 256;
  ack = 5;
  data_offset = 0x50;
  flags = 0x18;
  bytes = packet;
}

abbrev peer : State → Socket
peer st = record {
  local_ip = 0;
  local_port = 49152;
  remote_ip = 7;
  remote_port = 80;
  send_seq = 5;
  recv_seq = 256;
  send_unack = 0;
  send_window = 8192;
  recv_window = 8192;
  state = st;
  received = 111 ∷ [];
  cwnd = 10;
  ssthresh = 65535;
  rtt = 80;
  rtt_var = 40;
  rto = 240;
}

parsed : parse packet ≡ some segment
unfolding parse
parsed = refl

connected : (socket_connect socket_create 7 80 49152 3 true).1 ≡ 49153
unfolding socket_connect socket_create
connected = refl

listening : (socket_listen socket_create 49152).0.state ≡ listen
unfolding socket_listen socket_create
listening = refl

answered :
    handle_packet (peer established ∷ []) packet
    ≡ some (
      record (peer established) { send_unack = 5; recv_seq = 258; received = 111 ∷ 104 ∷ 105 ∷ [] }
          ∷ [],
      sends_ack 5 258 ∷ [],
    )
unfolding handle_packet parse dispatch receive_in take_data
answered = refl

abbrev syn_ack : Segment
syn_ack = record segment { flags = 0x12 }

receive-Moves_example :
    Moves syn_sent (record (peer established) { recv_seq = 257; send_unack = 5 }).state
unfolding receive_in
receive-Moves_example =
    receive-Moves (peer syn_sent) syn_ack
      (record (peer established) { recv_seq = 257; send_unack = 5 }) (sends_ack 5 257 ∷ []) refl

receive_lem_example :
    (t : Socket) × (rs : List Reply) × (receive (peer established) segment ≡ some (t, rs))
    × (t.received ≡ 111 ∷ accepted (peer established) segment)
    × IsBounded t
receive_lem_example =
    receive_lem (peer established) segment (omega arith) (omega arith, omega arith)

run_stream_example :
    let o = run (peer established) (arrives segment ∷ reads 2 ∷ arrives segment ∷ []) in
    (o.delivered ++ o.after.received ≡ 111 ∷ o.accepted_data) × IsBounded o.after
run_stream_example =
    run_stream (peer established) (arrives segment ∷ reads 2 ∷ arrives segment ∷ []) (omega arith)
      ((omega arith, omega arith), (tt, ((omega arith, omega arith), tt)))

handle_packet_lem_example :
    (ts : List Socket) × (rs : List Reply) × (handle_packet (peer established ∷ []) packet
      ≡ some (ts, rs))
    × All IsBounded ts
    × Took segment (peer established ∷ []) ts
handle_packet_lem_example =
    handle_packet_lem (peer established ∷ []) packet segment (omega arith, tt) parsed
      (omega arith, omega arith)

bound :
    socket_bind (some (peer established)) 5 81
    ≡ ok (record (peer established) { local_ip = 5; local_port = 81 })
unfolding socket_bind
bound = refl
