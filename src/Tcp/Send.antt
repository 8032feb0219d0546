-- ===== src/Tcp/Send.antt =====
-- tcp_socket_bind and tcp_socket_send of net/tcp.c.
use shadow_box_os.Common.{
  ℕ, ◌+◌, ◌%◌, ◌^◌, ◌≡◌, refl, Bool, true, false, Option, none, some, List, [], ◌∷◌, length,
  if◌then◌else◌,
}
use shadow_box_os.Common.Errno.{einval, enodev, enomem, Result, ok, err}
use shadow_box_os.Tcp.{Socket, is_established}

-- `none` is a null socket.
unfoldable pub socket_bind : Option Socket → ℕ → ℕ → Result Socket
socket_bind none ip port = err einval
socket_bind (some s) ip port = ok (record s { local_ip = ip; local_port = port })

-- A data segment, by the fields that the code sets from the socket.
pub record DataSegment : Type 0 where
  pub seq_num : ℕ
  pub ack_num : ℕ
  pub payload : List ℕ

-- The return value, the socket, and what goes out. The two flags are the allocations of the segment and
-- of the packet around it; the number moves on also when the second fails.
unfoldable pub send_data : Socket → List ℕ → Bool → Bool → Result ℕ × Socket × List DataSegment
send_data s bytes false packet = (err enomem, s, [])
send_data s bytes true packet =
    let t = record s { send_seq = (s.send_seq + length bytes) % 2 ^ 32 } in
    if packet
    then (
      ok ((20 + length bytes) % 2 ^ 32),
      t,
      record { seq_num = s.send_seq; ack_num = s.recv_seq; payload = bytes } ∷ [],
    )
    else (err enomem, t, [])

unfoldable pub socket_send :
    Socket → List ℕ → Bool → Bool → Bool → Result ℕ × Socket × List DataSegment
socket_send s bytes has_dev segment packet =
    if is_established s.state
    then (if has_dev then send_data s bytes segment packet else (err enodev, s, []))
    else (err einval, s, [])

-- On an established socket, with a device and memory, what goes out carries the number before the
-- call, and the number moves on by the bytes; the value returned counts the header of 20 bytes too.
pub sent_lem :
    (s : Socket) (bytes : List ℕ)
    → is_established s.state ≡ true
    → socket_send s bytes true true true ≡ (
      ok ((20 + length bytes) % 2 ^ 32),
      record s { send_seq = (s.send_seq + length bytes) % 2 ^ 32 },
      record { seq_num = s.send_seq; ack_num = s.recv_seq; payload = bytes } ∷ [],
    )
unfolding socket_send send_data
sent_lem s bytes e = rw (e, socket_send) refl
