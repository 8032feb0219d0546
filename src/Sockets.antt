-- ===== src/Sockets.antt =====
-- net/socket.c: sockets of one machine. A socket is its address; the descriptor table of the process
-- is left out, so that a call takes the socket that its descriptor leads to, or `none` for EBADF.
pub mod Registry
pub mod Connect
mod Examples
use shadow_box_os.Common.Errno.{
  Result, ok, err, enoent, ebadf, enomem, einval, eafnosupport, eisconn,
}
use shadow_box_os.Common.Text.{matches}
use shadow_box_os.Common.{
  ℕ, ◌&&◌, Bool, true, false, Option, none, some, List, [], ◌∷◌, length, replicate, leb, ◌==◌,
  if◌then◌else◌,
}
use shadow_box_os.Ring.{Ring, fill, drain}

abbrev pub max_sockets : ℕ
max_sockets = 128

abbrev pub sock_buf_size : ℕ
sock_buf_size = 4096

pub record Socket : Type 0 where
  pub bound : Bool
  pub path : List ℕ
  pub ring : Ring ℕ
  pub peer : Option ℕ

pub record Sockets : Type 0 where
  pub socket : ℕ → Socket
  pub registry : List (Option ℕ)

abbrev pub update : Sockets → ℕ → Socket → Sockets
update s a v = record s { socket = λ x. if x == a then v else s.socket x }

-- `memset(sock, 0, ...)`
abbrev pub new_socket : Socket
new_socket = record {
  bound = false;
  path = [];
  ring = record { cells = replicate sock_buf_size 0; head = 0; tail = 0 };
  peer = none;
}

-- What kmalloc gives for the socket, its node and its file; the answer is the socket.
unfoldable pub create : Sockets → ℕ → Option ℕ → Bool → Bool → Result ℕ × Sockets
create s domain none node_given file_given =
    if domain == 1 then (err enomem, s) else (err eafnosupport, s)
create s domain (some a) node_given file_given =
    if domain == 1
    then (if node_given && file_given then (ok a, update s a new_socket) else (err enomem, s))
    else (err eafnosupport, s)

-- The bytes that are read.
unfoldable pub read : Sockets → ℕ → ℕ → List ℕ × Sockets
read s a size =
    let v = s.socket a in
    let (bytes, r) = drain 0 sock_buf_size size v.ring in
    (bytes, update s a (record v { ring = r }))

-- How many bytes are written into the buffer of the peer.
unfoldable pub write : Sockets → ℕ → List ℕ → ℕ × Sockets
write s a bytes = elim (s.socket a).peer [
  | none ↦ (0, s)
  | some p ↦
      let v = s.socket p in
      let (n, r) = fill sock_buf_size v.ring bytes in (n, update s p (record v { ring = r }))
]

-- The socket goes into the first free slot, if there is one.
unfoldable pub registered : List (Option ℕ) → ℕ → List (Option ℕ)
registered [] a = []
registered (none ∷ slots) a = some a ∷ slots
registered (some b ∷ slots) a = some b ∷ registered slots a

-- `none` is a path that does not fit into its 128 bytes.
unfoldable pub bind : Sockets → Option ℕ → List ℕ → Option (Result ℕ × Sockets)
bind s none path = some (err ebadf, s)
bind s (some a) path =
    let v = s.socket a in
    if v.bound
    then some (err einval, s)
    else if leb 128 (length path)
    then none
    else some (
      ok 0,
      record (update s a (record v { bound = true; path = path })) {
        registry = registered s.registry a;
      },
    )

-- The first socket in the registry that is bound to the path.
unfoldable pub bound_to : (ℕ → Socket) → List (Option ℕ) → List ℕ → Option ℕ
bound_to socket [] path = none
bound_to socket (none ∷ slots) path = bound_to socket slots path
bound_to socket (some b ∷ slots) path =
    if (socket b).bound && matches path (socket b).path then some b else bound_to socket slots path

-- `sock->peer = target`, and the way back if the target has no peer then.
unfoldable pub joined : Sockets → ℕ → ℕ → Sockets
joined s a b =
    let s' = update s a (record (s.socket a) { peer = some b }) in
    elim (s'.socket b).peer [
      | some c ↦ s'
      | none ↦ update s' b (record (s'.socket b) { peer = some a })
    ]

unfoldable pub connect : Sockets → Option ℕ → List ℕ → Result ℕ × Sockets
connect s none path = (err ebadf, s)
connect s (some a) path = elim (s.socket a).peer [
  | some c ↦ (err eisconn, s)
  | none ↦ elim (bound_to s.socket s.registry path) [
    | none ↦ (err enoent, s)
    | some b ↦ (ok 0, joined s a b)
  ]
]
