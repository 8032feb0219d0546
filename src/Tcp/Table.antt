-- ===== src/Tcp/Table.antt =====
-- tcp_handle_packet of net/tcp.c on the list of sockets.
use shadow_box_os.Common.{
  ℕ, ◌≡◌, refl, ◌⊎◌, inl, inr, true, false, some, List, [], ◌∷◌, ◌++◌, Bool-cases, All,
}
use shadow_box_os.Tcp.{Socket, Segment, Reply, matches, dispatch, parse, handle_packet}
use shadow_box_os.Tcp.Buffer.{IsWellFormed, IsBounded, accepted, receive_lem}

-- The sockets before and after: the first that matches took the segment's bytes, and the others are
-- as they were.
abbrev pub Took : Segment → List Socket → List Socket → Type 0
Took g [] ts = ts ≡ []
Took g (s ∷ ss) [] = ⊥
Took g (s ∷ ss) (t ∷ ts) =
    ((matches s g ≡ true) × (t.received ≡ s.received ++ accepted s g) × (ts ≡ ss))
    ⊎ ((matches s g ≡ false) × (t ≡ s) × Took g ss ts)

dispatch_lem :
    (ss : List Socket) (g : Segment)
    → All IsBounded ss
    → IsWellFormed g
    → (ts : List Socket) × (rs : List Reply) × (dispatch ss g ≡ some (ts, rs))
      × All IsBounded ts
      × Took g ss ts
unfolding dispatch
dispatch_lem [] g b w = ([], [], refl, tt, refl)
dispatch_lem (s ∷ ss) g b w = elim (Bool-cases (matches s g)) [
  | inl e ↦
      let (t, rs, got, bytes, bound) = receive_lem s g b.0 w in
      (t ∷ ss, rs, rw (e, got, dispatch) refl, (bound, b.1), inl (e, bytes, refl))
  | inr e ↦
      let (ts, rs, got, bound, took) = dispatch_lem ss g b.1 w in
      (s ∷ ts, rs, rw (e, got, dispatch) refl, (b.0, bound), inr (e, refl, took))
]

-- Of a packet whose header lies in it, below 2^31 bytes, the first socket that matches takes the bytes
-- that count, the others stay as they are, and no receive buffer comes to hold more than 65536 bytes,
-- if none did before.
pub handle_packet_lem :
    (ss : List Socket) (packet : List ℕ) (g : Segment)
    → All IsBounded ss
    → parse packet ≡ some g
    → IsWellFormed g
    → (ts : List Socket) × (rs : List Reply) × (handle_packet ss packet ≡ some (ts, rs))
      × All IsBounded ts
      × Took g ss ts
unfolding handle_packet
handle_packet_lem ss packet g b f w =
    let (ts, rs, got, bound, took) = dispatch_lem ss g b w in
    (ts, rs, rw (f, handle_packet) got, bound, took)
