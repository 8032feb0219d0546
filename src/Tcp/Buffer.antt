-- ===== src/Tcp/Buffer.antt =====
-- What a segment leaves in the receive buffer of a socket of net/tcp.c.
use shadow_box_os.Common.{
  ℕ, ◌+◌, ◌%◌, ◌^◌, ◌≤◌, ◌<◌, ◌≡◌, refl, sym, ap, ◌∙◌, arith, inl, inr, Bool, true, false, ◌&&◌,
  Option, some, List, [], ◌∷◌, ◌++◌, append-nil, length, length-append, Bool-cases, leb,
  if◌then◌else◌, subst, length-drop,
}
use shadow_box_os.Tcp.{
  State, closed, listen, syn_sent, syn_received, established, fin_wait_1, fin_wait_2, close_wait,
  closing, last_ack, time_wait, Socket, Segment, Reply, sends_ack, sends_syn, opened, has,
  is_syn_ack, tcp_syn, tcp_ack, tcp_fin, take_data, acked, finished, timed, syn_answered,
  ack_answered, receive_in, receive, with_replies, seq_next, data_len, header_len, is_established,
}
use shadow_box_os.Tcp.Data.{take_data_lem, advanced, data_ack, payload}

-- The header lies in the packet, and the packet is not absurdly long.
abbrev pub IsWellFormed : Segment → Type 0
IsWellFormed g = (header_len g ≤ length g.bytes) × (length g.bytes < 2 ^ 31)

-- The bytes of a segment that count: all of its data, if the connection is established and they fit
-- into what is left of the 65536 bytes of the buffer, and none if not.
abbrev pub accepted : Socket → Segment → List ℕ
accepted s g =
    if is_established s.state && leb (length s.received + length (payload g)) 65536
    then payload g
    else []

-- The receive buffer holds no more than its size.
abbrev pub IsBounded : Socket → Type 0
IsBounded s = length s.received ≤ 65536

-- The answer `o` leaves a socket with these bytes, no more than the buffer holds.
abbrev Leaves : Option (Socket × List Reply) → List ℕ → Type 0
Leaves o bytes =
    (t : Socket) × (rs : List Reply) × (o ≡ some (t, rs)) × (t.received ≡ bytes) × IsBounded t

unchanged :
    (s t : Socket) (rs : List Reply) (o : Option (Socket × List Reply))
    → IsBounded s
    → t.received ≡ s.received
    → o ≡ some (t, rs)
    → Leaves o (s.received ++ [])
unchanged s t rs o bound same got = (
  t,
  rs,
  got,
  same ∙ sym (append-nil s.received),
  subst (λ xs. length xs ≤ 65536) (sym same) bound,
)

Leaves-syn : (s : Socket) (g : Segment) → IsBounded s → Leaves (syn_answered s g) (s.received ++ [])
Leaves-syn s g b = elim (Bool-cases (is_syn_ack g)) [
  | inl f ↦
      unchanged s (record (opened s g established) { send_unack = g.ack })
        (sends_ack s.send_seq (seq_next g) ∷ []) (syn_answered s g) b refl (rw f refl)
  | inr f ↦ elim (Bool-cases (has g tcp_syn)) [
    | inl f' ↦
        unchanged s (opened s g syn_received) (sends_ack s.send_seq (seq_next g) ∷ sends_syn ∷ [])
          (syn_answered s g) b refl (rw (f, f') refl)
    | inr f' ↦ unchanged s s [] (syn_answered s g) b refl (rw (f, f') refl)
  ]
]

Leaves-ack : (s : Socket) (g : Segment) → IsBounded s → Leaves (ack_answered s g) (s.received ++ [])
Leaves-ack s g b = elim (Bool-cases (has g tcp_ack)) [
  | inl f ↦
      unchanged s (record s { state = established; send_unack = g.ack }) [] (ack_answered s g) b
        refl (rw f refl)
  | inr f ↦ unchanged s s [] (ack_answered s g) b refl (rw f refl)
]

Leaves-timed : (s : Socket) (g : Segment) → IsBounded s → Leaves (timed s g) (s.received ++ [])
Leaves-timed s g b = elim (Bool-cases (has g tcp_fin)) [
  | inl f ↦
      unchanged s (record s { state = time_wait }) (sends_ack s.send_seq (seq_next g) ∷ [])
        (timed s g) b refl (rw f refl)
  | inr f ↦ unchanged s s [] (timed s g) b refl (rw f refl)
]

-- A turn before the data of a segment are looked at leaves the buffer as it is.
finished-received : (s : Socket) (g : Segment) → (finished (acked s g) g).0.received ≡ s.received
finished-received s g = elim (Bool-cases (has g tcp_ack)) [
  | inl f ↦ elim (Bool-cases (has g tcp_fin)) [
    | inl f' ↦ rw (f, f') refl
    | inr f' ↦ rw (f, f') refl
  ]
  | inr f ↦ elim (Bool-cases (has g tcp_fin)) [
    | inl f' ↦ rw (f, f') refl
    | inr f' ↦ rw (f, f') refl
  ]
]

abbrev fitting : Socket → Segment → List ℕ
fitting s g = if leb (length s.received + length (payload g)) 65536 then payload g else []

empty_eq : (xs : List ℕ) → length xs ≡ 0 → xs ≡ []
empty_eq [] h = refl
empty_eq (x ∷ xs) h = absurd (omega arith)

if_empty : (b : Bool) (xs : List ℕ) → xs ≡ [] → (if b then xs else []) ≡ []
if_empty true xs h = h
if_empty false xs h = refl

length-payload : (g : Segment) → IsWellFormed g → length (payload g) ≡ data_len g
length-payload g w = omega (arith, length-drop (header_len g) g.bytes)

Leaves-data :
    (s : Socket) (g : Segment)
    → IsBounded s
    → IsWellFormed g
    → Leaves (take_data s g) (s.received ++ fitting s g)
Leaves-data s g b w = elim (take_data_lem s g) [
  | inl (empty, got) ↦
      let none_fit : fitting s g ≡ [] =
        if_empty _ (payload g) (empty_eq (payload g) (length-payload g w ∙ empty)) in
      subst (λ xs. Leaves (take_data s g) (s.received ++ xs)) (sym none_fit)
        (unchanged s s [] (take_data s g) b refl got)
  | inr (inl (more, full, got)) ↦
      let size = length-payload g w in
      let too_long : leb (length s.received + length (payload g)) 65536 ≡ false =
        ground (arith, full, size, w.1) in
      let none_fit : fitting s g ≡ [] = rw too_long refl in
      subst (λ xs. Leaves (take_data s g) (s.received ++ xs)) (sym none_fit)
        (unchanged s (advanced s g) (data_ack s g) (take_data s g) b refl got)
  | inr (inr (inl (more, room, fits, got))) ↦
      let small : (length s.received + data_len g) % 2 ^ 32 ≤ 65536 = ground arith in
      let size = length-payload g w in
      let short : length s.received + length (payload g) ≤ 65536 = omega (arith, w.1) in
      let short' : leb (length s.received + length (payload g)) 65536 ≡ true = ground arith in
      let all_fit : fitting s g ≡ payload g = rw short' refl in
      let bound : length (s.received ++ payload g) ≤ 65536 =
        omega (arith, length-append s.received (payload g)) in
      (
        record (advanced s g) { received = s.received ++ payload g },
        data_ack s g,
        got,
        ap (λ xs. s.received ++ xs) (sym all_fit),
        bound,
      )
  | inr (inr (inr (room, long, got))) ↦ absurd (omega (arith, w.0))
]

-- What the segment leaves in the buffer, by the state and the bytes in it.
abbrev filled : State → List ℕ → Segment → List ℕ
filled st xs g =
    xs
    ++ (if is_established st && leb (length xs + length (payload g)) 65536 then payload g else [])

receive_in-Leaves :
    (st : State) (s : Socket) (g : Segment)
    → IsBounded s
    → IsWellFormed g
    → Leaves (receive_in st s g) (filled st s.received g)
unfolding receive_in
receive_in-Leaves closed s g b w = unchanged s s [] (some (s, [])) b refl refl
receive_in-Leaves listen s g b w = unchanged s s [] (some (s, [])) b refl refl
receive_in-Leaves close_wait s g b w = unchanged s s [] (some (s, [])) b refl refl
receive_in-Leaves closing s g b w = unchanged s s [] (some (s, [])) b refl refl
receive_in-Leaves last_ack s g b w = unchanged s s [] (some (s, [])) b refl refl
receive_in-Leaves time_wait s g b w = unchanged s s [] (some (s, [])) b refl refl
receive_in-Leaves syn_sent s g b w = Leaves-syn s g b
receive_in-Leaves syn_received s g b w = Leaves-ack s g b
receive_in-Leaves fin_wait_1 s g b w = Leaves-timed s g b
receive_in-Leaves fin_wait_2 s g b w = Leaves-timed s g b
receive_in-Leaves established s g b w =
    let (v, replies) = finished (acked s g) g in
    let same = finished-received s g in
    let b' : IsBounded v = subst (λ xs. length xs ≤ 65536) (sym same) b in
    let (t, rs, got, bytes, bound) = Leaves-data v g b' w in
    (
      t,
      replies ++ rs,
      ap (with_replies replies) got,
      bytes ∙ ap (λ xs. filled established xs g) same,
      bound,
    )

-- A well-formed segment never makes the socket copy past its buffer: it leaves a socket that holds
-- the bytes that it held and behind them those of the segment that count, 65536 at most.
pub receive_lem :
    (s : Socket) (g : Segment)
    → IsBounded s
    → IsWellFormed g
    → (t : Socket) × (rs : List Reply) × (receive s g ≡ some (t, rs))
      × (t.received ≡ s.received ++ accepted s g)
      × IsBounded t
receive_lem s g b w = receive_in-Leaves s.state s g b w
