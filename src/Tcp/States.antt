-- ===== src/Tcp/States.antt =====
-- The states of a TCP socket in net/tcp.c: which moves a segment can make.
use shadow_box_os.Common.{
  ◌≡◌, refl, sym, ap, ◌∙◌, inl, inr, Option, none, some, List, [], ◌∷◌, ◌++◌, Bool-cases,
  Option-cases, subst,
}
use shadow_box_os.Tcp.{
  State, closed, listen, syn_sent, syn_received, established, fin_wait_1, fin_wait_2, close_wait,
  closing, last_ack, time_wait, Socket, Segment, Reply, sends_ack, sends_syn, opened, has,
  is_syn_ack, tcp_syn, tcp_ack, tcp_fin, take_data, acked, finished, timed, syn_answered,
  ack_answered, data_answered, receive_in, receive, with_replies, seq_next,
}
use shadow_box_os.Tcp.Data.{take_data_lem, advanced, data_ack, payload}

-- The moves that a segment makes.
pub data Moves : State → State → Type 0 where
  stays : {st : State} → Moves st st
  opens : Moves syn_sent established
  opens_both : Moves syn_sent syn_received
  completes : Moves syn_received established
  is_closed : Moves established close_wait
  ends_1 : Moves fin_wait_1 time_wait
  ends_2 : Moves fin_wait_2 time_wait

abbrev answer : Socket → List Reply → Option (Socket × List Reply)
answer s rs = some (s, rs)

same_state : (s t : Socket) (rs rs' : List Reply) → answer s rs ≡ answer t rs' → s.state ≡ t.state
same_state s t rs rs' e = let same : s ≡ t = cc in ap (λ (u : Socket). u.state) same

to_state :
    (st st' : State) (s t : Socket) (rs rs' : List Reply)
    → s.state ≡ st'
    → answer s rs ≡ answer t rs'
    → Moves st st'
    → Moves st t.state
to_state st st' s t rs rs' at e m = subst (Moves st) (sym at ∙ same_state s t rs rs' e) m

-- The data of a segment leave the state as it is.
take_data-state :
    (s : Socket) (g : Segment) (t : Socket) (rs : List Reply)
    → take_data s g ≡ some (t, rs)
    → s.state ≡ t.state
take_data-state s g t rs e = elim (take_data_lem s g) [
  | inl (empty, got) ↦ same_state s t [] rs (sym got ∙ e)
  | inr (inl (some_data, full, got)) ↦ same_state (advanced s g) t (data_ack s g) rs (sym got ∙ e)
  | inr (inr (inl (some_data, room, fits, got))) ↦
      same_state (record (advanced s g) { received = s.received ++ payload g }) t (data_ack s g) rs
        (sym got ∙ e)
  | inr (inr (inr (room, long, got))) ↦ let clash : none ≡ answer t rs = sym got ∙ e in cc
]

abbrev ended : Socket → Segment → Option (Socket × List Reply)
ended s g = answer (record s { state = time_wait }) (sends_ack s.send_seq (seq_next g) ∷ [])

acked-state : (s : Socket) (g : Segment) → (acked s g).state ≡ s.state
acked-state s g = elim (Bool-cases (has g tcp_ack)) [ inl f ↦ rw f refl | inr f ↦ rw f refl ]

finished-Moves :
    (s : Socket) (g : Segment)
    → s.state ≡ established
    → Moves established (finished (acked s g) g).0.state
finished-Moves s g at = elim (Bool-cases (has g tcp_fin)) [
  | inl f ↦ rw f is_closed
  | inr f ↦ rw f (subst (Moves established) (sym (acked-state s g ∙ at)) stays)
]

moves :
    (st : State) (s : Socket) (g : Segment) (t : Socket) (rs : List Reply)
    → s.state ≡ st
    → receive_in st s g ≡ some (t, rs)
    → Moves st t.state
unfolding receive_in
moves closed s g t rs at e = to_state closed closed s t [] rs at e stays
moves listen s g t rs at e = to_state listen listen s t [] rs at e stays
moves close_wait s g t rs at e = to_state close_wait close_wait s t [] rs at e stays
moves closing s g t rs at e = to_state closing closing s t [] rs at e stays
moves last_ack s g t rs at e = to_state last_ack last_ack s t [] rs at e stays
moves time_wait s g t rs at e = to_state time_wait time_wait s t [] rs at e stays
moves syn_sent s g t rs at e = elim (Bool-cases (is_syn_ack g)) [
  | inl f ↦
      let u = record (opened s g established) { send_unack = g.ack } in
      let replies : List Reply = sends_ack s.send_seq (seq_next g) ∷ [] in
      let got : syn_answered s g ≡ answer u replies = rw f refl in
      to_state syn_sent established u t replies rs refl (sym got ∙ e) opens
  | inr f ↦ elim (Bool-cases (has g tcp_syn)) [
    | inl f' ↦
        let u = opened s g syn_received in
        let replies : List Reply = sends_ack s.send_seq (seq_next g) ∷ sends_syn ∷ [] in
        let got : syn_answered s g ≡ answer u replies = rw (f, f') refl in
        to_state syn_sent syn_received u t replies rs refl (sym got ∙ e) opens_both
    | inr f' ↦
        let got : syn_answered s g ≡ answer s [] = rw (f, f') refl in
        to_state syn_sent syn_sent s t [] rs at (sym got ∙ e) stays
  ]
]
moves syn_received s g t rs at e = elim (Bool-cases (has g tcp_ack)) [
  | inl f ↦
      let u = record s { state = established; send_unack = g.ack } in
      let got : ack_answered s g ≡ answer u [] = rw f refl in
      to_state syn_received established u t [] rs refl (sym got ∙ e) completes
  | inr f ↦
      let got : ack_answered s g ≡ answer s [] = rw f refl in
      to_state syn_received syn_received s t [] rs at (sym got ∙ e) stays
]
moves established s g t rs at e =
    let (v, replies) = finished (acked s g) g in
    let first = finished-Moves s g at in
    elim (Option-cases (take_data v g)) [
      | inl f ↦
          let got : data_answered s g ≡ none = ap (with_replies replies) f in
          let clash : none ≡ answer t rs = sym got ∙ e in cc
      | inr ((u, more), f) ↦
          let got : data_answered s g ≡ answer u (replies ++ more) = ap (with_replies replies) f in
          to_state established v.state u t (replies ++ more) rs (sym (take_data-state v g u more f))
            (sym got ∙ e) first
    ]
moves fin_wait_1 s g t rs at e = elim (Bool-cases (has g tcp_fin)) [
  | inl f ↦
      let got : timed s g ≡ ended s g = rw f refl in
      to_state fin_wait_1 time_wait (record s { state = time_wait }) t
        (sends_ack s.send_seq (seq_next g) ∷ []) rs refl (sym got ∙ e) ends_1
  | inr f ↦
      let got : timed s g ≡ answer s [] = rw f refl in
      to_state fin_wait_1 fin_wait_1 s t [] rs at (sym got ∙ e) stays
]
moves fin_wait_2 s g t rs at e = elim (Bool-cases (has g tcp_fin)) [
  | inl f ↦
      let got : timed s g ≡ ended s g = rw f refl in
      to_state fin_wait_2 time_wait (record s { state = time_wait }) t
        (sends_ack s.send_seq (seq_next g) ∷ []) rs refl (sym got ∙ e) ends_2
  | inr f ↦
      let got : timed s g ≡ answer s [] = rw f refl in
      to_state fin_wait_2 fin_wait_2 s t [] rs at (sym got ∙ e) stays
]

-- Whatever segment comes, the socket makes one of the moves or stays in its state.
pub receive-Moves :
    (s : Socket) (g : Segment) (t : Socket) (rs : List Reply)
    → receive s g ≡ some (t, rs)
    → Moves s.state t.state
receive-Moves s g t rs e = moves s.state s g t rs refl e
