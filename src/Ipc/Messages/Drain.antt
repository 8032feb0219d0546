-- ===== src/Ipc/Messages/Drain.antt =====
-- msgrcv of kernel/ipc.c, called again and again: what waits in a queue is delivered.
use shadow_box_os.Common.{
  ℕ, zero, suc, ◌≡◌, ◌≢◌, refl, sym, ap, subst, ◌∙◌, arith, inl, inr, true, Option, none, some,
  List, [], ◌∷◌, length, take, min,
}
use shadow_box_os.Common.Errno.{enomsg}
use shadow_box_os.Ipc.Messages.{
  Buffer, Queue, Queues, find_id, refused, waits, faults, sent, got, msgrcv, rest, head,
}
use shadow_box_os.Ipc.Messages.Transfer.{IsSound, msgrcv_lem}

-- The type and the data that a receiver with room for `msgsz` bytes gets.
abbrev pub delivered : ℕ → Buffer → ℕ × List ℕ
delivered msgsz b = (b.msg_type, take (min (length b.msg_data) msgsz) b.msg_data)

abbrev pub all_delivered : ℕ → List Buffer → List (ℕ × List ℕ)
all_delivered msgsz [] = []
all_delivered msgsz (b ∷ bs) = delivered msgsz b ∷ all_delivered msgsz bs

-- So many calls of msgrcv with IPC_NOWAIT on a queue; `none` is that one of them got nothing.
unfoldable pub receive : ℕ → Queues → ℕ → ℕ → Option (List (ℕ × List ℕ) × Queues)
receive zero s id msgsz = some ([], s)
receive (suc k) s id msgsz = elim (msgrcv s id msgsz true) [
  | refused e ↦ none
  | waits ↦ none
  | faults ↦ none
  | sent n s' ↦ none
  | got kind bytes s' ↦ elim (receive k s' id msgsz) [
    | none ↦ none
    | some (more, s'') ↦ some ((kind, bytes) ∷ more, s'')
  ]
]

drained :
    (s : Queues) (id msgsz : ℕ) (q : Queue) (bs : List Buffer)
    → IsSound s
    → find_id s.msg_queue_list id ≡ some q
    → q.messages ≡ bs
    → (s' : Queues) × (q' : Queue) × (receive (length bs) s id msgsz
        ≡ some (all_delivered msgsz bs, s'))
      × (find_id s'.msg_queue_list id ≡ some q')
      × (q'.messages ≡ [])
      × ((j : ℕ) → j ≢ id → find_id s'.msg_queue_list j ≡ find_id s.msg_queue_list j)
      × IsSound s'
unfolding receive
drained s id msgsz q [] v found is = (s, q, refl, found, is, (λ j ne. refl), v)
drained s id msgsz q (b ∷ bs) v found is = elim (msgrcv_lem s id q msgsz true v found) [
  | inl (empty, _) ↦ absurd (ground (arith, sym is ∙ empty))
  | inr (c, cs, s', q', first, run, left, ch) ↦
      let same : b ∷ bs ≡ c ∷ cs = sym is ∙ first in
      let heads : c ≡ b = ground (arith, ap head same) in
      let run' : msgrcv s id msgsz true
          ≡ got b.msg_type (take (min (length b.msg_data) msgsz) b.msg_data) s' =
        subst
          (λ (x : Buffer).
            msgrcv s id msgsz true
            ≡ got x.msg_type (take (min (length x.msg_data) msgsz) x.msg_data) s')
          heads run in
      let (s'', q'', runs, here, none_left, others, sound) =
        drained s' id msgsz q' bs ch.sound ch.here (left ∙ sym (ap rest same)) in
      (
        s'',
        q'',
        ground (arith, run', runs),
        here,
        none_left,
        (λ j ne. others j ne ∙ ch.others j ne),
        sound,
      )
]

-- In sound queues, as many calls of msgrcv as messages wait in a queue that is there deliver all of
-- these, each once, from the oldest on, with the type and as much of the data as asked for; then the
-- queue is empty, the next call with IPC_NOWAIT says ENOMSG, and the other queues are as they were.
pub receive_lem :
    (s : Queues) (id msgsz : ℕ) (q : Queue)
    → IsSound s
    → find_id s.msg_queue_list id ≡ some q
    → (s' : Queues) × (receive (length q.messages) s id msgsz
        ≡ some (all_delivered msgsz q.messages, s'))
      × (msgrcv s' id msgsz true ≡ refused enomsg)
      × ((j : ℕ) → j ≢ id → find_id s'.msg_queue_list j ≡ find_id s.msg_queue_list j)
      × IsSound s'
receive_lem s id msgsz q v found =
    let (s', q', runs, here, empty, others, sound) = drained s id msgsz q q.messages v found refl in
    (
      s',
      runs,
      elim (msgrcv_lem s' id q' msgsz true sound here) [
        | inl (_, run) ↦ run
        | inr (c, cs, _, _, first, _, _, _) ↦ absurd (ground (arith, sym empty ∙ first))
      ],
      others,
      sound,
    )
