-- ===== src/Ipc/Messages/Transfer.antt =====
-- msgget, msgsnd and msgrcv of kernel/ipc.c: each queue hands its messages on in order.
use shadow_box_os.Common.{
  ℕ, suc, ◌-◌, ◌≤◌, ◌<◌, ◌≡◌, ◌≢◌, refl, sym, ap, ◌∙◌, arith, ◌⊎◌, inl, inr, Bool, true, false,
  some, List, [], ◌∷◌, ◌++◌, length, length-append, take, Bool-cases, ◌==◌, leb, ltb, min,
  if◌then◌else◌, All,
}
use shadow_box_os.Common.Errno.{enomem, eagain, enomsg}
use shadow_box_os.Ipc.Messages.{
  Buffer, Queue, Queues, find_id, update, refused, waits, sent, got, put, cut, head, rest, msgsnd,
  msgrcv,
}
use shadow_box_os.Ipc.Messages.Lookup.{
  find_id-update_self, find_id-update_ne, All-update, All-find_id,
}

-- The count is right and within the bound.
abbrev pub IsCounted : Queue → Type 0
IsCounted q = (q.msg_count ≡ length q.messages) × (q.msg_count ≤ 64)

-- The queues are counted, and their numbers were given out.
pub record IsSound (s : Queues) : Type 0 where
  pub counted : All IsCounted s.msg_queue_list
  pub numbered : All (λ (q : Queue). q.id < s.next_msg_id) s.msg_queue_list

-- Queue `id` is now `q`, and the other queues are as they were.
pub record Changed (s s' : Queues) (id : ℕ) (q : Queue) : Type 0 where
  pub here : find_id s'.msg_queue_list id ≡ some q
  pub others : (j : ℕ) → j ≢ id → find_id s'.msg_queue_list j ≡ find_id s.msg_queue_list j
  pub sound : IsSound s'

written :
    (s : Queues) (id : ℕ) (q v : Queue)
    → IsSound s
    → find_id s.msg_queue_list id ≡ some q
    → v.id ≡ q.id
    → IsCounted v
    → Changed s (record s { msg_queue_list = update s.msg_queue_list id v }) id v
written s id q v h found named counted =
    let (small, this) =
      All-find_id (λ (p : Queue). p.id < s.next_msg_id) s.msg_queue_list id q h.numbered found in
    let named' : v.id ≡ id = named ∙ this in
    record {
      here = find_id-update_self s.msg_queue_list id v named' found;
      others = λ j ne. find_id-update_ne s.msg_queue_list id j v named' ne;
      sound = record {
        counted = All-update IsCounted s.msg_queue_list id v h.counted counted;
        numbered =
            All-update (λ (p : Queue). p.id < s.next_msg_id) s.msg_queue_list id v h.numbered
              (omega arith);
      };
    }

put_lem :
    (q : Queue) (buf : Buffer)
    → IsCounted q
    → q.msg_count < 64
    → ((put q buf).messages ≡ q.messages ++ buf ∷ [])
      × IsCounted (put q buf)
      × ((put q buf).id ≡ q.id)
unfolding put
put_lem q buf c room = elim (Bool-cases (q.msg_count == 0)) [
  | inl e ↦
      let empty : q.messages ≡ [] = no_messages q.messages (ground arith) in
      let one : buf ∷ [] ≡ q.messages ++ buf ∷ [] = ap (λ ms. ms ++ buf ∷ []) (sym empty) in
      let len : length q.messages ≡ 0 = ap length empty in
      rw (e, put) (one, (omega (arith, c.0), omega (arith, c.0)), refl)
  | inr e ↦
      let len = length-append q.messages (buf ∷ []) in
      rw (e, put) (refl, (omega (arith, c.0), omega arith), refl)
]
  where
    no_messages : (ms : List Buffer) → length ms ≡ 0 → ms ≡ []
    no_messages [] e = refl
    no_messages (m ∷ ms) e = absurd (omega arith)

-- On a queue that is there, with the counts right, msgsnd fails without memory, fails or waits if 64
-- messages are queued, as IPC_NOWAIT says, and otherwise puts the message behind the others and returns
-- its size; the other queues stay as they are.
pub msgsnd_lem :
    (s : Queues) (id : ℕ) (q : Queue) (buf : Buffer) (given nowait : Bool)
    → IsSound s
    → find_id s.msg_queue_list id ≡ some q
    → ((given ≡ false) × (msgsnd s id buf given nowait ≡ refused enomem))
      ⊎ ((given ≡ true)
          × (length q.messages ≡ 64)
          × (msgsnd s id buf given nowait ≡ (if nowait then refused eagain else waits)))
      ⊎ ((given ≡ true)
          × (length q.messages < 64)
          × (s' : Queues) × (q' : Queue) × (msgsnd s id buf given nowait
              ≡ sent (length buf.msg_data) s')
          × (q'.messages ≡ q.messages ++ buf ∷ [])
          × Changed s s' id q')
unfolding msgsnd
msgsnd_lem s id q buf false nowait h found = inl (refl, rw (found, msgsnd) refl)
msgsnd_lem s id q buf true nowait h found =
    let (c, this) = All-find_id IsCounted s.msg_queue_list id q h.counted found in
    elim (Bool-cases (leb 64 q.msg_count)) [
      | inl e ↦
          let full : length q.messages ≡ 64 = ground arith in
          inr (inl (refl, full, rw (found, e, msgsnd) refl))
      | inr e ↦
          let room : q.msg_count < 64 = ground arith in
          let (added, counted, named) = put_lem q buf c room in
          inr (
            inr (
              refl,
              omega (arith, c.0),
              record s { msg_queue_list = update s.msg_queue_list id (put q buf) },
              put q buf,
              rw (found, e, msgsnd) refl,
              added,
              written s id q (put q buf) h found named counted,
            ))
    ]

cut_lem :
    (q : Queue)
    → IsCounted q
    → 0 < q.msg_count
    → ((cut q).messages ≡ rest q.messages) × IsCounted (cut q) × ((cut q).id ≡ q.id)
unfolding cut
cut_lem q c more =
    let len = length-rest q.messages in (refl, (omega (arith, c.0, c.1), omega (arith, c.1)), refl)
  where
    length-rest : (ms : List Buffer) → length (rest ms) ≡ length ms - 1
    length-rest [] = omega arith
    length-rest (m ∷ ms) = omega arith

-- msgrcv on a queue that is there fails or waits if no message is queued, as IPC_NOWAIT says, and
-- otherwise takes the first message, whose type and as much data as asked for it returns; the other
-- queues stay as they are. It never follows a null pointer.
pub msgrcv_lem :
    (s : Queues) (id : ℕ) (q : Queue) (msgsz : ℕ) (nowait : Bool)
    → IsSound s
    → find_id s.msg_queue_list id ≡ some q
    → ((q.messages ≡ []) × (msgrcv s id msgsz nowait ≡ (if nowait then refused enomsg else waits)))
      ⊎ ((b : Buffer) × (bs : List Buffer) × (s' : Queues) × (q' : Queue) × (q.messages ≡ b ∷ bs)
          × (msgrcv s id msgsz nowait
              ≡ got b.msg_type (take (min (length b.msg_data) msgsz) b.msg_data) s')
          × (q'.messages ≡ bs)
          × Changed s s' id q')
unfolding msgrcv
msgrcv_lem s id q msgsz nowait h found =
    let (c, this) = All-find_id IsCounted s.msg_queue_list id q h.counted found in
    elim (list_cases q.messages) [
      | inl empty ↦
          let len : length q.messages ≡ 0 = ap length empty in
          let e : (q.msg_count == 0) ≡ true = ground (arith, c.0) in
          inl (empty, rw (found, e, msgrcv) refl)
      | inr (b, bs, first) ↦
          let len : length q.messages ≡ suc (length bs) = ap length first in
          let e : (q.msg_count == 0) ≡ false = ground (arith, c.0) in
          let there : head q.messages ≡ some b = ap head first in
          let size : (if ltb (length b.msg_data) msgsz then length b.msg_data else msgsz)
              ≡ min (length b.msg_data) msgsz =
            ground arith in
          let (cut_off, counted, named) = cut_lem q c (omega (arith, c.0)) in
          inr (
            b,
            bs,
            record s { msg_queue_list = update s.msg_queue_list id (cut q) },
            cut q,
            first,
            rw (found, e, there, size, msgrcv) refl,
            cut_off ∙ ap rest first,
            written s id q (cut q) h found named counted,
          )
    ]
  where
    list_cases :
        (ms : List Buffer) → (ms ≡ []) ⊎ ((b : Buffer) × (bs : List Buffer) × (ms ≡ b ∷ bs))
    list_cases [] = inl refl
    list_cases (b ∷ bs) = inr (b, bs, refl)
