-- ===== src/Ipc/Messages.antt =====
-- kernel/ipc.c: message queues.
pub mod Lookup
pub mod Transfer
pub mod Keys
pub mod Drain
mod Examples
use shadow_box_os.Common.{
  ℕ, zero, suc, ◌+◌, ◌-◌, ◌*◌, ◌%◌, ◌^◌, Bool, true, false, Option, none, some, List, [], ◌∷◌, ◌++◌,
  length, take, leb, ltb, ◌==◌, if◌then◌else◌,
}
use shadow_box_os.Common.Errno.{Errno, einval, enomem, eagain, enomsg, Result, ok, err}

abbrev pub max_msg_queue : ℕ
max_msg_queue = 64

-- `msg_buffer_t`; the size is the length of the data.
pub record Buffer : Type 0 where
  pub msg_type : ℕ
  pub msg_data : List ℕ

-- `msg_queue_t`, with the list from `msg_head` to `msg_tail`.
pub record Queue : Type 0 where
  pub id : ℕ
  pub key : ℕ
  pub creator : ℕ
  pub messages : List Buffer
  pub msg_count : ℕ

pub record Queues : Type 0 where
  pub msg_queue_list : List Queue
  pub next_msg_id : ℕ

unfoldable pub msgq_find : List Queue → ℕ → Option Queue
msgq_find [] key = none
msgq_find (q ∷ qs) key = if q.key == key then some q else msgq_find qs key

-- The loops of msgsnd and msgrcv that look for the queue.
unfoldable pub find_id : List Queue → ℕ → Option Queue
find_id [] id = none
find_id (q ∷ qs) id = if q.id == id then some q else find_id qs id

-- The write through the pointer that find_id gives.
unfoldable pub update : List Queue → ℕ → Queue → List Queue
update [] id v = []
update (q ∷ qs) id v = if q.id == id then v ∷ qs else q ∷ update qs id v

-- `given` says that the allocation succeeded.
unfoldable pub msgget : Queues → ℕ → ℕ → Bool → Result (ℕ × Queues)
msgget s key creator given = elim (msgq_find s.msg_queue_list key) [
  | some q ↦ ok (q.id, s)
  | none ↦
      if given
      then ok (
        s.next_msg_id,
        record {
          msg_queue_list =
              record {
                id = s.next_msg_id;
                key = key;
                creator = creator;
                messages = [];
                msg_count = 0;
              }
              ∷ s.msg_queue_list;
          next_msg_id = (s.next_msg_id + 1) % 2 ^ 32;
        },
      )
      else err enomem
]

-- What a call that may have to wait comes to. A call that waits starts again from the count.
pub data Outcome : Type 0 where
  refused : Errno → Outcome
  waits : Outcome
  faults : Outcome
  sent : ℕ → Queues → Outcome
  got : ℕ → List ℕ → Queues → Outcome

unfoldable pub put : Queue → Buffer → Queue
put q buf = record q {
  messages = if q.msg_count == 0 then buf ∷ [] else q.messages ++ buf ∷ [];
  msg_count = (q.msg_count + 1) % 2 ^ 32;
}

abbrev pub blocked : Bool → Errno → Outcome
blocked nowait e = if nowait then refused e else waits

unfoldable pub msgsnd : Queues → ℕ → Buffer → Bool → Bool → Outcome
msgsnd s id buf given nowait = elim (find_id s.msg_queue_list id) [
  | none ↦ refused einval
  | some q ↦
      if given
      then (if leb max_msg_queue q.msg_count
          then blocked nowait eagain
          else sent (length buf.msg_data)
              (record s { msg_queue_list = update s.msg_queue_list id (put q buf) }))
      else refused enomem
]

-- The first message, or a null pointer.
abbrev pub head : List Buffer → Option Buffer
head [] = none
head (b ∷ bs) = some b

abbrev pub rest : List Buffer → List Buffer
rest [] = []
rest (b ∷ bs) = bs

unfoldable pub cut : Queue → Queue
cut q = record q { messages = rest q.messages; msg_count = (q.msg_count + 2 ^ 32 - 1) % 2 ^ 32 }

-- The type and the data that reach the receiver's buffer of `msgsz` bytes; the return value is the
-- length of the data.
unfoldable pub msgrcv : Queues → ℕ → ℕ → Bool → Outcome
msgrcv s id msgsz nowait = elim (find_id s.msg_queue_list id) [
  | none ↦ refused einval
  | some q ↦ if q.msg_count == 0 then blocked nowait enomsg else elim (head q.messages) [
    | none ↦ faults
    | some b ↦
        let copy_sz = if ltb (length b.msg_data) msgsz then length b.msg_data else msgsz in
        got b.msg_type (take copy_sz b.msg_data)
          (record s { msg_queue_list = update s.msg_queue_list id (cut q) })
  ]
]
