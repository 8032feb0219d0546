-- ===== src/Ipc/Messages/Keys.antt =====
-- msgget of kernel/ipc.c: a key stands for one queue.
use shadow_box_os.Common.{
  ℕ, ◌+◌, ◌%◌, ◌^◌, ◌≤◌, ◌<◌, ◌≡◌, ◌≢◌, refl, arith, ◌⊎◌, inl, inr, Bool, true, false, none, some,
  List, [], ◌∷◌, Option-cases, ◌==◌, All,
}
use shadow_box_os.Common.Errno.{ok, err, enomem}
use shadow_box_os.Ipc.Messages.{Queue, Queues, msgq_find, find_id, msgget}
use shadow_box_os.Ipc.Messages.Transfer.{IsSound, Changed}

-- A number that was not given out yet is no queue's.
find_id-fresh : (qs : List Queue) (n : ℕ) → All (λ (q : Queue). q.id < n) qs → find_id qs n ≡ none
unfolding find_id
find_id-fresh [] n h = refl
find_id-fresh (q ∷ qs) n h =
    let other : (q.id == n) ≡ false = ground (arith, h.0) in
    rw (other, find_id) (find_id-fresh qs n h.1)

All-le :
    (qs : List Queue) (n m : ℕ)
    → n ≤ m
    → All (λ (q : Queue). q.id < n) qs
    → All (λ (q : Queue). q.id < m) qs
All-le [] n m le h = tt
All-le (q ∷ qs) n m le h = (omega (arith, h.0), All-le qs n m le h.1)

==_same : (n : ℕ) → (n == n) ≡ true
==_same n = ground arith

==_other : (n j : ℕ) → j ≢ n → (n == j) ≡ false
==_other n j ne = ground arith

-- While numbers are left, msgget of a key that has a queue gives its number and changes nothing; of
-- another key, with memory, it gives a number that no queue has to a new empty queue and leaves the
-- others as they are, and the next msgget of that key gives the same number.
pub msgget_lem :
    (s : Queues) (key creator : ℕ)
    → IsSound s
    → s.next_msg_id + 1 < 2 ^ 32
    → ((q : Queue) × (msgq_find s.msg_queue_list key ≡ some q)
        × ((given : Bool) → msgget s key creator given ≡ ok (q.id, s)))
      ⊎ ((msgq_find s.msg_queue_list key ≡ none)
          × (msgget s key creator false ≡ err enomem)
          × (find_id s.msg_queue_list s.next_msg_id ≡ none)
          × (s' : Queues) × (q : Queue) × (msgget s key creator true ≡ ok (s.next_msg_id, s'))
          × (q.messages ≡ [])
          × Changed s s' s.next_msg_id q
          × ((given : Bool) → msgget s' key creator given ≡ ok (s.next_msg_id, s')))
unfolding msgget msgq_find find_id
msgget_lem s key creator h left = elim (Option-cases (msgq_find s.msg_queue_list key)) [
  | inr (q, found) ↦ inl (q, found, λ given. rw (found, msgget) refl)
  | inl missing ↦
      let q : Queue = record {
        id = s.next_msg_id;
        key = key;
        creator = creator;
        messages = [];
        msg_count = 0;
      } in
      let s' : Queues = record {
        msg_queue_list = q ∷ s.msg_queue_list;
        next_msg_id = (s.next_msg_id + 1) % 2 ^ 32;
      } in
      let next : (s.next_msg_id + 1) % 2 ^ 32 ≡ s.next_msg_id + 1 = omega arith in
      let found : msgq_find s'.msg_queue_list key ≡ some q = rw (==_same key, msgq_find) refl in
      inr (
        missing,
        rw (missing, msgget) refl,
        find_id-fresh s.msg_queue_list s.next_msg_id h.numbered,
        s',
        q,
        rw (missing, msgget) refl,
        refl,
        record {
          here = rw (==_same s.next_msg_id, find_id) refl;
          others = λ j ne. rw (==_other s.next_msg_id j ne, find_id) refl;
          sound = record {
            counted = ((refl, omega arith), h.counted);
            numbered = (
              omega arith,
              All-le s.msg_queue_list s.next_msg_id ((s.next_msg_id + 1) % 2 ^ 32) (omega arith)
                  h.numbered,
            );
          };
        },
        λ given. rw (found, msgget) refl,
      )
]
