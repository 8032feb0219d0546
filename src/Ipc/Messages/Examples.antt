-- ===== src/Ipc/Messages/Examples.antt =====
-- The theorems on message queues at concrete queues, and runs of the calls.
use shadow_box_os.Ipc.Messages.Drain.{receive, all_delivered, receive_lem}
use shadow_box_os.Common.{ℕ, ◌≢◌, ◌<◌, ◌≡◌, refl, arith, ◌⊎◌, true, false, some, [], ◌∷◌, length}
use shadow_box_os.Common.Errno.{enomem, enomsg}
use shadow_box_os.Ipc.Messages.{
  Buffer, Queue, Queues, find_id, update, refused, waits, sent, got, cut, msgsnd, msgrcv,
}
use shadow_box_os.Ipc.Messages.Transfer.{IsSound, Changed, msgsnd_lem}

abbrev hello : Buffer
hello = record { msg_type = 1; msg_data = 104 ∷ 105 ∷ [] }

abbrev first_queue : Queue
first_queue = record { id = 1; key = 40; creator = 7; messages = hello ∷ []; msg_count = 1 }

abbrev queues : Queues
queues = record { msg_queue_list = first_queue ∷ []; next_msg_id = 2 }

queues-IsSound : IsSound queues
queues-IsSound = record { counted = ((refl, omega arith), tt); numbered = (omega arith, tt) }

truncated : (s : Queues) × (msgrcv queues 1 1 true ≡ got 1 (104 ∷ []) s)
unfolding msgrcv find_id
truncated = (
  record { msg_queue_list = update (first_queue ∷ []) 1 (cut first_queue); next_msg_id = 2 },
  refl,
)

found_first : find_id queues.msg_queue_list 1 ≡ some first_queue
unfolding find_id
found_first = refl

msgsnd_lem_example :
    ((true ≡ false) × (msgsnd queues 1 hello true false ≡ refused enomem))
    ⊎ ((true ≡ true)
        × (length first_queue.messages ≡ 64)
        × (msgsnd queues 1 hello true false ≡ waits))
    ⊎ ((true ≡ true)
        × (length first_queue.messages < 64)
        × (s' : Queues) × (q' : Queue) × (msgsnd queues 1 hello true false ≡ sent 2 s')
        × (q'.messages ≡ hello ∷ hello ∷ [])
        × Changed queues s' 1 q')
msgsnd_lem_example = msgsnd_lem queues 1 first_queue hello true false queues-IsSound found_first

receive_lem_example :
    (s' : Queues) × (receive (length first_queue.messages) queues 1 80
      ≡ some (all_delivered 80 first_queue.messages, s'))
    × (msgrcv s' 1 80 true ≡ refused enomsg)
    × ((j : ℕ) → j ≢ 1 → find_id s'.msg_queue_list j ≡ find_id queues.msg_queue_list j)
    × IsSound s'
receive_lem_example = receive_lem queues 1 80 first_queue queues-IsSound found_first
