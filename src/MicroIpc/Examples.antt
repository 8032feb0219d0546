-- ===== src/MicroIpc/Examples.antt =====
-- kernel/micro_ipc.c at concrete systems.
use shadow_box_os.Common.Errno.{ok}
use shadow_box_os.Common.{
  ℕ, ◌*◌, ◌≡◌, refl, true, false, ◌⊎◌, none, some, List, [], ◌∷◌, ◌==◌, if◌then◌else◌, arith,
}
use shadow_box_os.Signal.{ready, running, blocked}
use shadow_box_os.MicroIpc.{System, find_process, find_from, is_receiving, call, reply_wait}
use shadow_box_os.MicroIpc.Waiters.{Chain}
use shadow_box_os.MicroIpc.Calls.{Waits, request, call_lem, reply_wait_lem}

-- Process `a` has the number `a`; 1 runs, 2 receives into the buffer 50 from any process.
abbrev idle_server : System
idle_server = record {
  process = λ a. record {
    pid = a;
    state = if a == 2 then blocked else running;
    ipc_status = if a == 2 then 1 else 0;
    ipc_peer = 0;
    ipc_msg_ptr = if a == 2 then 50 else 0;
    ipc_waiters = none;
    ipc_next_waiter = none;
  };
  proc_list = 1 ∷ 2 ∷ [];
  memory = λ a. record { kind = a; data1 = 0; data2 = 0; data3 = 0; data4 = 0 };
}

found_server : find_process idle_server 2 ≡ some (some 2)
unfolding find_process find_from
found_server = refl

call_lem_example :
    ((is_receiving (idle_server.process 2) 1 ≡ true)
      × (s' : System) × (call 1 idle_server (some 1) 2 10 ≡ some (ok 0, s'))
      × (s'.memory 50 ≡ request (idle_server.memory 10) 1)
      × ((s'.process 2).state ≡ ready)
      × ((s'.process 2).ipc_status ≡ 0)
      × Chain s'.process (s'.process 2).ipc_waiters []
      × Waits (s'.process 1) 2 10
      × ((s'.process 1).state ≡ blocked))
    ⊎ ((is_receiving (idle_server.process 2) 1 ≡ false)
        × (s' : System) × (call 1 idle_server (some 1) 2 10 ≡ some (ok 0, s'))
        × (s'.memory ≡ idle_server.memory)
        × Chain s'.process (s'.process 2).ipc_waiters (1 ∷ [])
        × Waits (s'.process 1) 2 10
        × ((s'.process 1).state ≡ blocked))
call_lem_example =
    call_lem 1 idle_server 1 2 2 10 [] (omega arith) found_server refl tt (omega arith)

-- Processes 1 and 3 wait for 2 with messages at 10 and 30; 1 was taken, 3 stands in the queue.
abbrev busy_server : System
busy_server = record {
  process = λ a. record {
    pid = a;
    state = if a == 2 then running else blocked;
    ipc_status = if a == 2 then 0 else 2;
    ipc_peer = 2;
    ipc_msg_ptr = a * 10;
    ipc_waiters = if a == 2 then some 3 else none;
    ipc_next_waiter = none;
  };
  proc_list = 1 ∷ 2 ∷ 3 ∷ [];
  memory = λ a. record { kind = a; data1 = 0; data2 = 0; data3 = 0; data4 = 0 };
}

found_client : find_process busy_server 1 ≡ some (some 1)
unfolding find_process find_from
found_client = refl

reply_wait_lem_example :
    (s' : System) × (reply_wait busy_server (some 2) 1 60 70 ≡ some (ok 0, s'))
    × ((s'.process 1).state ≡ ready)
    × ((s'.process 1).ipc_status ≡ 0)
    × (s'.memory 10 ≡ busy_server.memory 60)
    × (((◌≡◌ {A = List ℕ} (3 ∷ []) [])
          × ((s'.process 2).state ≡ blocked)
          × ((pid : ℕ) → is_receiving (s'.process 2) pid ≡ true)
          × ((s'.process 2).ipc_msg_ptr ≡ 70))
        ⊎ ((w : ℕ) × (rest : List ℕ) × (3 ∷ [] ≡ w ∷ rest)
            × (s'.memory 70
                ≡ request
                    (busy_server.memory (busy_server.process w).ipc_msg_ptr)
                    (busy_server.process w).pid)
            × Chain s'.process (s'.process 2).ipc_waiters rest))
reply_wait_lem_example =
    reply_wait_lem busy_server 2 1 1 60 70 10 (omega arith) (omega arith) (omega arith) found_client
      (record { status = refl; waits_for = refl; buffer = refl }) (omega arith) (3 ∷ [])
      (refl, refl) (omega arith, tt)
