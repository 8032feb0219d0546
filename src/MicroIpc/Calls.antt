-- ===== src/MicroIpc/Calls.antt =====
-- sys_sb_ipc_call and sys_sb_ipc_reply_wait of kernel/micro_ipc.c, on every branch.
use shadow_box_os.Common.Errno.{ok}
use shadow_box_os.Common.{
  ℕ, ◌%◌, ◌^◌, ◌≤◌, ◌≡◌, ◌≢◌, refl, ap, ap₂, ◌∙◌, true, false, ◌⊎◌, inl, inr, Bool-cases, some,
  List, [], ◌∷◌, ◌++◌, length, arith, All,
}
use shadow_box_os.Signal.{ready, blocked}
use shadow_box_os.MicroIpc.{
  Process, System, Message, find_process, set_process, set_message, is_receiving, sent, call, woken,
  reply, replied, wait, reply_wait,
}
use shadow_box_os.MicroIpc.Waiters.{Chain, Chain-same, all_same, enqueue_lem}

-- The process waits for the reply of `peer` with its message at `ptr`.
pub record Waits (p : Process) (peer ptr : ℕ) : Type 0 where
  pub status : p.ipc_status ≡ 2
  pub waits_for : p.ipc_peer ≡ peer
  pub buffer : p.ipc_msg_ptr ≡ ptr

-- The request of a process, as its receiver sees it.
abbrev pub request : Message → ℕ → Message
request m pid = record m { data4 = pid }

module _ (f : ℕ) (s : System) (c t target_pid ptr : ℕ) (ws : List ℕ) (apart : c ≢ t)
    (found : find_process s (target_pid % 2 ^ 32) ≡ some (some t))
    (chain : Chain s.process (s.process t).ipc_waiters ws) (away : All (λ w. w ≢ c) ws)
    (fuel : length ws ≤ f) where
  sending : System
  sending =
      set_process s c
        (record (s.process c) { ipc_status = 2; ipc_peer = (s.process t).pid; ipc_msg_ptr = ptr })

  Chain-sending : Chain sending.process (sending.process t).ipc_waiters ws
  unfolding sending
  Chain-sending = rw (kept) (
      Chain-same s.process sending.process _ ws
        (all_same s.process sending.process ws (λ x. ground arith)) chain)
    where
      kept : (sending.process t).ipc_waiters ≡ (s.process t).ipc_waiters
      kept = ground (arith, apart)

  -- A call of another process that is found and in whose queue the caller is not, with fuel for the
  -- queue: a process that receives, from any or from the caller, gets the message with the caller's
  -- number in it and is ready; for another, the caller comes in at the end of its queue, and no message
  -- changes. In both cases the caller is blocked until the reply of that process.
  pub call_lem :
      ((is_receiving (s.process t) (s.process c).pid ≡ true)
        × (s' : System) × (call f s (some c) target_pid ptr ≡ some (ok 0, s'))
        × (s'.memory (s.process t).ipc_msg_ptr ≡ request (s.memory ptr) (s.process c).pid)
        × ((s'.process t).state ≡ ready)
        × ((s'.process t).ipc_status ≡ 0)
        × Chain s'.process (s'.process t).ipc_waiters ws
        × Waits (s'.process c) (s.process t).pid ptr
        × ((s'.process c).state ≡ blocked))
      ⊎ ((is_receiving (s.process t) (s.process c).pid ≡ false)
          × (s' : System) × (call f s (some c) target_pid ptr ≡ some (ok 0, s'))
          × (s'.memory ≡ s.memory)
          × Chain s'.process (s'.process t).ipc_waiters (ws ++ c ∷ [])
          × Waits (s'.process c) (s.process t).pid ptr
          × ((s'.process c).state ≡ blocked))
  unfolding call sent sending
  call_lem = elim (Bool-cases (is_receiving (s.process t) (s.process c).pid)) [
    | inl now ↦ inl (
      now,
      at_once,
      ground (arith, found, now, apart),
      ground (arith, apart),
      ground (arith, apart),
      ground (arith, apart),
      Chain-same sending.process at_once.process _ ws
          (all_same sending.process at_once.process ws (λ x. ground (arith, apart)))
          (rw (kept_now) Chain-sending),
      record {
        status = ground (arith, apart);
        waits_for = ground (arith, apart);
        buffer = ground (arith, apart);
      },
      ground (arith, apart),
    )
    | inr later ↦
        let (s1, run, queued, memory, status, peer, buffer) =
          enqueue_lem f sending c t ws apart Chain-sending away fuel in
        inr (
          later,
          asleep s1,
          ground (arith, found, later, apart, run),
          memory,
          rw (kept s1) (
              Chain-same s1.process (asleep s1).process _ (ws ++ c ∷ [])
                (all_same s1.process (asleep s1).process (ws ++ c ∷ []) (λ x. ground arith))
                queued),
          record {
            status = ground (arith, status);
            waits_for = ground (arith, peer);
            buffer = ground (arith, buffer);
          },
          ground arith,
        )
  ]
    where
      asleep : System → System
      asleep s1 = set_process s1 c (record (s1.process c) { state = blocked })

      at_once : System
      at_once = asleep (
          woken
            (set_message sending (sending.process t).ipc_msg_ptr
              (request (sending.memory ptr) (sending.process c).pid))
            t)

      kept : (s1 : System) → ((asleep s1).process t).ipc_waiters ≡ (s1.process t).ipc_waiters
      kept s1 = ground (arith, apart)

      kept_now : (at_once.process t).ipc_waiters ≡ (sending.process t).ipc_waiters
      kept_now = ground (arith, apart)

module _ (s : System) (v c reply_pid r q ptr : ℕ) (apart : c ≢ v) (real : reply_pid ≢ 0)
    (given : r ≢ 0) (found : find_process s (reply_pid % 2 ^ 32) ≡ some (some c))
    (waits : Waits (s.process c) (s.process v).pid ptr) (room : q ≢ ptr) where
  after_reply : System
  after_reply = woken (set_message s ptr (s.memory r)) c

  answered : reply s v reply_pid r ≡ some after_reply
  unfolding reply replied after_reply
  answered = ground (arith, real, given, found, waits.status, waits.waits_for, waits.buffer)

  -- A reply, with a number and a message that are not 0, to another process that is found by the number
  -- and waits for it with its message at an address that neither the new request nor any process in
  -- the queue uses: that process is ready, and its buffer holds the reply. With nobody in the queue the
  -- replier sleeps, with its buffer for the new request, until any process at all calls; otherwise it
  -- gets the request of the first in its queue, with that one's number in it, and the others stay in
  -- their order.
  pub reply_wait_lem :
      (ws : List ℕ)
      → Chain s.process (s.process v).ipc_waiters ws
      → All (λ w. (s.process w).ipc_msg_ptr ≢ ptr) ws
      → (s' : System) × (reply_wait s (some v) reply_pid r q ≡ some (ok 0, s'))
        × ((s'.process c).state ≡ ready)
        × ((s'.process c).ipc_status ≡ 0)
        × (s'.memory ptr ≡ s.memory r)
        × (((ws ≡ [])
              × ((s'.process v).state ≡ blocked)
              × ((pid : ℕ) → is_receiving (s'.process v) pid ≡ true)
              × ((s'.process v).ipc_msg_ptr ≡ q))
            ⊎ ((w : ℕ) × (rest : List ℕ) × (ws ≡ w ∷ rest)
                × (s'.memory q ≡ request (s.memory (s.process w).ipc_msg_ptr) (s.process w).pid)
                × Chain s'.process (s'.process v).ipc_waiters rest))
  unfolding reply_wait wait after_reply
  reply_wait_lem [] chain buffers = (
    asleep,
    ground (arith, answered, chain, apart),
    ground (arith, apart),
    ground (arith, apart),
    ground arith,
    inl (refl, ground (arith, apart), λ pid. ground (arith, apart), ground (arith, apart)),
  )
    where
      asleep : System
      asleep = set_process after_reply v (record (after_reply.process v) {
        ipc_status = 1;
        ipc_peer = 0;
        ipc_msg_ptr = q;
        state = blocked;
      })
  reply_wait_lem (w ∷ ws) chain buffers = (
    set_message popped q
        (request (popped.memory (popped.process w).ipc_msg_ptr) (popped.process w).pid),
    ground (arith, answered, chain.0, apart),
    ground (arith, apart),
    ground (arith, apart),
    ground (arith, room),
    inr (
      w,
      ws,
      refl,
      ground (arith, ap₂ request (ap popped.memory same_ptr ∙ untouched _ buffers.0) same_pid),
      rw head_now (
          Chain-same s.process popped.process _ ws
            (all_same s.process popped.process ws (λ x. ground (arith, apart))) chain.1),
    ),
  )
    where
      popped : System
      popped =
          set_process after_reply v (record (after_reply.process v) {
            ipc_waiters = (after_reply.process w).ipc_next_waiter;
          })

      head_now : (popped.process v).ipc_waiters ≡ (s.process w).ipc_next_waiter
      head_now = ground (arith, apart)

      same_ptr : (popped.process w).ipc_msg_ptr ≡ (s.process w).ipc_msg_ptr
      same_ptr = ground (arith, apart)

      same_pid : (popped.process w).pid ≡ (s.process w).pid
      same_pid = ground (arith, apart)

      untouched : (x : ℕ) → x ≢ ptr → popped.memory x ≡ s.memory x
      untouched x ne = ground (arith, ne)
