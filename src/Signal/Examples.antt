-- ===== src/Signal/Examples.antt =====
-- The signal theorems at concrete processes, and runs of the calls.
use shadow_box_os.Common.{
  ℕ, ◌-◌, ◌≤◌, ◌≡◌, ◌⊎◌, refl, true, not, ◌&&◌, some, List, [], ◌∷◌, arith, replicate,
}
use shadow_box_os.Common.Bits.{test_bit}
use shadow_box_os.Common.Int.{pos}
use shadow_box_os.Common.Errno.{err, einval}
use shadow_box_os.Signal.{
  Process, System, TaskState, terminate, cleared_action, sigprocmask, send_signal,
  check_and_deliver, deliver_from, default_action, signal, sigaction, handle,
}
use shadow_box_os.Signal.Deliver.{AreWords, Settled, check_and_deliver_lem}
use shadow_box_os.Signal.Reserved.{
  IsReserved, TakesLower, Event, sets_handler, masks, arrives, run, step, kill_terminates,
}

-- SIGINT (2) and SIGUSR1 (10) are pending, SIGINT is blocked.
abbrev busy : Process
busy = record {
  pid = 7;
  state = TaskState.blocked;
  sig_pending = 0x202;
  sig_blocked = 0x2;
  sig_actions = replicate 32 cleared_action;
}

abbrev system : System
system = record { processes = busy ∷ []; enqueued = [] }

-- SIGUSR1 terminates with 138, and the blocked SIGINT stays pending.
delivers_usr1 : check_and_deliver busy ≡ (some (terminate 138), record busy { sig_pending = 0x2 })
unfolding check_and_deliver deliver_from handle default_action
delivers_usr1 = refl

refused : send_signal system 7 (pos 32) ≡ err einval
unfolding send_signal
refused = refl

busy-AreWords : AreWords busy
busy-AreWords = omega arith

busy-IsReserved : IsReserved busy
unfolding test_bit
busy-IsReserved = record {
  words = busy-AreWords;
  kill_default = refl;
  stop_default = refl;
  kill_free = refl;
  stop_free = refl;
}

-- Ignore signal 9, block everything, then SIGKILL arrives.
abbrev hiding : List Event
hiding = sets_handler (pos 9) 1 ∷ masks 2 (some 0xFFFF_FFFF_FFFF_FFFF) ∷ arrives (pos 9) ∷ []

killed : test_bit (run busy hiding).sig_pending 8 ≡ true
unfolding run step signal sigaction sigprocmask test_bit
killed = refl

check_and_deliver_lem_example :
    let (act, q) = check_and_deliver busy in
    (word : ℕ) × ((sig : ℕ)
      → 1 ≤ sig
      → sig ≤ 31
      → test_bit word (sig - 1)
        ≡ test_bit busy.sig_pending (sig - 1) && not (test_bit busy.sig_blocked (sig - 1)))
    × Settled word 1 busy act q
check_and_deliver_lem_example = check_and_deliver_lem busy busy-AreWords

kill_terminates_example :
    ((check_and_deliver (run busy hiding)).0 ≡ some (terminate 137))
    ⊎ TakesLower (run busy hiding) (check_and_deliver (run busy hiding)).0
kill_terminates_example = kill_terminates busy hiding busy-IsReserved killed
