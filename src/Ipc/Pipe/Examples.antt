-- ===== src/Ipc/Pipe/Examples.antt =====
-- Runs of the pipe calls, and the pipe theorems at concrete pipes.
use shadow_box_os.Common.{◌≡◌, refl, some, List, [], ◌∷◌, ◌++◌, arith, replicate}
use shadow_box_os.Common.Errno.{ok}
use shadow_box_os.Ring.{fill}
use shadow_box_os.Ipc.Pipe.{Pipe, write}
use shadow_box_os.Ipc.Pipe.Order.{IsSound, pending, run_conserves, Call, writes, reads, run}

-- Four slots; 8 and 9 wait across the end of the storage.
abbrev wrapped : Pipe
wrapped = record {
  ring = record { cells = 9 ∷ 0 ∷ 0 ∷ 8 ∷ []; head = 1; tail = 3 };
  capacity = 4;
  readers = 1;
  writers = 1;
}

wrapped-IsSound : IsSound wrapped
wrapped-IsSound = omega arith

-- Only one more byte fits.
write-wrapped : (q : Pipe) × (write (some wrapped) (some (1 ∷ 2 ∷ [])) ≡ ok (1, q))
unfolding write fill
write-wrapped = (_, refl)

abbrev calls : List Call
calls = writes (1 ∷ 2 ∷ []) ∷ reads 2 ∷ writes (3 ∷ []) ∷ reads 9 ∷ []

abbrev fresh : Pipe
fresh = record {
  ring = record { cells = replicate 4096 0; head = 0; tail = 0 };
  capacity = 4096;
  readers = 1;
  writers = 1;
}

run_conserves_example :
    let o = run wrapped calls in o.received ++ pending o.after ≡ pending wrapped ++ o.accepted
run_conserves_example = run_conserves wrapped calls wrapped-IsSound
