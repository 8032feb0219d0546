-- ===== src/Softirq/Examples.antt =====
-- The theorems on deferred work at concrete states, and runs of the calls.
use shadow_box_os.Common.{ℕ, Bool, true, false, not, ◌==◌, ◌+◌, ◌≡◌, refl, List, [], ◌∷◌}
use shadow_box_os.Common.Count.{one_if}
use shadow_box_os.Common.Int.{pos}
use shadow_box_os.Softirq.{
  Action, Softirq, init, register, raise, do_pending, handlers_from, tasklet_schedule, take_list,
  tasklet_turn, first_of, advance,
}
use shadow_box_os.Softirq.Tasklets.{
  Call, schedules, takes, turns, run, step, times, waiting, all_starts, run_once,
}

-- The tasklets' handler is at 500, and the one of number 3 at 700.
abbrev tasklets : Action
tasklets = record { handler = 500; arg = 0 }

abbrev timer : Action
timer = record { handler = 700; arg = 9 }

abbrev both_raised : Softirq
both_raised = raise (raise (register (init 500 (λ t. true)) (pos 3) timer) (pos 3)) (pos 0)

both_run : (do_pending both_raised).0 ≡ tasklets ∷ timer ∷ []
unfolding do_pending handlers_from raise register init
both_run = refl

-- Tasklet 7 has no function.
abbrev func : ℕ → Bool
func t = not (t == 7)

-- Tasklet 9 runs and schedules itself and 8 again, while 8 still stands in the batch.
abbrev calls : List Call
calls =
    schedules 7
    ∷ schedules 8
    ∷ schedules 9
    ∷ schedules 8
    ∷ takes
    ∷ turns 0
    ∷ schedules 9
    ∷ schedules 8
    ∷ turns 0
    ∷ turns 0
    ∷ turns 0
    ∷ []

order : (run (init 500 func) calls).0 ≡ 9 ∷ 8 ∷ []
unfolding run step init register tasklet_schedule take_list tasklet_turn first_of advance raise
order = refl

run_once_example :
    let (ran, u) = run (init 500 func) calls in
    ((init 500 func).has_func 8 ≡ true
      → times 8 ran + waiting 8 u ≡ waiting 8 (init 500 func) + all_starts 8 (init 500 func) calls)
    × ((init 500 func).has_func 8 ≡ false → times 8 ran ≡ 0)
    × (waiting 8 u ≡ one_if (u.scheduled 8))
unfolding init register
run_once_example = run_once (init 500 func) calls 8 (λ t. refl)
