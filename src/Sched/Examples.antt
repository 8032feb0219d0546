-- ===== src/Sched/Examples.antt =====
-- The theorems on the run queue at small queues, and runs of the calls.
use shadow_box_os.Common.{
  ℕ, zero, suc, ◌≤◌, ◌≡◌, refl, true, false, ◌&&◌, none, some, List, [], ◌∷◌, arith, All, ◌⊎◌, set,
  ltb,
}
use shadow_box_os.Common.Int.{pos, negsuc}
use shadow_box_os.Sched.{
  Task, Scheduler, init, enqueue, pick_next, holds, placed, charged, is_fifo, sched_normal,
  nice_to_weight, grown, sift_up, sift_down, swap_nodes, settled, filled, key,
}
use shadow_box_os.Sched.Keys.{IsHeap}
use shadow_box_os.Sched.Held.{SameTasks}
use shadow_box_os.Sched.Order.{IsSound}
use shadow_box_os.Sched.Pick.{pick_next_lem}
use shadow_box_os.Sched.Once.{Call, enqueues, picks, removes, run, IsFair, run-IsFair}

abbrev task : ℕ → ℕ → Task
task pid vruntime = record {
  pid = pid;
  vruntime = vruntime;
  nice = negsuc 4;
  time_slice = 20;
  policy = sched_normal;
}

abbrev queue : Scheduler
queue = record {
  runqueue = task 4 200 ∷ task 7 500 ∷ task 9 300 ∷ [];
  rq_capacity = 64;
  min_vruntime = 150;
}

in_order : IsHeap (key queue.runqueue) 3
in_order zero p h = absurd (omega arith)
in_order (suc zero) p h = omega arith
in_order (suc (suc zero)) p h = omega arith
in_order (suc (suc (suc i))) p h = absurd (omega arith)

queue-IsSound : IsSound queue
queue-IsSound = record { heap = in_order; room = omega arith; some_room = omega arith }

-- nice -5 is the weight 3121, and a turn costs 3281000.
weights : (nice_to_weight (negsuc 4) ≡ 3121) × (nice_to_weight (pos 40) ≡ 15)
unfolding nice_to_weight
weights = (refl, refl)

-- A task that slept starts at the least virtual run time.
late : (enqueue queue (task 5 0)).runqueue ≡ task 5 150 ∷ task 4 200 ∷ task 9 300 ∷ task 7 500 ∷ []
unfolding enqueue grown holds placed sift_up swap_nodes
late = refl

first : (pick_next queue).1.runqueue ≡ task 9 300 ∷ task 7 500 ∷ []
unfolding pick_next settled filled sift_down swap_nodes nice_to_weight
first = refl

pick_next_lem_example :
    let front = task 4 200 in
    let (picked, t) = pick_next queue in
    ((queue.runqueue ≡ []) × (picked ≡ none) × (t ≡ queue))
    ⊎ ((picked ≡ some (charged front))
        × All (λ (p : Task). 200 ≤ p.vruntime) queue.runqueue
        × (((is_fifo front.policy && ltb 0 (charged front).time_slice) ≡ true)
              × (t.runqueue ≡ set queue.runqueue 0 (charged front))
            ⊎ ((is_fifo front.policy && ltb 0 (charged front).time_slice) ≡ false)
              × SameTasks (front ∷ t.runqueue) queue.runqueue
              × IsSound t))
pick_next_lem_example = pick_next_lem queue queue-IsSound

abbrev calls : List Call
calls =
    enqueues (task 1 0)
    ∷ enqueues (task 2 70)
    ∷ enqueues (task 1 90)
    ∷ picks
    ∷ removes 2
    ∷ picks
    ∷ []

init-IsFair : IsFair init
init-IsFair = record {
  sound = record {
    heap = λ i p h. absurd (omega arith);
    room = omega arith;
    some_room = omega arith;
  };
  no_fifo = refl;
  once = λ pid. omega arith;
}

run-IsFair_example : IsFair (run init calls)
run-IsFair_example = run-IsFair init calls init-IsFair (refl, (refl, (refl, (tt, (tt, (tt, tt))))))
