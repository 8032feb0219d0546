-- ===== src/Sched/Pick.antt =====
-- sched_pick_next and sched_remove of kernel/sched.c: which task they take out of the queue.
use shadow_box_os.Common.{
  ℕ, suc, ◌+◌, ◌-◌, ◌≤◌, ◌<◌, ◌≡◌, refl, sym, ap, ◌∙◌, arith, ◌⊎◌, inl, inr, true, false, ◌&&◌,
  none, some, List, [], ◌∷◌, length, get_or, set, Bool-cases, ltb, ◌==◌, subst, All,
}
use shadow_box_os.Sched.{
  Task, Scheduler, no_task, key, heapify_up, heapify_down, settled, charged, filled, is_fifo,
  pick_next, slot_of, remove,
}
use shadow_box_os.Sched.Keys.{IsHeap, root-le}
use shadow_box_os.Sched.Sift.{length-sift_up, length-sift_down}
use shadow_box_os.Sched.Held.{
  tally, SameTasks, tally-filled, sift_up-SameTasks, sift_down-SameTasks,
}
use shadow_box_os.Sched.Fill.{
  length-filled, filled_up-IsHeap, settled-IsHeap, settled-SameTasks, length-settled,
  filled_last-IsHeap,
}
use shadow_box_os.Sched.Order.{IsSound}

All-above :
    (bound : ℕ) (q : List Task)
    → ((i : ℕ) → i < length q → bound ≤ key q i)
    → All (λ (t : Task). bound ≤ t.vruntime) q
All-above bound [] h = tt
All-above bound (t ∷ q) h = (h 0 (omega arith), All-above bound q (λ i p. h (suc i) (omega arith)))

-- On a sound queue sched_pick_next returns nothing if no task waits, and otherwise the task with
-- the least virtual run time, charged for its turn. A SCHED_FIFO task with time left stays in front,
-- charged; another task leaves the queue, which stays sound with all the others in it.
pub pick_next_lem :
    (s : Scheduler)
    → IsSound s
    → let front = get_or s.runqueue 0 no_task in
      let (task, t) = pick_next s in
      ((s.runqueue ≡ []) × (task ≡ none) × (t ≡ s))
      ⊎ ((task ≡ some (charged front))
          × All (λ (p : Task). front.vruntime ≤ p.vruntime) s.runqueue
          × (((is_fifo front.policy && ltb 0 (charged front).time_slice) ≡ true)
                × (t.runqueue ≡ set s.runqueue 0 (charged front))
              ⊎ ((is_fifo front.policy && ltb 0 (charged front).time_slice) ≡ false)
                × SameTasks (front ∷ t.runqueue) s.runqueue
                × IsSound t))
unfolding pick_next
pick_next_lem s h = elim (Bool-cases (length s.runqueue == 0)) [
  | inl e ↦ rw (e, pick_next) (inl (no_tasks s.runqueue (ground arith), refl, refl))
  | inr e ↦
      let q = s.runqueue in
      let front = get_or q 0 no_task in
      let some_task : 0 < length q = ground arith in
      let least =
        All-above front.vruntime q (λ i p. root-le (key q) (length q) h.heap i i (omega arith) p) in
      elim (Bool-cases (is_fifo front.policy && ltb 0 (charged front).time_slice)) [
        | inl stays ↦ rw (e, stays, pick_next) (inr (refl, least, inl (refl, refl)))
        | inr leaves ↦
            let r = filled q 0 in
            let len = length-settled r ∙ length-filled q 0 in
            let others : SameTasks (front ∷ settled r) q =
              λ f. omega (arith, tally-filled f q 0 some_task, settled-SameTasks r f) in
            rw (e, leaves, pick_next)
              (inr (
                refl,
                least,
                inr (
                  refl,
                  others,
                  record {
                    heap =
                        subst (IsHeap (key (settled r))) (sym len)
                          (settled-IsHeap q some_task h.heap);
                    room = omega (arith, len, h.room);
                    some_room = h.some_room;
                  },
                ),
              ))
      ]
]
  where
    no_tasks : (q : List Task) → length q ≡ 0 → q ≡ []
    no_tasks [] e = refl
    no_tasks (t ∷ q) e = absurd (omega arith)

-- How many of the tasks have this number.
abbrev pub copies : ℕ → List Task → ℕ
copies pid q = tally (λ t. t.pid == pid) q

slot_of_lem :
    (q : List Task) (pid from : ℕ)
    → ((slot_of q pid from ≡ none) × (copies pid q ≡ 0))
      ⊎ ((i : ℕ) × (slot_of q pid from ≡ some (i + from))
          × (i < length q)
          × ((get_or q i no_task).pid ≡ pid))
unfolding slot_of
slot_of_lem [] pid from = inl (refl, refl)
slot_of_lem (t ∷ q) pid from = elim (Bool-cases (t.pid == pid)) [
  | inl e ↦ inr (0, rw (e, slot_of) (ap some (omega arith)), omega arith, ground arith)
  | inr e ↦ elim (slot_of_lem q pid (from + 1)) [
    | inl (found, rest) ↦ inl (rw (e, found, slot_of) refl, rw (e, rest) refl)
    | inr (i, found, h, same) ↦
        inr (suc i, rw (e, found, slot_of) (ap some (omega arith)), omega arith, same)
  ]
]

-- sched_remove of a task that does not wait changes nothing; of one that waits it takes one out and
-- leaves the others, and the queue stays sound.
pub remove_lem :
    (s : Scheduler) (pid : ℕ)
    → IsSound s
    → let t = remove s pid in
      IsSound t
      × (((copies pid s.runqueue ≡ 0) × (t ≡ s))
          ⊎ ((p : Task) × (p.pid ≡ pid) × SameTasks (p ∷ t.runqueue) s.runqueue))
unfolding remove
remove_lem s pid h = elim (slot_of_lem s.runqueue pid 0) [
  | inl (found, absent) ↦ rw (found, remove) (h, inl (absent, refl))
  | inr (i, found, small, same) ↦
      let q = s.runqueue in
      let r = filled q i in
      let len = length-filled q i in
      let at : slot_of q pid 0 ≡ some i = found ∙ ap some (omega arith) in
      elim (Bool-cases (ltb i (length r))) [
        | inl e ↦
            let down = heapify_down r i in
            let len' : length (heapify_up down i) ≡ length q - 1 =
              length-sift_up i down i ∙ length-sift_down (length r - i) r i ∙ len in
            rw (at, e, remove)
              (
                record {
                  heap =
                      subst (IsHeap (key (heapify_up down i))) (sym len')
                        (filled_up-IsHeap q i (ground (arith, len)) h.heap);
                  room = omega (arith, len', h.room);
                  some_room = h.some_room;
                },
                inr (
                  get_or q i no_task,
                  same,
                  λ f. omega (
                    arith,
                    tally-filled f q i small,
                    sift_down-SameTasks (length r - i) r i (ground arith) f,
                    sift_up-SameTasks i down i (ground (arith, length-sift_down (length r - i) r i))
                        f,
                  ),
                ),
              )
        | inr e ↦
            rw (at, e, remove)
              (
                record {
                  heap =
                      subst (IsHeap (key r)) (sym len)
                        (filled_last-IsHeap q i small (ground (arith, len)) h.heap);
                  room = omega (arith, len, h.room);
                  some_room = h.some_room;
                },
                inr (get_or q i no_task, same, λ f. omega (arith, tally-filled f q i small)),
              )
      ]
]
