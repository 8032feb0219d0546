-- ===== src/Sched/Order.antt =====
-- sched_enqueue, sched_pick_next and sched_remove of kernel/sched.c: what they do to the queue.
use shadow_box_os.Common.{
  ℕ, zero, suc, ◌+◌, ◌*◌, ◌≤◌, ◌<◌, ◌≡◌, refl, sym, ap, ◌∙◌, arith, ◌⊎◌, inl, inr, true, false,
  List, [], ◌∷◌, ◌++◌, length, length-append, get_or, Bool-cases, leb, subst,
}
use shadow_box_os.Common.Count.{one_if}
use shadow_box_os.Sched.{
  Task, Scheduler, no_task, key, parent, heapify_up, grown, holds, placed, enqueue,
}
use shadow_box_os.Sched.Keys.{IsHeap, IsHeapAbove}
use shadow_box_os.Sched.Sift.{sift_up-IsHeap, length-sift_up}
use shadow_box_os.Sched.Held.{tally, SameTasks, tally-append, sift_up-SameTasks}

-- The queue is a heap that the array has room for.
pub record IsSound (s : Scheduler) : Type 0 where
  pub heap : IsHeap (key s.runqueue) (length s.runqueue)
  pub room : length s.runqueue ≤ s.rq_capacity
  pub some_room : 0 < s.rq_capacity

get_or-append_lt :
    (q : List Task) (p : Task) (i : ℕ)
    → i < length q
    → get_or (q ++ p ∷ []) i no_task ≡ get_or q i no_task
get_or-append_lt [] p i h = absurd (omega arith)
get_or-append_lt (t ∷ q) p zero h = refl
get_or-append_lt (t ∷ q) p (suc i) h = get_or-append_lt q p i (omega arith)

-- A new last task may be out of order with its parent alone.
append-IsHeapAbove :
    (q : List Task) (p : Task)
    → IsHeap (key q) (length q)
    → IsHeapAbove (key (q ++ p ∷ [])) (length q + 1) (length q)
append-IsHeapAbove q p heap = record {
  others = λ i pos_i h ne.
      let same = ap (λ (t : Task). t.vruntime) (get_or-append_lt q p i (omega arith)) in
      let above = ap (λ (t : Task). t.vruntime) (get_or-append_lt q p (parent i) (omega arith)) in
      omega (arith, heap i pos_i (omega arith));
  children = λ i pos_i h e more. absurd (omega arith);
}

grown_lem :
    (s : Scheduler)
    → IsSound s
    → IsSound (grown s)
      × ((grown s).runqueue ≡ s.runqueue)
      × ((grown s).min_vruntime ≡ s.min_vruntime)
      × (length s.runqueue < (grown s).rq_capacity)
unfolding grown
grown_lem s h = elim (Bool-cases (leb s.rq_capacity (length s.runqueue))) [
  | inl e ↦
      let more : length s.runqueue < s.rq_capacity * 2 = omega (arith, h.room, h.some_room) in
      rw (e, grown)
        (
          record { heap = h.heap; room = omega arith; some_room = omega (arith, h.some_room) },
          refl,
          refl,
          more,
        )
  | inr e ↦
      let more : length s.runqueue < s.rq_capacity = ground arith in
      rw (e, grown) (h, refl, refl, more)
]

-- sched_enqueue keeps the queue sound: a task that waits already changes nothing in it, another is
-- added, its virtual run time raised to the queue's least one.
pub enqueue_lem :
    (s : Scheduler) (p : Task)
    → IsSound s
    → let t = enqueue s p in
      IsSound t
      × (t.min_vruntime ≡ s.min_vruntime)
      × (((holds s.runqueue p.pid ≡ true) × (t.runqueue ≡ s.runqueue))
          ⊎ ((holds s.runqueue p.pid ≡ false)
              × SameTasks t.runqueue (placed s.min_vruntime p ∷ s.runqueue)))
unfolding enqueue
enqueue_lem s p h =
    let t = grown s in
    let (sound, queue, least, more) = grown_lem s h in
    let p' = placed t.min_vruntime p in
    let q = t.runqueue ++ p' ∷ [] in
    let at = length t.runqueue in
    let len : length q ≡ at + 1 = length-append t.runqueue (p' ∷ []) in
    let same_len : at ≡ length s.runqueue = ap length queue in
    elim (Bool-cases (holds t.runqueue p.pid)) [
      | inl e ↦ rw (e, enqueue) (sound, least, inl (ap (λ r. holds r p.pid) (sym queue) ∙ e, queue))
      | inr e ↦
          let above : IsHeapAbove (key q) (length q) at =
            subst (λ n. IsHeapAbove (key q) n at) (sym len)
              (append-IsHeapAbove t.runqueue p' sound.heap) in
          let sifted = sift_up-IsHeap at q at (omega arith) (omega (arith, len)) above in
          let len' = length-sift_up at q at in
          let added : SameTasks (heapify_up q at) (placed s.min_vruntime p ∷ s.runqueue) = λ f.
            let parts = tally-append f t.runqueue (p' ∷ []) in
            let old : tally f t.runqueue ≡ tally f s.runqueue = ap (tally f) queue in
            let new : one_if (f p') ≡ one_if (f (placed s.min_vruntime p)) =
              ap (λ v. one_if (f (placed v p))) least in
            omega (arith, sift_up-SameTasks at q at (omega (arith, len)) f) in
          rw (e, enqueue)
            (
              record {
                heap = subst (IsHeap (key (heapify_up q at))) (sym len') sifted;
                room = omega (arith, len', len, same_len, more);
                some_room = sound.some_room;
              },
              least,
              inr (ap (λ r. holds r p.pid) (sym queue) ∙ e, added),
            )
    ]
