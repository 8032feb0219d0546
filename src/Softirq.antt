-- ===== src/Softirq.antt =====
-- kernel/softirq.c: deferred interrupt work and tasklets.
pub mod Pending
pub mod Tasklets
mod Examples
use shadow_box_os.Common.{
  ℕ, zero, suc, ◌+◌, ◌^◌, Bool, true, false, not, Option, none, some, List, [], ◌∷◌, ◌++◌, bit_and,
  bit_or, get_or, set, replicate, ltb, ◌==◌, if◌then◌else◌,
}
use shadow_box_os.Common.Int.{ℤ, pos, negsuc}

abbrev pub max_softirqs : ℕ
max_softirqs = 32

-- A handler and its argument; a tasklet is named by its address.
pub record Action : Type 0 where
  pub handler : ℕ
  pub arg : ℕ

-- `scheduled` is the state of the tasklets, and `has_func` whether their function is not null. The
-- batches are the lists that calls of tasklet_action took and have not gone through yet, one for each
-- call.
pub record Softirq : Type 0 where
  pub softirq_vec : List (Option Action)
  pub softirq_pending : ℕ
  pub tasklet_list : List ℕ
  pub scheduled : ℕ → Bool
  pub has_func : ℕ → Bool
  pub batches : List (List ℕ)

abbrev pub tasklet_softirq : ℕ
tasklet_softirq = 0

-- A number outside of 0 to `max_softirqs - 1` is ignored.
abbrev pub in_range : ℤ → Option ℕ
in_range (pos n) = if ltb n max_softirqs then some n else none
in_range (negsuc n) = none

unfoldable pub register : Softirq → ℤ → Action → Softirq
register s nr a = elim (in_range nr) [
  | none ↦ s
  | some n ↦ record s { softirq_vec = set s.softirq_vec n (some a) }
]

-- `tasklet_action` is the address of the handler that runs the tasklets; `func` has what tasklet_init
-- was given for each of them.
unfoldable pub init : ℕ → (ℕ → Bool) → Softirq
init tasklet_action func =
    register
      (record {
        softirq_vec = replicate max_softirqs none;
        softirq_pending = 0;
        tasklet_list = [];
        scheduled = λ t. false;
        has_func = func;
        batches = [];
      })
      (pos tasklet_softirq) (record { handler = tasklet_action; arg = 0 })

unfoldable pub raise : Softirq → ℤ → Softirq
raise s nr = elim (in_range nr) [
  | none ↦ s
  | some n ↦ record s { softirq_pending = bit_or s.softirq_pending (2 ^ n) }
]

-- The loop over the numbers from `i`, with that many left: the handlers that run, in order.
unfoldable pub handlers_from : List (Option Action) → ℕ → ℕ → ℕ → List Action
handlers_from vec pending zero i = []
handlers_from vec pending (suc left) i =
    let later = handlers_from vec pending left (i + 1) in
    if not (bit_and pending (2 ^ i) == 0)
    then elim (get_or vec i none) [ none ↦ later | some a ↦ a ∷ later ]
    else later

-- What is pending is taken and cleared before the first handler runs.
unfoldable pub do_pending : Softirq → List Action × Softirq
do_pending s = if s.softirq_pending == 0 then ([], s) else (
  handlers_from s.softirq_vec s.softirq_pending max_softirqs 0,
  record s { softirq_pending = 0 },
)

abbrev pub with_state : (ℕ → Bool) → ℕ → Bool → ℕ → Bool
with_state f t b u = if t == u then b else f u

unfoldable pub tasklet_schedule : Softirq → ℕ → Softirq
tasklet_schedule s t =
    if s.scheduled t
    then s
    else raise
        (record s { scheduled = with_state s.scheduled t true; tasklet_list = t ∷ s.tasklet_list })
        (pos tasklet_softirq)

-- tasklet_action up to its loop, under the lock: the list becomes the batch of this call.
unfoldable pub take_list : Softirq → Softirq
take_list s = record s { tasklet_list = []; batches = s.batches ++ s.tasklet_list ∷ [] }

-- The tasklet that stands first in batch `i`.
unfoldable pub first_of : List (List ℕ) → ℕ → Option ℕ
first_of [] i = none
first_of ([] ∷ bs) zero = none
first_of ((t ∷ ts) ∷ bs) zero = some t
first_of (b ∷ bs) (suc i) = first_of bs i

-- The batches without it.
unfoldable pub advance : List (List ℕ) → ℕ → List (List ℕ)
advance [] i = []
advance ([] ∷ bs) zero = [] ∷ bs
advance ((t ∷ ts) ∷ bs) zero = ts ∷ bs
advance (b ∷ bs) (suc i) = b ∷ advance bs i

-- One turn of the loop of call `i` of tasklet_action, which is not under the lock: the tasklet leaves
-- the batch, may be scheduled again from now on, and runs if it has a function. What the function
-- does, and what other processors do before the next turn, are steps of their own. The tasklets that run are
-- returned.
unfoldable pub tasklet_turn : Softirq → ℕ → List ℕ × Softirq
tasklet_turn s i = elim (first_of s.batches i) [
  | none ↦ ([], s)
  | some t ↦ (
    if s.has_func t then t ∷ [] else [],
    record s { batches = advance s.batches i; scheduled = with_state s.scheduled t false },
  )
]
