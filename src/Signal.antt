-- ===== src/Signal.antt =====
-- kernel/signal.c: sending, handling, masking and delivering signals.
pub mod Mask
pub mod Send
pub mod Deliver
pub mod Reserved
mod Examples
use shadow_box_os.Common.{
  ℕ, zero, suc, ◌+◌, ◌-◌, ◌^◌, Bool, true, false, ◌&&◌, ◌||◌, Option, none, some, List, [], ◌∷◌,
  bit_and, bit_or, get_or, set, ltb, leb, ◌==◌, if◌then◌else◌,
}
use shadow_box_os.Common.Bits.{complement}
use shadow_box_os.Common.Int.{ℤ, pos, negsuc}
use shadow_box_os.Common.Errno.{Errno, einval, esrch, Result, ok, err}

-- The numbers of include/signal.h that the code tells apart.
abbrev pub sigkill : ℕ
sigkill = 9

abbrev pub sigchld : ℕ
sigchld = 17

abbrev pub sigcont : ℕ
sigcont = 18

abbrev pub sigstop : ℕ
sigstop = 19

abbrev pub sigtstp : ℕ
sigtstp = 20

abbrev pub sigttin : ℕ
sigttin = 21

abbrev pub sigttou : ℕ
sigttou = 22

abbrev pub sigurg : ℕ
sigurg = 23

abbrev pub sigwinch : ℕ
sigwinch = 28

abbrev pub sig_dfl : ℕ
sig_dfl = 0

abbrev pub sig_ign : ℕ
sig_ign = 1

abbrev pub sig_err : ℕ
sig_err = 2 ^ 64 - 1

-- Handlers from here up are kernel code.
abbrev pub kernel_space : ℕ
kernel_space = 0xFFFF_FFFF_8000_0000

-- `struct sigaction`; the handler and the restorer are addresses.
pub record SigAction : Type 0 where
  pub handler : ℕ
  pub flags : ℕ
  pub restorer : ℕ
  pub mask : ℕ

abbrev pub cleared_action : SigAction
cleared_action = record { handler = 0; flags = 0; restorer = 0; mask = 0 }

pub data TaskState : Type 0 where
  running ready blocked zombie stopped : TaskState

-- What `struct process` keeps for signals: two 64-bit masks and 32 actions.
pub record Process : Type 0 where
  pub pid : ℕ
  pub state : TaskState
  pub sig_pending : ℕ
  pub sig_blocked : ℕ
  pub sig_actions : List SigAction

-- `1ULL << (sig - 1)`
abbrev pub bit_of : ℕ → ℕ
bit_of sig = 2 ^ (sig - 1)

-- `x & ~y` on `uint64_t`
abbrev pub without : ℕ → ℕ → ℕ
without x y = bit_and x (complement 64 y)

abbrev pub in_range : ℤ → Option ℕ
in_range (pos n) = if ltb n 1 || ltb 31 n then none else some n
in_range (negsuc n) = none

-- What a delivered signal does. `terminate` is task_exit, which does not return; stopping and
-- continuing are not implemented, so the default actions other than it do nothing.
pub data Action : Type 0 where
  terminate : ℕ → Action
  ignore : Action
  stop : Action
  call : ℕ → ℕ → Action

abbrev pub is_ignored_by_default : ℕ → Bool
is_ignored_by_default sig =
    (sig == sigchld) || (sig == sigcont) || (sig == sigwinch) || (sig == sigurg)

abbrev pub stops_by_default : ℕ → Bool
stops_by_default sig = (sig == sigstop) || (sig == sigtstp) || (sig == sigttin) || (sig == sigttou)

-- get_default_action, and the call of what it returns.
unfoldable pub default_action : ℕ → Action
default_action sig =
    if is_ignored_by_default sig
    then ignore
    else if stops_by_default sig
    then stop
    else terminate (128 + sig)

-- The processes in the order of the process list, and the calls of sched_enqueue.
pub record System : Type 0 where
  pub processes : List Process
  pub enqueued : List ℕ

-- proc_find of kernel/task.c
unfoldable pub proc_find : List Process → ℕ → Option Process
proc_find [] pid = none
proc_find (p ∷ ps) pid = if p.pid == pid then some p else proc_find ps pid

-- Writes through the pointer that proc_find returned.
unfoldable pub put_back : List Process → ℕ → Process → List Process
put_back [] pid q = []
put_back (p ∷ ps) pid q = if p.pid == pid then q ∷ ps else p ∷ put_back ps pid q

abbrev pub signalled : Process → ℕ → Process
signalled p sig = record p { sig_pending = bit_or p.sig_pending (bit_of sig) }

abbrev pub woken : Process → Process
woken p = elim p.state [ blocked ↦ record p { state = ready } | _ ↦ p ]

abbrev pub wakes : Process → Bool
wakes p = elim p.state [ blocked ↦ true | _ ↦ false ]

abbrev pub send_to : System → ℕ → ℕ → Process → System
send_to s pid sig p = record {
  processes = put_back s.processes pid (woken (signalled p sig));
  enqueued = if wakes p then p.pid ∷ s.enqueued else s.enqueued;
}

-- `pid` is an int whose value reaches proc_find as a uint32_t.
unfoldable pub send_signal : System → ℕ → ℤ → Result System
send_signal s pid sig = elim (in_range sig) [
  | none ↦ err einval
  | some n ↦ elim (proc_find s.processes pid) [ none ↦ err esrch | some p ↦ ok (send_to s pid n p) ]
]

-- The action that sys_sigaction reads and writes for a signal, if it may.
abbrev pub settable : ℤ → Option ℕ
settable sig = elim (in_range sig) [
  | none ↦ none
  | some n ↦ if (n == sigkill) || (n == sigstop) then none else some n
]

abbrev pub action_of : Process → ℕ → SigAction
action_of p sig = get_or p.sig_actions (sig - 1) cleared_action

abbrev pub with_action : Process → ℕ → Option SigAction → Process
with_action p sig none = p
with_action p sig (some a) = record p { sig_actions = set p.sig_actions (sig - 1) a }

-- The current process, or none. Returns the old action beside the process; the caller's `act` and
-- `oldact` are different objects.
unfoldable pub sigaction : Option Process → ℤ → Option SigAction → Result (SigAction × Process)
sigaction proc sig act = elim (settable sig) [
  | none ↦ err einval
  | some n ↦ elim proc [ none ↦ err esrch | some p ↦ ok (action_of p n, with_action p n act) ]
]

abbrev pub plain : ℕ → SigAction
plain handler = record { handler = handler; flags = 0; restorer = 0; mask = 0 }

-- sys_signal: the old handler, or SIG_ERR.
unfoldable pub signal : Process → ℤ → ℕ → ℕ × Process
signal p sig handler = elim (sigaction (some p) sig (some (plain handler))) [
  | err e ↦ (sig_err, p)
  | ok (old, q) ↦ (old.handler, q)
]

-- The mask that `how` makes of the old mask and `*set`: SIG_BLOCK, SIG_UNBLOCK, SIG_SETMASK.
abbrev pub masked : ℕ → ℕ → ℕ → Option ℕ
masked zero old m = some (bit_or old m)
masked (suc zero) old m = some (without old m)
masked (suc (suc zero)) old m = some m
masked (suc (suc (suc _))) old m = none

-- SIGKILL and SIGSTOP cannot be blocked.
abbrev pub spared : ℕ → ℕ
spared m = without (without m (bit_of sigkill)) (bit_of sigstop)

-- The status, what is written through `oldset` (also when `how` is refused), and the process.
unfoldable pub sigprocmask :
    Option Process → ℕ → Option ℕ → Result (Unit {0}) × Option ℕ × Option Process
sigprocmask none how m = (err esrch, none, none)
sigprocmask (some p) how none = (ok tt, some p.sig_blocked, some p)
sigprocmask (some p) how (some m) = elim (masked how p.sig_blocked m) [
  | none ↦ (err einval, some p.sig_blocked, some p)
  | some m' ↦ (ok tt, some p.sig_blocked, some (record p { sig_blocked = spared m' }))
]

-- One round of the delivery loop at a pending signal, its bit cleared: `none` goes on.
unfoldable pub handle : ℕ → ℕ → Option Action
handle sig handler =
    if handler == sig_ign
    then none
    else if handler == sig_dfl
    then some (default_action sig)
    else if leb kernel_space handler
    then some (call handler sig)
    else some (default_action sig)

abbrev pub cleared : Process → ℕ → Process
cleared p sig = record p { sig_pending = without p.sig_pending (bit_of sig) }

-- The loop from `sig` on, `rounds` signals; `pending` is what was deliverable at its start.
unfoldable pub deliver_from : ℕ → ℕ → ℕ → Process → Option Action × Process
deliver_from zero sig pending p = (none, p)
deliver_from (suc rounds) sig pending p = elim (bit_and pending (bit_of sig) == 0) [
  | true ↦ deliver_from rounds (sig + 1) pending p
  | false ↦ elim (handle sig (action_of p sig).handler) [
    | none ↦ deliver_from rounds (sig + 1) pending (cleared p sig)
    | some a ↦ (some a, cleared p sig)
  ]
]

-- check_and_deliver_signals, for a current process: the action that is taken, if any.
unfoldable pub check_and_deliver : Process → Option Action × Process
check_and_deliver p =
    let pending = without p.sig_pending p.sig_blocked in
    elim (pending == 0) [ true ↦ (none, p) | false ↦ deliver_from 31 1 pending p ]
