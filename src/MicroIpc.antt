-- ===== src/MicroIpc.antt =====
-- kernel/micro_ipc.c: calls and replies between processes. A process is its address, and memory is a
-- function from the addresses of messages, the same for all processes.
pub mod Waiters
pub mod Calls
mod Examples
use shadow_box_os.Common.Errno.{Result, ok, err, esrch, einval}
use shadow_box_os.Common.{
  ℕ, zero, suc, ◌%◌, ◌^◌, Bool, true, false, not, ◌&&◌, ◌||◌, Option, none, some, List, [], ◌∷◌,
  ◌==◌, if◌then◌else◌,
}
use shadow_box_os.Signal.{TaskState, running, ready, blocked, zombie, stopped}

-- `sb_msg_t`
pub record Message : Type 0 where
  pub kind : ℕ
  pub data1 : ℕ
  pub data2 : ℕ
  pub data3 : ℕ
  pub data4 : ℕ

-- The fields that are read here; the status is 0, 1 while it receives and 2 while it sends.
pub record Process : Type 0 where
  pub pid : ℕ
  pub state : TaskState
  pub ipc_status : ℕ
  pub ipc_peer : ℕ
  pub ipc_msg_ptr : ℕ
  pub ipc_waiters : Option ℕ
  pub ipc_next_waiter : Option ℕ

-- `proc_list` is circular; the list goes round it once.
pub record System : Type 0 where
  pub process : ℕ → Process
  pub proc_list : List ℕ
  pub memory : ℕ → Message

abbrev pub is_zombie : TaskState → Bool
is_zombie zombie = true
is_zombie _ = false

abbrev pub set_process : System → ℕ → Process → System
set_process s a p = record s { process = λ x. if x == a then p else s.process x }

abbrev pub set_message : System → ℕ → Message → System
set_message s a m = record s { memory = λ x. if x == a then m else s.memory x }

unfoldable pub find_from : (ℕ → Process) → List ℕ → ℕ → Option ℕ
find_from process [] pid = none
find_from process (a ∷ list) pid =
    if ((process a).pid == pid) && not (is_zombie (process a).state)
    then some a
    else find_from process list pid

-- `none` is a search that never ends: only an empty list has a null pointer to stop at.
unfoldable pub find_process : System → ℕ → Option (Option ℕ)
find_process s pid = elim (s.proc_list) [
  | [] ↦ some none
  | a ∷ list ↦ elim (find_from s.process (a ∷ list) pid) [ none ↦ none | some t ↦ some (some t) ]
]

-- The last waiter from one on; `none` is that the fuel ran out.
unfoldable pub last_waiter : ℕ → (ℕ → Process) → ℕ → Option ℕ
last_waiter zero process w = none
last_waiter (suc f) process w = elim (process w).ipc_next_waiter [
  | none ↦ some w
  | some n ↦ last_waiter f process n
]

unfoldable pub enqueue : ℕ → System → ℕ → ℕ → Option System
enqueue f s c t =
    let s' = set_process s c (record (s.process c) { ipc_next_waiter = none }) in
    elim (s'.process t).ipc_waiters [
      | none ↦ some (set_process s' t (record (s'.process t) { ipc_waiters = some c }))
      | some w ↦ elim (last_waiter f s'.process w) [
        | none ↦ none
        | some l ↦ some (set_process s' l (record (s'.process l) { ipc_next_waiter = some c }))
      ]
    ]

abbrev pub woken : System → ℕ → System
woken s t = set_process s t (record (s.process t) { ipc_status = 0; state = ready })

abbrev pub is_receiving : Process → ℕ → Bool
is_receiving p pid = (p.ipc_status == 1) && ((p.ipc_peer == 0) || (p.ipc_peer == pid))

-- The message of `c` goes to `t` at once, or `c` waits.
unfoldable pub sent : ℕ → System → ℕ → ℕ → ℕ → Option System
sent f s c t msg_ptr =
    if is_receiving (s.process t) (s.process c).pid
    then some (
        woken
          (set_message s (s.process t).ipc_msg_ptr
            (record (s.memory msg_ptr) { data4 = (s.process c).pid }))
          t)
    else enqueue f s c t

-- `none` is a search that never ends or a queue that needs more fuel. The result is what the system
-- is when the caller gives up the processor.
unfoldable pub call : ℕ → System → Option ℕ → ℕ → ℕ → Option (Result ℕ × System)
call f s none target_pid msg_ptr = some (err einval, s)
call f s (some c) target_pid msg_ptr = elim (find_process s (target_pid % 2 ^ 32)) [
  | none ↦ none
  | some none ↦ some (err esrch, s)
  | some (some t) ↦
      let s' = set_process s c (record (s.process c) {
        ipc_status = 2;
        ipc_peer = (s.process t).pid;
        ipc_msg_ptr = msg_ptr;
      }) in
      elim (sent f s' c t msg_ptr) [
        | none ↦ none
        | some s'' ↦ some (ok 0, set_process s'' c (record (s''.process c) { state = blocked }))
      ]
]

-- The reply to `t`, if it waits for one from `c`.
unfoldable pub replied : System → ℕ → ℕ → ℕ → System
replied s c t reply_msg_ptr =
    if ((s.process t).ipc_status == 2) && ((s.process t).ipc_peer == (s.process c).pid)
    then woken (set_message s (s.process t).ipc_msg_ptr (s.memory reply_msg_ptr)) t
    else s

unfoldable pub reply : System → ℕ → ℕ → ℕ → Option System
reply s c reply_pid reply_msg_ptr =
    if (reply_pid == 0) || (reply_msg_ptr == 0)
    then some s
    else elim (find_process s (reply_pid % 2 ^ 32)) [
      | none ↦ none
      | some none ↦ some s
      | some (some t) ↦ some (replied s c t reply_msg_ptr)
    ]

-- The first waiter's request, or the process goes to sleep until one comes.
unfoldable pub wait : System → ℕ → ℕ → System
wait s c req_msg_ptr = elim (s.process c).ipc_waiters [
  | some w ↦
      let s' =
        set_process s c (record (s.process c) { ipc_waiters = (s.process w).ipc_next_waiter }) in
      set_message s' req_msg_ptr
        (record (s'.memory (s'.process w).ipc_msg_ptr) { data4 = (s'.process w).pid })
  | none ↦ set_process s c (record (s.process c) {
    ipc_status = 1;
    ipc_peer = 0;
    ipc_msg_ptr = req_msg_ptr;
    state = blocked;
  })
]

unfoldable pub reply_wait : System → Option ℕ → ℕ → ℕ → ℕ → Option (Result ℕ × System)
reply_wait s none reply_pid reply_msg_ptr req_msg_ptr = some (err einval, s)
reply_wait s (some c) reply_pid reply_msg_ptr req_msg_ptr =
    elim (reply s c reply_pid reply_msg_ptr) [
      | none ↦ none
      | some s' ↦ some (ok 0, wait s' c req_msg_ptr)
    ]
