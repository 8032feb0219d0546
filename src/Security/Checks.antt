-- ===== src/Security/Checks.antt =====
-- kernel/security.c: the checks on processes.
use shadow_box_os.Common.Errno.{Result, ok, err, einval, eperm, eacces}
use shadow_box_os.Common.Int.{pos}
use shadow_box_os.Common.{
  ℕ, ◌≡◌, ◌≢◌, refl, ◌⊎◌, inl, inr, Bool, true, false, not, Option, none, some, List, ◌∷◌, ◌++◌, ap,
  ◌∙◌, ℕ_discrete, ◌==◌, if◌then◌else◌, arith,
}
use shadow_box_os.Security.{cap_valid, cap_kill}
use shadow_box_os.Security.Modules.{
  Module, Verdict, go_on, allow, deny, fails, refuses, answer, Refuses, AllLet, lsm_hook_invoke,
  lsm_hook_invoke_lem,
}
use shadow_box_os.Security.Log.{Audit, AuditEntry, lsm_denied, no_cap_kill, audit_log}

pub record Process : Type 0 where
  pub pid : ℕ
  pub euid : ℕ

abbrev pub hook_file_permission : ℕ
hook_file_permission = 0

abbrev pub hook_task_kill : ℕ
hook_task_kill = 2

abbrev pub hook_capable : ℕ
hook_capable = 8

-- The numbers of the answers.
abbrev pub verdict_code : Verdict → ℕ
verdict_code go_on = 0
verdict_code allow = 1
verdict_code deny = 2
verdict_code fails = 3

-- A hook for a process; a refusal is logged.
unfoldable pub invoked : List Module → Audit → Process → ℕ → ℕ → Verdict × Audit
invoked ms a p hook args =
    let v = lsm_hook_invoke ms hook args in
    let e : AuditEntry = record {
      pid = pos p.pid;
      event_type = hook;
      result = verdict_code v;
      detail = lsm_denied;
    } in
    (v, if refuses v then audit_log a e else a)

-- The modules are asked, but what they answer makes no difference. `none` is a null process.
unfoldable pub check_cap : List Module → Audit → Option Process → ℕ → Bool × Audit
check_cap ms a none cap = (false, a)
check_cap ms a (some p) cap =
    if not (cap_valid (pos cap))
    then (false, a)
    else if p.euid == 0
    then (true, a)
    else (false, (invoked ms a p hook_capable cap).1)

unfoldable pub kill_denied : Process → AuditEntry
kill_denied p = record {
  pid = pos p.pid;
  event_type = hook_task_kill;
  result = 2;
  detail = no_cap_kill;
}

-- `none` is a null process.
unfoldable pub check_kill : List Module → Audit → Option Process → Option Process → Result ℕ × Audit
check_kill ms a none target = (err einval, a)
check_kill ms a (some p) none = (err einval, a)
check_kill ms a (some p) (some target) =
    let (may, a') = check_cap ms a (some p) cap_kill in
    if p.euid == 0
    then (ok 0, a)
    else if p.euid == target.euid
    then (ok 0, a)
    else if may
    then (ok 0, a')
    else (err eperm, audit_log a' (kill_denied p))

abbrev pub denies : Verdict → Bool
denies deny = true
denies go_on = false
denies allow = false
denies fails = false

-- inode_permission allows everything.
unfoldable pub file_permission : List Module → Audit → Process → ℕ → Result ℕ × Audit
file_permission ms a p mask =
    let (v, a') = invoked ms a p hook_file_permission mask in
    (if denies v then err eacces else ok 0, a')

-- The log of a hook of a process: as it was if no module refuses, and with the refusal of the first
-- module that does.
invoked_lem :
    (ms : List Module) (a : Audit) (p : Process) (hook args : ℕ)
    → (AllLet ms hook args × ((invoked ms a p hook args).1 ≡ a))
      ⊎ ((before : List Module) × (m : Module) × (after : List Module) × (ms ≡ before ++ m ∷ after)
          × AllLet before hook args
          × Refuses m hook args
          × ((invoked ms a p hook args).1
              ≡ audit_log a (record {
                pid = pos p.pid;
                event_type = hook;
                result = verdict_code (answer m hook args);
                detail = lsm_denied;
              })))
unfolding invoked
invoked_lem ms a p hook args = elim (lsm_hook_invoke_lem ms hook args) [
  | inl (run, all) ↦ inl (all, rw (run, invoked) refl)
  | inr (before, m, after, is, let_before, bad, run) ↦
      inr (before, m, after, is, let_before, bad, rw (run, bad, invoked) refl)
]

check_kill_null :
    (ms : List Module) (a : Audit) (o : Option Process) → check_kill ms a o none ≡ (err einval, a)
unfolding check_kill
check_kill_null ms a none = refl
check_kill_null ms a (some p) = refl

check_kill_allowed :
    (ms : List Module) (a : Audit) (p target : Process)
    → (p.euid ≡ 0) ⊎ (p.euid ≡ target.euid)
    → check_kill ms a (some p) (some target) ≡ (ok 0, a)
unfolding check_kill
check_kill_allowed ms a p target h = elim h [
  | inl root ↦ ground (arith, root)
  | inr same ↦ ground (arith, same)
]

check_kill_denied :
    (ms : List Module) (a : Audit) (p target : Process)
    → p.euid ≢ 0
    → p.euid ≢ target.euid
    → check_kill ms a (some p) (some target)
      ≡ (err eperm, audit_log (invoked ms a p hook_capable cap_kill).1 (kill_denied p))
unfolding check_kill check_cap cap_valid
check_kill_denied ms a p target n m = ground (arith, n, m)

-- A null process cannot kill or be killed: EINVAL, and nothing is logged. A process may kill another
-- exactly if it has effective user 0 or that of the other; then nothing is logged. Otherwise the
-- answer is EPERM, and the denial is logged, alone if every module lets the process use CAP_KILL, and
-- behind the refusal of the first module that does not.
pub check_kill_lem :
    (ms : List Module) (a : Audit) (p target : Process)
    → let denial : AuditEntry = record {
      pid = pos p.pid;
      event_type = 2;
      result = 2;
      detail = no_cap_kill;
    } in
      ((o : Option Process) → check_kill ms a none o ≡ (err einval, a))
      × ((o : Option Process) → check_kill ms a o none ≡ (err einval, a))
      × (((p.euid ≡ 0) ⊎ (p.euid ≡ target.euid))
            × (check_kill ms a (some p) (some target) ≡ (ok 0, a))
          ⊎ ((p.euid ≢ 0)
              × (p.euid ≢ target.euid)
              × ((AllLet ms 8 5
                    × (check_kill ms a (some p) (some target) ≡ (err eperm, audit_log a denial)))
                  ⊎ ((before : List Module) × (m : Module) × (after : List Module) × (ms
                        ≡ before ++ m ∷ after)
                      × AllLet before 8 5
                      × Refuses m 8 5
                      × (check_kill ms a (some p) (some target) ≡ (
                        err eperm,
                        audit_log
                            (audit_log a (record {
                              pid = pos p.pid;
                              event_type = 8;
                              result = verdict_code (answer m 8 5);
                              detail = lsm_denied;
                            }))
                            denial,
                      ))))))
unfolding check_kill kill_denied
check_kill_lem ms a p target = (
  λ o. refl,
  check_kill_null ms a,
  elim (ℕ_discrete p.euid 0) [
    | yes root ↦ inl (inl root, check_kill_allowed ms a p target (inl root))
    | no user ↦ elim (ℕ_discrete p.euid target.euid) [
      | yes same ↦ inl (inr same, check_kill_allowed ms a p target (inr same))
      | no other ↦
          let denied = check_kill_denied ms a p target user other in
          inr (
            user,
            other,
            elim (invoked_lem ms a p hook_capable cap_kill) [
              | inl (all, log) ↦
                  inl (all, denied ∙ ap (λ l. (err eperm, audit_log l (kill_denied p))) log)
              | inr (before, m, after, is, let_before, bad, log) ↦ inr (
                before,
                m,
                after,
                is,
                let_before,
                bad,
                denied ∙ ap (λ l. (err eperm, audit_log l (kill_denied p))) log,
              )
            ],
          )
    ]
  ],
)

denies-false : (v : Verdict) → v ≢ deny → denies v ≡ false
denies-false go_on h = refl
denies-false allow h = refl
denies-false deny h = absurd (h refl)
denies-false fails h = refl

-- A file may be used unless the first module that refuses denies it; if that one fails instead, the
-- file may be used all the same, and the refusal is logged.
pub file_permission_lem :
    (ms : List Module) (a : Audit) (p : Process) (mask : ℕ)
    → (lsm_hook_invoke ms hook_file_permission mask ≡ deny
        → (file_permission ms a p mask).0 ≡ err eacces)
      × (lsm_hook_invoke ms hook_file_permission mask ≢ deny
          → (file_permission ms a p mask).0 ≡ ok 0)
unfolding file_permission invoked
file_permission_lem ms a p mask = (λ h. rw h refl, λ h. rw (denies-false _ h) refl)
