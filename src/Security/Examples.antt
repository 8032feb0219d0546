-- ===== src/Security/Examples.antt =====
-- kernel/security.c at concrete inputs.
use shadow_box_os.Common.Errno.{ok, err, einval, enomem, eperm}
use shadow_box_os.Common.Int.{pos, negsuc}
use shadow_box_os.Common.{
  ℕ, ◌+◌, ◌-◌, ◌%◌, ◌≤◌, ◌<◌, ◌≡◌, ◌≢◌, true, false, ◌⊎◌, Option, none, some, List, [], ◌∷◌, ◌++◌,
  arith, replicate, take, drop, if◌then◌else◌, ◌==◌, length-replicate,
}
use shadow_box_os.Security.{Caps, cap_raise, cap_lower, cap_isclear}
use shadow_box_os.Security.Sets.{IsCaps, cap_raise-cap_lower}
use shadow_box_os.Security.Log.{
  AuditEntry, lsm_denied, no_cap_kill, audit_size, audit_log, audit_get_entries,
  audit_get_entries_lem, logged, empty_log,
}
use shadow_box_os.Security.Sandboxes.{
  Table, Sandbox, HasSlots, max_sandboxes, bound_or_full, sandbox_create, sandbox_get,
  sandbox_create_lem,
}
use shadow_box_os.Security.Modules.{Module, deny, answer, Refuses, AllLet}
use shadow_box_os.Security.Checks.{Process, verdict_code, check_kill, check_kill_lem}

abbrev some_caps : Caps
some_caps = record { low = 32; high = 1 }

-- Capability 40 is raised and 5 is lowered.
cap_raise-cap_lower_example :
    ((n : ℕ)
      → (cap_raise some_caps (negsuc n) ≡ none)
        × (cap_lower some_caps (negsuc n) ≡ none)
        × (cap_isclear some_caps (negsuc n) ≡ true))
    × ((c : ℕ)
        → 40 < c
        → (cap_raise some_caps (pos c) ≡ none)
          × (cap_lower some_caps (pos c) ≡ none)
          × (cap_isclear some_caps (pos c) ≡ true))
    × ((c : ℕ)
        → c ≤ 40
        → ((s' : Caps) × (cap_raise some_caps (pos c) ≡ some s')
            × IsCaps s'
            × ((q : ℕ)
                → q ≤ 40
                → cap_isclear s' (pos q)
                  ≡ (if q == c then false else cap_isclear some_caps (pos q))))
          × ((s' : Caps) × (cap_lower some_caps (pos c) ≡ some s')
              × IsCaps s'
              × ((q : ℕ)
                  → q ≤ 40
                  → cap_isclear s' (pos q)
                    ≡ (if q == c then true else cap_isclear some_caps (pos q)))))
cap_raise-cap_lower_example =
    cap_raise-cap_lower some_caps (record { low_in = omega arith; high_in = omega arith })

abbrev entry_of : ℕ → AuditEntry
entry_of n = record { pid = pos n; event_type = 2; result = 2; detail = lsm_denied }

audit_get_entries_lem_example :
    audit_get_entries (logged empty_log (entry_of 1 ∷ entry_of 2 ∷ [])) 1
    ≡ some (take 1 (drop (2 - audit_size) (entry_of 1 ∷ entry_of 2 ∷ [])))
audit_get_entries_lem_example = audit_get_entries_lem (entry_of 1 ∷ entry_of 2 ∷ []) 1 (omega arith)

abbrev no_sandboxes : Table
no_sandboxes = record { slots = replicate 64 none; sandbox_count = 0; next_id = 1 }

abbrev shell : Option (List ℕ)
shell = some (b's' ∷ b'h' ∷ [])

sandbox_create_lem_example :
    ((sandbox_create no_sandboxes shell 0 none true ≡ (err enomem, no_sandboxes))
      × ((max_sandboxes ≤ no_sandboxes.sandbox_count) ⊎ (true ≡ false)))
    ⊎ ((no_sandboxes.sandbox_count < max_sandboxes)
        × (true ≡ true)
        × (t' : Table) × (sandbox_create no_sandboxes shell 0 none true ≡ (ok 1, t'))
        × HasSlots t'
        × (t'.sandbox_count ≡ no_sandboxes.sandbox_count + 1)
        × (t'.next_id ≡ no_sandboxes.next_id + 1)
        × ((q : ℕ)
            → sandbox_get t' q ≡ (
                if q == 1
                then some (record {
                  id = 1;
                  name = b's' ∷ b'h' ∷ [];
                  flags = 0;
                  cap_bound = bound_or_full none;
                  restricted_syscalls = 0 ∷ 0 ∷ 0 ∷ 0 ∷ [];
                  refcount = 0;
                })
                else if q % max_sandboxes == 1 % max_sandboxes
                then none
                else sandbox_get no_sandboxes q)))
sandbox_create_lem_example =
    sandbox_create_lem no_sandboxes shell 0 none true
      (length-replicate {A = Option Sandbox} 64 none) (omega arith)

abbrev user : ℕ → Process
user n = record { pid = n; euid = n }

-- A module that refuses to let anyone use a capability.
abbrev strict : Module
strict = record { address = 1; enabled = true; hooks = λ hook. some (λ args. deny) }

abbrev denial : AuditEntry
denial = record { pid = pos 5; event_type = 2; result = 2; detail = no_cap_kill }

check_kill_lem_example :
    ((o : Option Process) → check_kill (strict ∷ []) empty_log none o ≡ (err einval, empty_log))
    × ((o : Option Process) → check_kill (strict ∷ []) empty_log o none ≡ (err einval, empty_log))
    × ((((user 5).euid ≡ 0) ⊎ ((user 5).euid ≡ (user 6).euid))
          × (check_kill (strict ∷ []) empty_log (some (user 5)) (some (user 6)) ≡ (ok 0, empty_log))
        ⊎ (((user 5).euid ≢ 0)
            × ((user 5).euid ≢ (user 6).euid)
            × ((AllLet (strict ∷ []) 8 5
                  × (check_kill (strict ∷ []) empty_log (some (user 5)) (some (user 6))
                      ≡ (err eperm, audit_log empty_log denial)))
                ⊎ ((before : List Module) × (m : Module) × (after : List Module) × (strict ∷ []
                      ≡ before ++ m ∷ after)
                    × AllLet before 8 5
                    × Refuses m 8 5
                    × (check_kill (strict ∷ []) empty_log (some (user 5)) (some (user 6)) ≡ (
                      err eperm,
                      audit_log
                          (audit_log empty_log (record {
                            pid = pos 5;
                            event_type = 8;
                            result = verdict_code (answer m 8 5);
                            detail = lsm_denied;
                          }))
                          denial,
                    ))))))
check_kill_lem_example = check_kill_lem (strict ∷ []) empty_log (user 5) (user 6)
