-- ===== src/Pty/Examples.antt =====
-- The theorems on pseudo-terminals at concrete tables.
use native.Mathlib.Nat.{le_refl}
use shadow_box_os.Common.{ℕ, ◌≡◌, refl, none, some, [], ◌∷◌, arith, replicate, All-replicate}
use shadow_box_os.Common.Int.{pos, negsuc}
use shadow_box_os.Ring.{Ring}
use shadow_box_os.Ring.Loops.{contents-empty}
use shadow_box_os.Pty.{Pty, Device, subsystem_init, create, find, write}
use shadow_box_os.Pty.Devices.{
  AreValid, IsSound, HasMemory, HasCells, boots, calls, creates, writes, destroys, step,
  Reach-IsSound,
}
use shadow_box_os.Pty.Streams.{to_master}
use shadow_box_os.Pty.Slots.{create_exhausted, run}

abbrev still : Ring ℕ
still = record { cells = replicate 4096 0; head = 5; tail = 5 }

abbrev idle : Device
idle = record { name = []; m2s = still; s2m = still }

-- Two of the eight devices are in use.
abbrev table : Pty
table = record { devices = replicate 8 idle; count = 2 }

idle-AreValid : AreValid idle
idle-AreValid = record {
  m2s_valid = record { backed = le_refl 4096; head_in = omega arith; tail_in = omega arith };
  s2m_valid = record { backed = le_refl 4096; head_in = omega arith; tail_in = omega arith };
}

table-IsSound : IsSound table
table-IsSound = record {
  eight = refl;
  counted = omega arith;
  rings = All-replicate AreValid 8 idle idle-AreValid;
}

-- A negative index and one past the count are refused.
out_of_range :
    ((write table (negsuc 0) (1 ∷ [])).0 ≡ none) × ((write table (pos 2) (1 ∷ [])).0 ≡ none)
unfolding write find
out_of_range = (refl, refl)

blank_memory : HasMemory table
blank_memory = record {
  eight = refl;
  cells = All-replicate HasCells 8 idle (le_refl 4096, le_refl 4096);
}

Reach-IsSound_example :
    IsSound (step (step (subsystem_init table) creates) (writes (pos 0) (104 ∷ 105 ∷ [])))
Reach-IsSound_example =
    Reach-IsSound (step (step (subsystem_init table) creates) (writes (pos 0) (104 ∷ 105 ∷ []))) (
      calls (step (subsystem_init table) creates) (writes (pos 0) (104 ∷ 105 ∷ []))
        (calls (subsystem_init table) creates (boots table blank_memory)))

still-empty : to_master idle ≡ []
still-empty = contents-empty 0 still idle-AreValid.m2s_valid refl

found_idle : find table (pos 1) ≡ some (1, idle)
unfolding find
found_idle = refl

create_exhausted_example :
    create (run (record table { count = 8 }) (destroys (pos 0) ∷ []))
    ≡ (none, run (record table { count = 8 }) (destroys (pos 0) ∷ []))
create_exhausted_example =
    create_exhausted (record table { count = 8 }) (destroys (pos 0) ∷ []) refl
