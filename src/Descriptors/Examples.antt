-- ===== src/Descriptors/Examples.antt =====
-- kernel/task.c: a table with one file in two slots.
use shadow_box_os.Common.Int.{pos}
use shadow_box_os.Common.{◌+◌, ◌≡◌, refl, none, some, [], ◌∷◌, ◌==◌, if◌then◌else◌, arith}
use shadow_box_os.Descriptors.{Files, get, close, install, free_slot}
use shadow_box_os.Descriptors.Counts.{IsCounted, held, installs, closes, run, run_counts}

abbrev table : Files
table = record { fds = some 7 ∷ none ∷ none ∷ []; refcount = λ f. if 7 == f then 1 else 0 }

table-IsCounted : IsCounted (λ f. 0) table
table-IsCounted = record { exact = λ f. omega arith; fits = λ f. omega arith }

-- File 7 is installed again and its first slot is closed: then the second slot still holds it.
second_slot : get (run (installs 7 ∷ closes (pos 0) ∷ []) table) (pos 1) ≡ some 7
unfolding run install free_slot close get
second_slot = refl

run_counts_example :
    let (given_up, s') = close (run (installs 7 ∷ closes (pos 0) ∷ []) table) (pos 1) in
    IsCounted (λ f. 0) s' × (given_up ≡ (if 0 + held 7 s'.fds == 0 then some 7 else none))
run_counts_example =
    run_counts (λ f. 0) (installs 7 ∷ closes (pos 0) ∷ []) table 1 7 table-IsCounted second_slot
