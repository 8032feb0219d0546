-- ===== src/Input/Examples.antt =====
-- Runs of the event ring, and its theorem at a concrete sequence of calls.
use shadow_box_os.Common.{◌≡◌, refl, none, some, List, [], ◌∷◌}
use shadow_box_os.Fifo
use shadow_box_os.Input.{boot}
use shadow_box_os.Input.Queue.{Call, sends, polls, run, run_queue, run_refines}

-- A key press and a mouse move, read back in that order; then nothing is left.
abbrev script : List Call
script = sends 0 30 97 0 ∷ sends 2 0 5 65531 ∷ polls ∷ polls ∷ polls ∷ []

queue_of_script : run_queue [] script ≡ some (0, 30, 97, 0) ∷ some (2, 0, 5, 65531) ∷ none ∷ []
unfolding run_queue Fifo.push Fifo.pop
queue_of_script = refl

run_refines_example : run boot script ≡ run_queue [] script
run_refines_example = run_refines script
