-- ===== src/LinearBuffer/Examples.antt =====
-- Runs of the buffer's operations and the theorems at concrete buffers.
use eestv_lib.Common.{◌≡◌, refl, true, false, List, [], ◌∷◌, arith}
use eestv_lib.LinearBuffer.{make, get_read_head, consume, get_write_head, commit, write_at}
use eestv_lib.LinearBuffer.Refine.{Op, put, get, buffer_step, buffer_run, queue_run, run_refines}

abbrev script : List Op
script = put (1 ∷ 2 ∷ 3 ∷ []) ∷ get 2 ∷ put (4 ∷ 5 ∷ []) ∷ get 1 ∷ put (4 ∷ 5 ∷ []) ∷ get 9 ∷ []

-- The freed space in front is not writable until the buffer has run empty.
script_replies :
    buffer_run (make 4) script
    ≡ ([], true) ∷ (1 ∷ 2 ∷ [], true) ∷ ([], false) ∷ (3 ∷ [], true) ∷ ([], true) ∷ ([], false) ∷ []
unfolding buffer_run buffer_step make consume commit write_at get_read_head get_write_head
script_replies = refl

run_refines_example :
    buffer_run (make 4) script ≡ queue_run (record { bytes = []; room = 4; capacity = 4 }) script
run_refines_example = run_refines 4 script (omega arith)
