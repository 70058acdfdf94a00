-- ===== src/Flags/Examples.antt =====
-- Flags that are set and cleared.
use eestv_lib.Common.{◌≡◌, refl, true, [], ◌∷◌, arith}
use eestv_lib.Flags.{set_flag, clear_flag, get_flag, clear_all}
use eestv_lib.Flags.Refine.{set, clear, clear_every, apply_all, get_flag-apply_all}

set_then_clear : clear_flag (set_flag 5 3) 0 ≡ 12
unfolding set_flag clear_flag
set_then_clear = refl

get_flag-apply_all_example :
    get_flag (apply_all (set 2 ∷ clear_every ∷ set 3 ∷ set 5 ∷ clear 5 ∷ []) clear_all) 3 ≡ true
get_flag-apply_all_example =
    get_flag-apply_all (set 2 ∷ clear_every ∷ set 3 ∷ set 5 ∷ clear 5 ∷ []) 3
      (omega arith, (tt, (omega arith, (omega arith, (omega arith, tt))))) (omega arith)
