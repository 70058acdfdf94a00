-- ===== src/Flags/Refine.antt =====
-- A word of flags against a set of flags.
use eestv_lib.Common.{ℕ, ◌<◌, ◌≡◌, Bool, false, not, ◌&&◌, ◌||◌, List, [], ◌∷◌, arith, ◌==◌}
use eestv_lib.Flags.{set_flag, clear_flag, get_flag, clear_all}
use eestv_lib.Flags.Laws.{get_flag-set_flag, get_flag-clear_flag, get_flag-clear_all}

-- The operations that change a `Flags`.
pub data Op : Type 0 where
  set clear : ℕ → Op
  clear_every : Op

unfoldable pub apply : Op → ℕ → ℕ
apply (set flag) flags = set_flag flags flag
apply (clear flag) flags = clear_flag flags flag
apply clear_every flags = clear_all

unfoldable pub apply_all : List Op → ℕ → ℕ
apply_all [] flags = flags
apply_all (op ∷ ops) flags = apply_all ops (apply op flags)

-- The same on a set, as its test of membership.
abbrev pub apply_set : Op → (ℕ → Bool) → ℕ → Bool
apply_set (set i) members j = i == j || members j
apply_set (clear i) members j = not (i == j) && members j
apply_set clear_every members j = false

abbrev pub apply_set_all : List Op → (ℕ → Bool) → ℕ → Bool
apply_set_all [] members = members
apply_set_all (op ∷ ops) members = apply_set_all ops (apply_set op members)

-- The flags of an operation are below 32.
abbrev pub IsInWord : Op → Type 0
IsInWord (set i) = i < 32
IsInWord (clear i) = i < 32
IsInWord clear_every = Unit {0}

abbrev pub AllInWord : List Op → Type 0
AllInWord [] = Unit {0}
AllInWord (op ∷ ops) = IsInWord op × AllInWord ops

apply-apply_set :
    (op : Op) (flags : ℕ) (members : ℕ → Bool)
    → IsInWord op
    → ((j : ℕ) → j < 32 → get_flag flags j ≡ members j)
    → (j : ℕ) → j < 32
    → get_flag (apply op flags) j ≡ apply_set op members j
unfolding apply
apply-apply_set (set i) flags members hi same j hj =
    ground (arith, get_flag-set_flag flags i j hi hj, same j hj)
apply-apply_set (clear i) flags members hi same j hj =
    ground (arith, get_flag-clear_flag flags i j hi hj, same j hj)
apply-apply_set clear_every flags members hi same j hj = get_flag-clear_all j hj

apply_all-apply_set_all :
    (ops : List Op) (flags : ℕ) (members : ℕ → Bool)
    → AllInWord ops
    → ((j : ℕ) → j < 32 → get_flag flags j ≡ members j)
    → (j : ℕ) → j < 32
    → get_flag (apply_all ops flags) j ≡ apply_set_all ops members j
unfolding apply_all
apply_all-apply_set_all [] flags members h same j hj = same j hj
apply_all-apply_set_all (op ∷ ops) flags members h same j hj =
    apply_all-apply_set_all ops (apply op flags) (apply_set op members) h.1
      (apply-apply_set op flags members h.0 same) j hj

-- After any operations on flags below 32, from a new `Flags` on, a flag below 32 reads as its
-- membership in the set to which the same operations lead from the empty set.
pub get_flag-apply_all :
    (ops : List Op) (flag : ℕ)
    → AllInWord ops
    → flag < 32
    → get_flag (apply_all ops clear_all) flag ≡ apply_set_all ops (λ j. false) flag
get_flag-apply_all ops flag h hf =
    apply_all-apply_set_all ops clear_all (λ j. false) h get_flag-clear_all flag hf
