-- ===== src/SpinlockMutex/Exclusion.antt =====
-- At most one thread holds the lock.
use eestv_lib.Common.{
  ℕ, zero, suc, ◌+◌, ◌≡◌, refl, some, List, [], ◌∷◌, arith, count, get_elem?, store, replicate,
}
use eestv_lib.SpinlockMutex.{
  make_spinlock_mutex, test_and_set, unlock, Place, outside, spinning, holding, System, make_system,
  call_lock, lock_round, call_unlock, Step, locks, spins, unlocks, Reach, here, next,
}

abbrev pub holds : Place → ℕ
holds outside = 0
holds spinning = 0
holds holding = 1

abbrev pub holders : List Place → ℕ
holders [] = 0
holders (p ∷ ps) = holds p + holders ps

pub store_nothing : (ps : List Place) → store ps 0 [] ≡ ps
store_nothing [] = refl
store_nothing (p ∷ ps) = refl

holders-store :
    (ps : List Place) (i : ℕ) (p q : Place)
    → get_elem? ps i ≡ some p
    → holders (store ps i (q ∷ [])) + holds p ≡ holders ps + holds q
holders-store [] i p q h = ground (arith, h)
holders-store (r ∷ ps) zero p q h = ground (arith, h, store_nothing ps)
holders-store (r ∷ ps) (suc i) p q h = omega (arith, holders-store ps i p q h)

holders-replicate : (n : ℕ) → holders (replicate n outside) ≡ 0
holders-replicate zero = refl
holders-replicate (suc n) = omega (arith, holders-replicate n)

-- The holders are counted by the flag.
abbrev pub FlagInv : System → Type 0
FlagInv s = holders s.threads ≡ count s.mutex.flag

Step-FlagInv : {s t : System} → Step s t → FlagInv s → FlagInv t
unfolding call_lock lock_round call_unlock test_and_set unlock
Step-FlagInv {s = s} (locks i h) v = ground (arith, v, holders-store s.threads i outside spinning h)
Step-FlagInv {s = s} (spins i h) v = ground (
  arith,
  v,
  holders-store s.threads i spinning spinning h,
  holders-store s.threads i spinning holding h,
)
Step-FlagInv {s = s} (unlocks i h) v =
    ground (arith, v, holders-store s.threads i holding outside h)

-- Whatever steps `n` threads took: if the flag is set then exactly one of them holds the lock, and if it
-- is clear then none does.
pub Reach-FlagInv :
    (n : ℕ) {s : System} → Reach (make_system n) s → holders s.threads ≡ count s.mutex.flag
unfolding make_system make_spinlock_mutex
Reach-FlagInv n here = holders-replicate n
Reach-FlagInv n (next r st) = Step-FlagInv st (Reach-FlagInv n r)
