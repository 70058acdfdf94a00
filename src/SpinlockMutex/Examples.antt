-- ===== src/SpinlockMutex/Examples.antt =====
-- Two threads and a lock, and the theorems at them.
use eestv_lib.Common.{◌≡◌, refl, some, count, get_elem?}
use eestv_lib.SpinlockMutex.{
  make_spinlock_mutex, make_system, test_and_set, holding, System, call_lock, lock_round, locks,
  spins, Reach, here, next,
}
use eestv_lib.SpinlockMutex.Exclusion.{holders, Reach-FlagInv}
use eestv_lib.SpinlockMutex.Progress.{spinning-acquires}

-- The first thread holds the lock, and the second has tried to.
abbrev contended : System
contended = lock_round 1 (call_lock 1 (lock_round 0 (call_lock 0 (make_system 2))))

contended_reached : Reach (make_system 2) contended
unfolding make_system make_spinlock_mutex call_lock lock_round test_and_set
contended_reached =
    next (next (next (next here (locks 0 refl)) (spins 0 refl)) (locks 1 refl)) (spins 1 refl)

Reach-FlagInv_example : holders contended.threads ≡ count contended.mutex.flag
Reach-FlagInv_example = Reach-FlagInv 2 contended_reached

spinning-acquires_example :
    (t : System) × Reach contended t × (get_elem? t.threads 1 ≡ some holding)
unfolding make_system make_spinlock_mutex call_lock lock_round test_and_set
spinning-acquires_example = spinning-acquires 2 1 contended_reached refl
