-- ===== src/SpinlockMutex.antt =====
-- eestv/threading/spinlock_mutex.hpp: a lock that is a flag, and the threads that use it.
--
-- `test_and_set` and `clear` are atomic, so each is one step, and each round of the loop of `lock` is
-- one. The scheduler chooses which thread goes next. A thread that holds the lock is one whose call of
-- `lock` returned; only such a thread calls `unlock`.
pub mod Exclusion
pub mod Progress
mod Examples
use eestv_lib.Common.{
  ℕ, ◌≡◌, Bool, true, false, Option, some, List, [], ◌∷◌, if◌then◌else◌, get_elem?, store,
  replicate,
}

pub record SpinlockMutex : Type 0 where
  pub flag : Bool

unfoldable pub make_spinlock_mutex : SpinlockMutex
make_spinlock_mutex = record { flag = false }

-- `_flag.test_and_set`, which gives the old value.
unfoldable pub test_and_set : SpinlockMutex → SpinlockMutex × Bool
test_and_set m = (record m { flag = true }, m.flag)

unfoldable pub unlock : SpinlockMutex → SpinlockMutex
unlock m = record m { flag = false }

-- Where a thread is: outside, in the loop of `lock`, or between `lock` and `unlock`.
pub data Place : Type 0 where
  outside spinning holding : Place

pub record System : Type 0 where
  pub mutex : SpinlockMutex
  pub threads : List Place

unfoldable pub make_system : ℕ → System
make_system n = record { mutex = make_spinlock_mutex; threads = replicate n outside }

-- A thread calls `lock`.
unfoldable pub call_lock : ℕ → System → System
call_lock i s = record s { threads = store s.threads i (spinning ∷ []) }

-- A round of the loop, which ends it if the flag was clear.
unfoldable pub lock_round : ℕ → System → System
lock_round i s =
    let (mutex, was_set) = test_and_set s.mutex in
    record s {
      mutex = mutex;
      threads = store s.threads i ((if was_set then spinning else holding) ∷ []);
    }

unfoldable pub call_unlock : ℕ → System → System
call_unlock i s = record s { mutex = unlock s.mutex; threads = store s.threads i (outside ∷ []) }

pub data Step (s : System) : System → Type 0 where
  locks : (i : ℕ) → get_elem? s.threads i ≡ some outside → Step s (call_lock i s)
  spins : (i : ℕ) → get_elem? s.threads i ≡ some spinning → Step s (lock_round i s)
  unlocks : (i : ℕ) → get_elem? s.threads i ≡ some holding → Step s (call_unlock i s)

pub data Reach (s : System) : System → Type 0 where
  here : Reach s s
  next : {t u : System} → Reach s t → Step t u → Reach s u
