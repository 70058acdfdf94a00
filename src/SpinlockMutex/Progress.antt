-- ===== src/SpinlockMutex/Progress.antt =====
-- A thread that waits for the lock can get it.
use eestv_lib.Common.{
  ℕ, zero, suc, ◌<◌, ◌≡◌, refl, false, some, List, [], ◌∷◌, arith, if◌then◌else◌, get_elem?, store,
  ◌==◌, Bool-cases, inl, inr,
}
use eestv_lib.SpinlockMutex.{
  test_and_set, unlock, Place, outside, spinning, holding, System, make_system, lock_round,
  call_unlock, spins, unlocks, Reach, here, next,
}
use eestv_lib.SpinlockMutex.Exclusion.{holders, Reach-FlagInv, store_nothing}

get_elem?-store :
    (ps : List Place) (i j : ℕ) (p q : Place)
    → get_elem? ps i ≡ some p
    → get_elem? (store ps i (q ∷ [])) j ≡ (if i == j then some q else get_elem? ps j)
get_elem?-store [] i j p q h = ground (arith, h)
get_elem?-store (r ∷ ps) zero zero p q h = refl
get_elem?-store (r ∷ ps) zero (suc j) p q h = ground (arith, store_nothing ps)
get_elem?-store (r ∷ ps) (suc i) zero p q h = ground arith
get_elem?-store (r ∷ ps) (suc i) (suc j) p q h = ground (arith, get_elem?-store ps i j p q h)

-- Where there is a holder, it is found.
find_holder : (ps : List Place) → 0 < holders ps → (i : ℕ) × (get_elem? ps i ≡ some holding)
find_holder [] h = ground arith
find_holder (holding ∷ ps) h = (0, refl)
find_holder (outside ∷ ps) h = let (i, e) = find_holder ps (omega arith) in (suc i, e)
find_holder (spinning ∷ ps) h = let (i, e) = find_holder ps (omega arith) in (suc i, e)

acquire_free :
    (s : System) (i : ℕ)
    → get_elem? s.threads i ≡ some spinning
    → s.mutex.flag ≡ false
    → get_elem? (lock_round i s).threads i ≡ some holding
unfolding lock_round test_and_set
acquire_free s i h f = ground (arith, f, get_elem?-store s.threads i i spinning holding h)

-- Whatever steps `n` threads took, a thread in the loop of `lock` can come to hold the lock: by a round
-- of its loop, after the thread that holds the lock, if one does, has unlocked it.
pub spinning-acquires :
    (n i : ℕ) {s : System}
    → Reach (make_system n) s
    → get_elem? s.threads i ≡ some spinning
    → (t : System) × Reach s t × (get_elem? t.threads i ≡ some holding)
unfolding call_unlock unlock
spinning-acquires n i {s = s} r h = elim (Bool-cases s.mutex.flag) [
  | inr free ↦ (lock_round i s, next here (spins i h), acquire_free s i h free)
  | inl taken ↦
      let counted = Reach-FlagInv n r in
      let (j, e) = find_holder s.threads (ground (arith, counted, taken)) in
      let t = call_unlock j s in
      let waits : get_elem? t.threads i ≡ some spinning =
        ground (arith, h, e, get_elem?-store s.threads j i holding outside e) in
      (lock_round i t, next (next here (unlocks j e)) (spins i waits), acquire_free t i waits refl)
]
