-- ===== src/PathLock/Tests.antt =====
-- Two goroutines that lock the same path, and the theorems in the state where the first holds it
-- and the second waits.
use hackpadfs.Base.{ℕ, Text, codes, true, false, some, [], ◌∷◌, ◌≡◌, ◌⊎◌, refl, text_eq}
use hackpadfs.PathLock.{
  Locks, find, update, lock_load, lock_take, unlock, outside, waiting, holding, System, load, take,
  Reach, here, next,
}
use hackpadfs.PathLock.Safety.{mutual_exclusion, unlock-holding, lock_waits}

abbrev path : Text
path = codes "a"

abbrev contended : System
contended = record {
  locks = record { path_locks = (path, 0) ∷ []; made = 1; locked = update (λ m. false) 0 true };
  phase =
      update (update (update (λ i. outside) 0 (waiting path 0)) 0 (holding path)) 1
        (waiting path 0);
}

contended-Reach : Reach contended
unfolding lock_load lock_take find text_eq
contended-Reach =
    next (next (next here (load 0 path refl)) (take 0 path 0 _ refl refl)) (load 1 path refl)

mutual_exclusion_example : ◌≡◌ {A = ℕ} 0 0
mutual_exclusion_example = mutual_exclusion contended-Reach 0 0 path refl refl

unlock-holding_example :
    (l : Locks) × (mu : ℕ) × (unlock path contended.locks ≡ some l)
    × (find path l.path_locks ≡ some mu)
    × ((m : ℕ) → l.locked m ≡ update contended.locks.locked mu false m)
unlock-holding_example = unlock-holding contended-Reach 0 path refl

lock_waits_example :
    ((l : Locks) × (lock_take 0 contended.locks ≡ some l))
    ⊎ ((j : ℕ) × (contended.phase j ≡ holding path))
lock_waits_example = lock_waits contended-Reach 1 0 path refl
