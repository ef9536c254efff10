-- ===== src/PathLock/Safety.antt =====
-- What Lock and Unlock of pathlock.Mutex promise in every state that goroutines can reach.
use hackpadfs.Base.{ℕ, Text, true, false, some, ◌≡◌, ◌⊎◌, refl, arith, Bool-cases, inl, inr}
use hackpadfs.PathLock.{Locks, find, update, lock_take, unlock, waiting, holding, System, Reach}
use hackpadfs.PathLock.Invariant.{Inv, Reach-Inv}

module _ {s : System} (r : Reach s) where
  inv : Inv s.locks s.phase
  inv = Reach-Inv r

  -- In every state that is reached, no two goroutines hold the same path.
  pub mutual_exclusion :
      (i j : ℕ) (p : Text) → s.phase i ≡ holding p → s.phase j ≡ holding p → i ≡ j
  mutual_exclusion i j p = inv.unique i j p

  -- In every state that is reached, Unlock of a path that a goroutine holds does not fail, and frees
  -- the path's mutex and no other.
  pub unlock-holding :
      (i : ℕ) (p : Text)
      → s.phase i ≡ holding p
      → (l : Locks) × (mu : ℕ) × (unlock p s.locks ≡ some l)
        × (find p l.path_locks ≡ some mu)
        × ((m : ℕ) → l.locked m ≡ update s.locks.locked mu false m)
  unfolding unlock
  unlock-holding i p held =
      let (mu, there, locked) = inv.holds i p held in
      (
        record s.locks { locked = update s.locks.locked mu false },
        mu,
        rw (there, locked),
        there,
        λ m. refl,
      )

  -- In every state that is reached, a goroutine that waits in Lock of a path gets its mutex at once,
  -- or another goroutine holds that path: nobody waits for the holder of another path.
  pub lock_waits :
      (i mu : ℕ) (p : Text)
      → s.phase i ≡ waiting p mu
      → ((l : Locks) × (lock_take mu s.locks ≡ some l)) ⊎ ((j : ℕ) × (s.phase j ≡ holding p))
  unfolding lock_take
  lock_waits i mu p wait = elim (Bool-cases (s.locks.locked mu)) [
    | inr free ↦ inl (record s.locks { locked = update s.locks.locked mu true }, rw free)
    | inl locked ↦
        let (j, q, held, at) = inv.owner mu locked in
        inr (j, ground (arith, inv.apart p q mu, inv.waits i p mu))
  ]
