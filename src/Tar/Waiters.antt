-- ===== src/Tar/Waiters.antt =====
-- No call of Wait is forgotten, and none returns early.
use hackpadfs.Base.{ℕ, Text, true, ◌||◌, ◌≡◌, ◌⊎◌, arith, Bool-cases, inl, inr}
use hackpadfs.Tar.PubSub.{
  subscribed, returned, PubSub, is_in, is_listed, can_return, Reach, here, next,
}
use hackpadfs.Tar.Invariant.{Inv, Inv-new}
use hackpadfs.Tar.Moves.{Step-Inv}

Reach-Inv : {p : PubSub} → Reach p → Inv p
Reach-Inv here = Inv-new
Reach-Inv (next r st) = Step-Inv (Reach-Inv r) st

module _ {p : PubSub} (r : Reach p) where
  -- In every state that is reached, a call of Wait that waits for a key that Emit has marked can
  -- return at once, or a call of Emit has still to cancel it: no call is forgotten.
  pub wait_wakes :
      (i : ℕ) (key : Text)
      → p.phase i ≡ subscribed key
      → is_in key p.visited ≡ true
      → (can_return i p ≡ true) ⊎ (is_listed i p.canceling ≡ true)
  unfolding can_return
  wait_wakes i key waiting seen =
      let v = Reach-Inv r in
      elim (Bool-cases (p.canceled i)) [
        | inl done ↦ inl (ground arith)
        | inr still ↦ inr (ground (arith, v.kept i key waiting, v.fresh i key seen))
      ]

  -- In every state that is reached, a call of Wait has returned only where its key has been marked
  -- by Emit or the context has ended.
  pub wait_returned :
      (i : ℕ) (key : Text) → p.phase i ≡ returned key → (p.ended || is_in key p.visited) ≡ true
  wait_returned i key done = (Reach-Inv r).early i key done
