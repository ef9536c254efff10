-- ===== src/Tar/Invariant.antt =====
-- What holds of the calls of Wait in every state: the invariant and its lists.
use hackpadfs.Base.{
  ℕ, Text, text_eq, text_eq_iff, Bool, true, false, ◌&&◌, ◌||◌, Option, none, some, List, [], ◌∷◌,
  ◌++◌, ◌≡◌, refl, arith, ◌==◌,
}
use hackpadfs.Tar.PubSub.{
  Phase, outside, checked, subscribed, returned, PubSub, is_in, is_listed, subscribers_of, without,
  new_pubsub,
}

-- The call i has subscribed to the key, and Emit has not taken its cancel function.
unfoldable pub subscribed_to : ℕ → Text → List (Text × ℕ) → Bool
subscribed_to i key [] = false
subscribed_to i key ((k, j) ∷ subs) = (text_eq k key && j == i) || subscribed_to i key subs

-- The key that a call waits for, or has waited for.
abbrev key_of : Phase → Option Text
key_of (subscribed key) = some key
key_of (returned key) = some key
key_of (checked key) = none
key_of outside = none

pub record Inv (p : PubSub) : Type 0 where
  -- A call that waits is subscribed, about to be canceled, or canceled.
  pub kept :
      (i : ℕ) (key : Text)
      → p.phase i ≡ subscribed key
      → (subscribed_to i key p.subscribers || is_listed i p.canceling || p.canceled i) ≡ true
  -- Where the key has been emitted it is no longer subscribed.
  pub fresh :
      (i : ℕ) (key : Text) → is_in key p.visited ≡ true → subscribed_to i key p.subscribers ≡ false
  -- Who is subscribed waits for that key, and so does who is canceled, for one that was emitted.
  pub own :
      (i : ℕ) (key : Text)
      → subscribed_to i key p.subscribers ≡ true
      → key_of (p.phase i) ≡ some key
  pub emitted :
      (i : ℕ)
      → (is_listed i p.canceling || p.canceled i) ≡ true
      → (key : Text) × (key_of (p.phase i) ≡ some key) × (is_in key p.visited ≡ true)
  pub early :
      (i : ℕ) (key : Text) → p.phase i ≡ returned key → (p.ended || is_in key p.visited) ≡ true

pub is_listed-append :
    (i : ℕ) (xs ys : List ℕ) → is_listed i (xs ++ ys) ≡ (is_listed i xs || is_listed i ys)
unfolding is_listed
is_listed-append i [] ys = refl
is_listed-append i (x ∷ xs) ys = ground (arith, is_listed-append i xs ys)

pub subscribers_of-listed :
    (i : ℕ) (key : Text) (subs : List (Text × ℕ))
    → is_listed i (subscribers_of key subs) ≡ subscribed_to i key subs
unfolding is_listed subscribers_of subscribed_to
subscribers_of-listed i key [] = refl
subscribers_of-listed i key ((k, j) ∷ subs) = ground (arith, subscribers_of-listed i key subs)

pub without-same :
    (i : ℕ) (key : Text) (subs : List (Text × ℕ)) → subscribed_to i key (without key subs) ≡ false
unfolding without subscribed_to
without-same i key [] = refl
without-same i key ((k, j) ∷ subs) = ground (arith, without-same i key subs)

pub without-other :
    (i : ℕ) (key q : Text) (subs : List (Text × ℕ))
    → text_eq key q ≡ false
    → subscribed_to i q (without key subs) ≡ subscribed_to i q subs
unfolding without subscribed_to
without-other i key q [] h = refl
without-other i key q ((k, j) ∷ subs) h =
    ground
      (arith, without-other i key q subs h, text_eq_iff k key, text_eq_iff k q, text_eq_iff key q)

pub Inv-new : Inv new_pubsub
unfolding is_in is_listed subscribed_to
Inv-new = record {
  kept = λ i key e. absurd (cc);
  fresh = λ i key e. absurd (cc);
  own = λ i key e. absurd (cc);
  emitted = λ i e. absurd (cc);
  early = λ i key e. absurd (cc);
}
