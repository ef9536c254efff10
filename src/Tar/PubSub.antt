-- ===== src/Tar/PubSub.antt =====
-- tar/pubsub.go: calls of Emit and Wait in any order, and the end of the context.
use hackpadfs.Base.{
  ℕ, Text, text_eq, Bool, true, false, ◌||◌, List, [], ◌∷◌, ◌++◌, ◌≡◌, ◌==◌, if◌then◌else◌,
}

-- Where a call of Wait is: not begun, past its first select, subscribed, or returned.
pub data Phase : Type 0 where
  outside : Phase
  checked : Text → Phase
  subscribed : Text → Phase
  returned : Text → Phase

-- pubsub, its context, and the calls of Wait by number; a cancel function is the number of its
-- call. `canceling` is what the calls of Emit that have left the mutex have still to cancel.
pub record PubSub : Type 0 where
  pub visited : List Text
  pub subscribers : List (Text × ℕ)
  pub ended : Bool
  pub canceling : List ℕ
  pub canceled : ℕ → Bool
  pub phase : ℕ → Phase

unfoldable pub is_in : Text → List Text → Bool
unfolding text_eq
is_in key [] = false
is_in key (k ∷ ks) = text_eq k key || is_in key ks

unfoldable pub is_listed : ℕ → List ℕ → Bool
is_listed i [] = false
is_listed i (j ∷ js) = j == i || is_listed i js

-- subscribers[key], and the map without it.
unfoldable pub subscribers_of : Text → List (Text × ℕ) → List ℕ
unfolding text_eq
subscribers_of key [] = []
subscribers_of key ((k, i) ∷ subs) =
    let rest = subscribers_of key subs in if text_eq k key then i ∷ rest else rest

unfoldable pub without : Text → List (Text × ℕ) → List (Text × ℕ)
unfolding text_eq
without key [] = []
without key ((k, i) ∷ subs) =
    let rest = without key subs in if text_eq k key then rest else (k, i) ∷ rest

abbrev pub update {ℓ} : {A : Type ℓ} → (ℕ → A) → ℕ → A → ℕ → A
update f i a j = if i == j then a else f j

-- newPubsub
abbrev pub new_pubsub : PubSub
new_pubsub = record {
  visited = [];
  subscribers = [];
  ended = false;
  canceling = [];
  canceled = λ i. false;
  phase = λ i. outside;
}

-- Emit under the mutex. Its check of visited before that may be out of date, so a key can be
-- marked again.
unfoldable pub emit : Text → PubSub → PubSub
emit key p = record p {
  visited = key ∷ p.visited;
  canceling = subscribers_of key p.subscribers ++ p.canceling;
  subscribers = without key p.subscribers;
}

-- One call of a cancel function.
unfoldable pub cancel : List ℕ → ℕ → List ℕ → PubSub → PubSub
cancel before i after p = record p {
  canceling = before ++ after;
  canceled = update p.canceled i true;
}

-- The first select of Wait.
unfoldable pub wait_check : ℕ → Text → PubSub → PubSub
wait_check i key p = record p {
  phase = update p.phase i (if p.ended then returned key else checked key);
}

-- Wait under the mutex.
unfoldable pub wait_subscribe : ℕ → Text → PubSub → PubSub
wait_subscribe i key p =
    if is_in key p.visited then record p { phase = update p.phase i (returned key) } else record p {
      subscribers = (key, i) ∷ p.subscribers;
      phase = update p.phase i (subscribed key);
    }

-- The last select of Wait can go on.
unfoldable pub can_return : ℕ → PubSub → Bool
can_return i p = p.ended || p.canceled i

pub data Step (p : PubSub) : PubSub → Type 0 where
  emits : (key : Text) → Step p (emit key p)
  cancels :
      (before : List ℕ) (i : ℕ) (after : List ℕ)
      → p.canceling ≡ before ++ (i ∷ after)
      → Step p (cancel before i after p)
  ends : Step p (record p { ended = true })
  checks : (i : ℕ) (key : Text) → p.phase i ≡ outside → Step p (wait_check i key p)
  subscribes : (i : ℕ) (key : Text) → p.phase i ≡ checked key → Step p (wait_subscribe i key p)
  returns :
      (i : ℕ) (key : Text)
      → p.phase i ≡ subscribed key
      → can_return i p ≡ true
      → Step p (record p { phase = update p.phase i (returned key) })

pub data Reach : PubSub → Type 0 where
  here : Reach new_pubsub
  next : {p q : PubSub} → Reach p → Step p q → Reach q
