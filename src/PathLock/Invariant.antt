-- ===== src/PathLock/Invariant.antt =====
-- Who holds which mutex, in every state that is reached.
use hackpadfs.Base.{
  ℕ, ◌<◌, Text, text_eq, text_eq_refl, text_eq_iff, true, false, none, some, ◌∷◌, ◌≡◌, ◌≢◌, refl,
  ◌==◌, if◌then◌else◌, arith, Bool-cases, Option-cases, inl, inr,
}
use hackpadfs.PathLock.{
  Locks, find, update, load_or_store, lock_load, lock_take, unlock, Phase, outside, waiting,
  holding, System, Step, load, take, release, start, Reach, here, next,
}

pub record Inv (l : Locks) (phase : ℕ → Phase) : Type 0 where
  pub old : (p : Text) (mu : ℕ) → find p l.path_locks ≡ some mu → mu < l.made
  pub apart :
      (p q : Text) (mu : ℕ) → find p l.path_locks ≡ some mu → find q l.path_locks ≡ some mu → p ≡ q
  pub waits : (i : ℕ) (p : Text) (mu : ℕ) → phase i ≡ waiting p mu → find p l.path_locks ≡ some mu
  pub holds :
      (i : ℕ) (p : Text)
      → phase i ≡ holding p
      → (mu : ℕ) × (find p l.path_locks ≡ some mu) × (l.locked mu ≡ true)
  pub unique : (i j : ℕ) (p : Text) → phase i ≡ holding p → phase j ≡ holding p → i ≡ j
  pub owner :
      (mu : ℕ)
      → l.locked mu ≡ true
      → (i : ℕ) × (p : Text) × (phase i ≡ holding p) × (find p l.path_locks ≡ some mu)

Inv-start : Inv start.locks start.phase
unfolding find
Inv-start = record {
  old = λ p mu e. absurd (cc);
  apart = λ p q mu e f. absurd (cc);
  waits = λ i p mu e. absurd (cc);
  holds = λ i p e. absurd (cc);
  unique = λ i j p e f. absurd (cc);
  owner = λ mu e. absurd (cc);
}

module _ {l : Locks} {phase : ℕ → Phase} (inv : Inv l phase) (i : ℕ) where
  -- LoadOrStore of a path that has a mutex changes no mutex.
  wait-Inv :
      (p : Text) (mu : ℕ)
      → phase i ≡ outside
      → find p l.path_locks ≡ some mu
      → Inv l (update phase i (waiting p mu))
  wait-Inv p mu out there = record {
    old = inv.old;
    apart = inv.apart;
    waits = λ j q m e. ground (arith, inv.waits j q m);
    holds = λ j q e. inv.holds j q (ground arith);
    unique = λ j k q e f. inv.unique j k q (ground arith) (ground arith);
    owner = λ m e. let (j, q, h, f) = inv.owner m e in (j, q, ground arith, f);
  }

  -- LoadOrStore of a new path makes a mutex that nobody holds.
  store-find :
      (p q : Text)
      → find q ((p, l.made) ∷ l.path_locks)
        ≡ (if text_eq p q then some l.made else find q l.path_locks)
  unfolding find
  store-find p q = refl

  not_made : (p : Text) → find p l.path_locks ≢ some l.made
  not_made p e = absurd (omega (arith, inv.old p l.made e))

  -- The mutex of a path that had one stays.
  kept-find :
      (p q : Text) (m : ℕ)
      → find p l.path_locks ≡ none
      → find q l.path_locks ≡ some m
      → find q ((p, l.made) ∷ l.path_locks) ≡ some m
  kept-find p q m missing there = ground (arith, store-find p q, text_eq_iff p q)

  store-Inv :
      (p : Text)
      → phase i ≡ outside
      → find p l.path_locks ≡ none
      → Inv (load_or_store p l none).1 (update phase i (waiting p l.made))
  store-Inv p out missing = record {
    old = λ q m e. ground (arith, store-find p q, inv.old q m);
    apart = λ q r m e f. ground (
      arith,
      store-find p q,
      store-find p r,
      text_eq_iff p q,
      text_eq_iff p r,
      inv.apart q r m,
      inv.old q m,
      inv.old r m,
    );
    waits =
        λ j q m e. ground (arith, store-find p q, text_eq_iff p q, inv.waits j q m, text_eq_refl p);
    holds = λ j q e.
        let (m, f, lk) = inv.holds j q (ground arith) in (m, kept-find p q m missing f, lk);
    unique = λ j k q e f. inv.unique j k q (ground arith) (ground arith);
    owner =
        λ m e. let (j, q, h, f) = inv.owner m e in (j, q, ground arith, kept-find p q m missing f);
  }

  load-Inv :
      (p : Text)
      → phase i ≡ outside
      → Inv (lock_load p l).1 (update phase i (waiting p (lock_load p l).0))
  unfolding lock_load
  load-Inv p out = elim (Option-cases (find p l.path_locks)) [
    | inl missing ↦ rw missing (store-Inv p out missing)
    | inr (mu, there) ↦ rw there (wait-Inv p mu out there)
  ]

  nobody_holds :
      (p : Text) (mu k : ℕ) → phase i ≡ waiting p mu → l.locked mu ≡ false → phase k ≢ holding p
  nobody_holds p mu k wait free h =
      let (m, f, lk) = inv.holds k p h in absurd (ground (arith, inv.waits i p mu))

  -- A goroutine takes a mutex that nobody holds.
  take-Inv :
      (p : Text) (mu : ℕ)
      → phase i ≡ waiting p mu
      → l.locked mu ≡ false
      → Inv (record l { locked = update l.locked mu true }) (update phase i (holding p))
  take-Inv p mu wait free = record {
    old = inv.old;
    apart = inv.apart;
    waits = λ j q m e. inv.waits j q m (ground arith);
    holds = λ j q e. elim (Bool-cases (i == j)) [
      | inl same ↦ (mu, ground (arith, inv.waits i p mu), ground arith)
      | inr other ↦ let (m, f, lk) = inv.holds j q (ground arith) in (m, f, ground arith)
    ];
    unique = λ j k q e f. elim (Bool-cases (i == j)) [
      | inl same ↦ ground (arith, nobody_holds p mu k wait free, inv.unique j k q)
      | inr other ↦ ground (arith, nobody_holds p mu j wait free, inv.unique j k q)
    ];
    owner = λ m e. elim (Bool-cases (mu == m)) [
      | inl same ↦ (i, p, ground arith, ground (arith, inv.waits i p mu))
      | inr other ↦ let (j, q, h, f) = inv.owner m (ground arith) in (j, q, ground arith, f)
    ];
  }

  -- A goroutine gives its mutex back.
  release-Inv :
      (p : Text) (mu : ℕ)
      → phase i ≡ holding p
      → find p l.path_locks ≡ some mu
      → Inv (record l { locked = update l.locked mu false }) (update phase i outside)
  release-Inv p mu held there = record {
    old = inv.old;
    apart = inv.apart;
    waits = λ j q m e. inv.waits j q m (ground arith);
    holds = λ j q e.
        let (m, f, lk) = inv.holds j q (ground arith) in
        (m, f, ground (arith, inv.apart p q m, inv.unique i j p));
    unique = λ j k q e f. inv.unique j k q (ground arith) (ground arith);
    owner = λ m e. let (j, q, h, f) = inv.owner m (ground arith) in (j, q, ground arith, f);
  }

lock_take-free :
    (mu : ℕ) (l l' : Locks)
    → lock_take mu l ≡ some l'
    → (l.locked mu ≡ false) × (l' ≡ record l { locked = update l.locked mu true })
unfolding lock_take
lock_take-free mu l l' h = elim (Bool-cases (l.locked mu)) [
  | inl is ↦ absurd (ground arith)
  | inr free ↦ (free, ground arith)
]

unlock-found :
    (p : Text) (l l' : Locks)
    → unlock p l ≡ some l'
    → (mu : ℕ) × (find p l.path_locks ≡ some mu)
      × (l' ≡ record l { locked = update l.locked mu false })
unfolding unlock
unlock-found p l l' h = elim (Option-cases (find p l.path_locks)) [
  | inl missing ↦ absurd (ground arith)
  | inr (mu, there) ↦ (mu, there, ground arith)
]

Step-Inv : {s t : System} → Step s t → Inv s.locks s.phase → Inv t.locks t.phase
Step-Inv (load i p out) inv = load-Inv inv i p out
Step-Inv {s} (take i p mu l wait took) inv =
    let (free, e) = lock_take-free mu s.locks l took in rw e (take-Inv inv i p mu wait free)
Step-Inv {s} (release i p l held gave) inv =
    let (mu, there, e) = unlock-found p s.locks l gave in rw e (release-Inv inv i p mu held there)

pub Reach-Inv : {s : System} → Reach s → Inv s.locks s.phase
Reach-Inv here = Inv-start
Reach-Inv (next r st) = Step-Inv st (Reach-Inv r)
