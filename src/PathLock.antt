-- ===== src/PathLock.antt =====
-- internal/pathlock/lock.go: a mutex for each path, kept in a sync.Map, and goroutines that lock
-- and unlock paths in any order.
mod Tests
pub mod Invariant
pub mod Safety
use hackpadfs.Base.{
  ℕ, ◌+◌, Text, text_eq, Bool, true, false, Option, none, some, List, [], ◌∷◌, ◌≡◌, ◌==◌,
  if◌then◌else◌,
}

-- Mutex: the sync.Map of the mutexes made so far, which are numbered, and which are locked.
pub record Locks : Type 0 where
  pub path_locks : List (Text × ℕ)
  pub made : ℕ
  pub locked : ℕ → Bool

unfoldable pub find : Text → List (Text × ℕ) → Option ℕ
unfolding text_eq
find path [] = none
find path ((q, mu) ∷ rest) = if text_eq q path then some mu else find path rest

abbrev pub update {ℓ} : {A : Type ℓ} → (ℕ → A) → ℕ → A → ℕ → A
update f i a j = if i == j then a else f j

abbrev new_locks : Locks
new_locks = record { path_locks = []; made = 0; locked = λ mu. false }

-- pathLocks.LoadOrStore(path, &newMu), in one step.
abbrev pub load_or_store : Text → Locks → Option ℕ → ℕ × Locks
load_or_store path l (some mu) = (mu, l)
load_or_store path l none =
    (l.made, record l { path_locks = (path, l.made) ∷ l.path_locks; made = l.made + 1 })

unfoldable pub lock_load : Text → Locks → ℕ × Locks
lock_load path l = load_or_store path l (find path l.path_locks)

-- mu.Lock(): `none` while the mutex is locked.
unfoldable pub lock_take : ℕ → Locks → Option Locks
lock_take mu l = if l.locked mu then none else some (record l { locked = update l.locked mu true })

-- mu.Unlock(): a fatal error, `none`, where the mutex is not locked.
abbrev unlock_mutex : Locks → Option ℕ → Option Locks
unlock_mutex l none = none
unlock_mutex l (some mu) =
    if l.locked mu then some (record l { locked = update l.locked mu false }) else none

-- Unlock; `none` too where the path has no mutex, and the type assertion panics.
unfoldable pub unlock : Text → Locks → Option Locks
unlock path l = unlock_mutex l (find path l.path_locks)

-- Where a call is: outside, in Lock between the two statements, or between Lock and Unlock. A
-- goroutine that holds several paths at once is several calls, one for each pair of Lock and Unlock.
pub data Phase : Type 0 where
  outside : Phase
  waiting : Text → ℕ → Phase
  holding : Text → Phase

pub record System : Type 0 where
  pub locks : Locks
  pub phase : ℕ → Phase

-- Call `i` goes on: it begins Lock, gets the mutex, or does Unlock of the path it holds. Unlock loads
-- an entry that is in the map for good and never changes, so its load and its unlock are one step.
pub data Step (s : System) : System → Type 0 where
  load :
      (i : ℕ) (path : Text)
      → s.phase i ≡ outside
      → Step s (record {
        locks = (lock_load path s.locks).1;
        phase = update s.phase i (waiting path (lock_load path s.locks).0);
      })
  take :
      (i : ℕ) (path : Text) (mu : ℕ) (l : Locks)
      → s.phase i ≡ waiting path mu
      → lock_take mu s.locks ≡ some l
      → Step s (record { locks = l; phase = update s.phase i (holding path) })
  release :
      (i : ℕ) (path : Text) (l : Locks)
      → s.phase i ≡ holding path
      → unlock path s.locks ≡ some l
      → Step s (record { locks = l; phase = update s.phase i outside })

abbrev pub start : System
start = record { locks = new_locks; phase = λ i. outside }

pub data Reach : System → Type 0 where
  here : Reach start
  next : {s t : System} → Reach s → Step s t → Reach t
