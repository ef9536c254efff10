-- ===== src/Fs.antt =====
-- The interfaces of fs.go and file.go. A file or a file system is a record of functions on the
-- state `W` of everything that it can reach; an optional interface is an `Option`.
mod Tests
pub mod Samples
pub mod FileOps
pub mod Dispatch
pub mod Sub
pub mod SubLaws
pub mod Copy
pub mod Trees
pub mod TreeLaws
pub mod MadeDirs
pub mod Reads
pub mod ReadLaws
use hackpadfs.Base.{ℕ, Text, Bool, Option, List}
use hackpadfs.Errors.{Error, Result, ok, err}
use hackpadfs.Base.Int.{ℤ}

pub record FileInfo : Type 0 where
  pub name : Text
  pub size : ℕ
  pub mode : ℕ
  pub mod_time : ℕ

pub record DirEntry : Type 0 where
  pub name : Text
  pub info : FileInfo

-- A call on the state: it may fail, and what it has changed stays changed.
abbrev pub Action : Type 0 → Type 0 → Type 0
Action W A = W → Result A × W

module _ {W : Type 0} where
  abbrev pub pure : {A : Type 0} → A → Action W A
  pure a w = (ok a, w)

  abbrev pub fail : {A : Type 0} → Error → Action W A
  fail e w = (err e, w)

  infixl 5 ◌>>=◌ ◌>>◌
  abbrev pub ◌>>=◌ : {A B : Type 0} → Action W A → (A → Action W B) → Action W B
  ◌>>=◌ m f w = let (r, w') = m w in elim r [ ok a ↦ f a w' | err e ↦ (err e, w') ]

  abbrev pub ◌>>◌ : {B : Type 0} → Action W (Unit {0}) → Action W B → Action W B
  m >> k = m >>= λ _. k

-- File, with the optional interfaces of file.go. `read n` is Read into a buffer of n bytes: the
-- bytes and the error, which may come together, as the count and the error of a write may.
pub record File (W : Type 0) : Type 0 where
  pub close : Action W (Unit {0})
  pub stat : Action W FileInfo
  pub read : ℕ → W → (Text × Option Error) × W
  pub write : Option (Text → W → (ℕ × Option Error) × W)
  pub read_at : Option (ℕ → ℤ → W → (Text × Option Error) × W)
  pub write_at : Option (Text → ℤ → W → (ℕ × Option Error) × W)
  pub seek : Option (ℤ → ℕ → Action W ℤ)
  pub read_dir : Option (ℤ → W → (List DirEntry × Option Error) × W)
  pub chmod : Option (ℕ → Action W (Unit {0}))
  pub chown : Option (ℕ → ℕ → Action W (Unit {0}))
  pub chtimes : Option (ℕ → ℕ → Action W (Unit {0}))
  pub sync : Option (Action W (Unit {0}))
  pub truncate : Option (ℤ → Action W (Unit {0}))

-- FS, with the optional interfaces of fs.go but SubFS and MountFS.
pub record Ops (W : Type 0) : Type 0 where
  pub open_name : Text → Action W (File W)
  pub open_file : Option (Text → ℕ → ℕ → Action W (File W))
  pub create : Option (Text → Action W (File W))
  pub mkdir : Option (Text → ℕ → Action W (Unit {0}))
  pub mkdir_all : Option (Text → ℕ → Action W (Unit {0}))
  pub remove : Option (Text → Action W (Unit {0}))
  pub remove_all : Option (Text → Action W (Unit {0}))
  pub rename : Option (Text → Text → Action W (Unit {0}))
  pub stat : Option (Text → Action W FileInfo)
  pub lstat : Option (Text → Action W FileInfo)
  pub chmod : Option (Text → ℕ → Action W (Unit {0}))
  pub chown : Option (Text → ℕ → ℕ → Action W (Unit {0}))
  pub chtimes : Option (Text → ℕ → ℕ → Action W (Unit {0}))
  pub read_dir : Option (Text → W → (List DirEntry × Option Error) × W)
  pub read_file : Option (Text → W → (Text × Option Error) × W)
  pub write_file : Option (Text → Text → ℕ → Action W (Unit {0}))
  pub symlink : Option (Text → Text → Action W (Unit {0}))

-- A file system, or a MountFS: for a name, `mount` gives the file system that holds it and
-- `sub_path` its path there.
pub data Fs (W : Type 0) : Type 0 where
  plain : Ops W → Fs W
  mounted : Ops W → (W → Text → Fs W) → (W → Text → Text) → Fs W

abbrev pub ops : {W : Type 0} → Fs W → Ops W
ops (plain o) = o
ops (mounted o mount sub_path) = o
