-- ===== src/Fs/FileOps.antt =====
-- The functions of file.go: each calls the method of an optional interface, or fails with
-- ErrNotImplemented under the file's name.
use hackpadfs.Base.{ℕ, Text, String, Option, none, some, List, []}
use hackpadfs.Base.Int.{ℤ}
use hackpadfs.Errors.{Error, sentinel, path_error, err_not_implemented, ok, err}
use hackpadfs.Fs.{DirEntry, Action, fail, ◌>>=◌, File}

module _ {W : Type 0} where
  not_implemented : {A : Type 0} → File W → String → Action W A
  not_implemented f op = do
    info ← f.stat
    fail (path_error op info.name (sentinel err_not_implemented))

  -- The same for a function that returns a value beside the error.
  with_value : {A : Type 0} → A → Action W A → W → (A × Option Error) × W
  with_value a m w =
      let (r, w') = m w in elim r [ ok b ↦ ((b, none), w') | err e ↦ ((a, some e), w') ]

  unfoldable pub chmod_file : File W → ℕ → Action W (Unit {0})
  unfolding not_implemented
  chmod_file f mode = elim f.chmod [ some call ↦ call mode | none ↦ not_implemented f "chmod" ]

  -- The operation that the error names is "chmod" here too.
  unfoldable pub chown_file : File W → ℕ → ℕ → Action W (Unit {0})
  unfolding not_implemented
  chown_file f uid gid = elim f.chown [
    | some call ↦ call uid gid
    | none ↦ not_implemented f "chmod"
  ]

  unfoldable pub chtimes_file : File W → ℕ → ℕ → Action W (Unit {0})
  unfolding not_implemented
  chtimes_file f atime mtime = elim f.chtimes [
    | some call ↦ call atime mtime
    | none ↦ not_implemented f "chtimes"
  ]

  unfoldable read_at_file : File W → ℕ → ℤ → W → (Text × Option Error) × W
  unfolding not_implemented with_value
  read_at_file f n off = elim f.read_at [
    | some call ↦ call n off
    | none ↦ with_value [] (not_implemented f "readat")
  ]

  unfoldable pub write_file_data : File W → Text → W → (ℕ × Option Error) × W
  unfolding not_implemented with_value
  write_file_data f p = elim f.write [
    | some call ↦ call p
    | none ↦ with_value 0 (not_implemented f "write")
  ]

  unfoldable write_at_file : File W → Text → ℤ → W → (ℕ × Option Error) × W
  unfolding not_implemented with_value
  write_at_file f p off = elim f.write_at [
    | some call ↦ call p off
    | none ↦ with_value 0 (not_implemented f "writeat")
  ]

  unfoldable read_dir_file : File W → ℤ → W → (List DirEntry × Option Error) × W
  unfolding not_implemented with_value
  read_dir_file f n = elim f.read_dir [
    | some call ↦ call n
    | none ↦ with_value [] (not_implemented f "readdir")
  ]

  unfoldable pub seek_file : File W → ℤ → ℕ → Action W ℤ
  unfolding not_implemented
  seek_file f offset whence = elim f.seek [
    | some call ↦ call offset whence
    | none ↦ not_implemented f "seek"
  ]

  unfoldable sync_file : File W → Action W (Unit {0})
  unfolding not_implemented
  sync_file f = elim f.sync [ some call ↦ call | none ↦ not_implemented f "sync" ]

  unfoldable truncate_file : File W → ℤ → Action W (Unit {0})
  unfolding not_implemented
  truncate_file f size = elim f.truncate [
    | some call ↦ call size
    | none ↦ not_implemented f "truncate"
  ]
