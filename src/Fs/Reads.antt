-- ===== src/Fs/Reads.antt =====
-- ReadFile of fs.go, and the ReadFile of Go's io/fs that it falls back on.
use hackpadfs.Base.{ℕ, zero, suc, Text, Option, none, some, [], ◌++◌, if◌then◌else◌, length}
use hackpadfs.Errors.{Error, Result, ok, err}
use hackpadfs.Errors.Strip.{strip_err_path_prefix}
use hackpadfs.Fs.{FileInfo, File, Fs, plain, mounted}
use hackpadfs.Fs.Copy.{is_eof}

-- The size of the file, or nothing where Stat fails.
abbrev pub told_size : Result FileInfo → ℕ
told_size (ok info) = info.size
told_size (err e) = 0

-- How much room the buffer has is up to Go: `room` is any function of the size that Stat tells and
-- the number of bytes read so far.
module _ {W : Type 0} (room : ℕ → ℕ → ℕ) where
  -- The loop; `none` where the fuel is used up.
  unfoldable pub read_all : ℕ → ℕ → File W → Text → W → Option ((Text × Option Error) × W)
  read_all zero size f seen w = none
  read_all (suc fuel) size f seen w =
      let ((s, ended), w1) = f.read (room size (length seen)) w in
      elim ended [
        | none ↦ read_all fuel size f (seen ++ s) w1
        | some e ↦ some ((seen ++ s, if is_eof e then none else some e), w1)
      ]

  abbrev closed_after :
      File W → Option ((Text × Option Error) × W) → Option ((Text × Option Error) × W)
  closed_after f none = none
  closed_after f (some (r, w)) = some (r, (f.close w).1)

  abbrev read_of : ℕ → Result (File W) × W → Option ((Text × Option Error) × W)
  read_of fuel (err e, w) = some (([], some e), w)
  read_of fuel (ok f, w) =
      let (info, w1) = f.stat w in closed_after f (read_all fuel (told_size info) f [] w1)

  abbrev strip_read :
      Text → Text → Option ((Text × Option Error) × W) → Option ((Text × Option Error) × W)
  strip_read name sub_path none = none
  strip_read name sub_path (some ((s, none), w)) = some ((s, none), w)
  strip_read name sub_path (some ((s, some e), w)) =
      some ((s, some (strip_err_path_prefix e name sub_path)), w)

  -- ReadFile
  unfoldable pub read_file : ℕ → Fs W → Text → W → Option ((Text × Option Error) × W)
  read_file fuel (plain o) name w = elim o.read_file [
    | some call ↦ some (call name w)
    | none ↦ read_of fuel (o.open_name name w)
  ]
  read_file fuel (mounted o mount sub_path) name w = elim o.read_file [
    | some call ↦ some (call name w)
    | none ↦ strip_read name (sub_path w name) (read_file fuel (mount w name) (sub_path w name) w)
  ]
