-- ===== src/Fs/Dispatch.antt =====
-- The operations of fs.go that call an optional interface, go on into the file system that a
-- MountFS names, or fall back. An error from inside a MountFS loses its path prefix.
use hackpadfs.Base.{ℕ, ◌+◌, Text, String, true, false, none, some, ◌==◌, if◌then◌else◌}
use hackpadfs.Errors.{
  sentinel, path_error, link_error, err_not_implemented, is_error, Result, ok, err,
}
use hackpadfs.Errors.Strip.{strip_result}
use hackpadfs.Modes.{flag_read_only, flag_read_write, flag_create, flag_truncate}
use hackpadfs.Fs.{FileInfo, Action, fail, ◌>>=◌, File, Ops, Fs, plain, mounted, ops}
use hackpadfs.Fs.FileOps.{chmod_file, chown_file, chtimes_file}

module _ {W : Type 0} where
  -- fs.Open(name), the one method that every FS has.
  unfoldable pub open_name : Fs W → Text → Action W (File W)
  open_name fs name = (ops fs).open_name name

  abbrev unsupported : {A : Type 0} → String → Text → Action W A
  unsupported op name = fail (path_error op name (sentinel err_not_implemented))

  -- What comes back from inside a MountFS.
  abbrev pub inside : {A : Type 0} → Text → Text → Result A × W → Result A × W
  inside name sub_path (r, w) = (strip_result name sub_path r, w)

  -- `defer file.Close()`: the call's result stands whatever Close returns.
  unfoldable pub closing : {A : Type 0} → File W → Action W A → Action W A
  closing f m w = let (r, w') = m w in (r, (f.close w').1)

  -- OpenFile
  unfoldable pub open_file : Fs W → Text → ℕ → ℕ → Action W (File W)
  unfolding open_name
  open_file (plain o) name flag perm w = elim (flag == flag_read_only) [
    | true ↦ o.open_name name w
    | false ↦ elim o.open_file [
      | some call ↦ call name flag perm w
      | none ↦ unsupported "open" name w
    ]
  ]
  open_file (mounted o mount sub_path) name flag perm w = elim (flag == flag_read_only) [
    | true ↦ o.open_name name w
    | false ↦ elim o.open_file [
      | some call ↦ call name flag perm w
      | none ↦
          inside name (sub_path w name) (open_file (mount w name) (sub_path w name) flag perm w)
    ]
  ]

  -- Create
  unfoldable pub create : Fs W → Text → Action W (File W)
  unfolding open_file
  create fs name w = elim (ops fs).create [
    | some call ↦ call name w
    | none ↦ open_file fs name (flag_read_write + flag_create + flag_truncate) 0o666 w
  ]

  -- Mkdir
  unfoldable pub mkdir : Fs W → Text → ℕ → Action W (Unit {0})
  mkdir (plain o) name perm w = elim o.mkdir [
    | some call ↦ call name perm w
    | none ↦ unsupported "mkdir" name w
  ]
  mkdir (mounted o mount sub_path) name perm w = elim o.mkdir [
    | some call ↦ call name perm w
    | none ↦ inside name (sub_path w name) (mkdir (mount w name) (sub_path w name) perm w)
  ]

  -- Remove
  unfoldable pub remove : Fs W → Text → Action W (Unit {0})
  remove (plain o) name w = elim o.remove [
    | some call ↦ call name w
    | none ↦ unsupported "remove" name w
  ]
  remove (mounted o mount sub_path) name w = elim o.remove [
    | some call ↦ call name w
    | none ↦ inside name (sub_path w name) (remove (mount w name) (sub_path w name) w)
  ]

  -- Rename: a MountFS is not looked through.
  unfoldable pub rename : Fs W → Text → Text → Action W (Unit {0})
  rename fs old new w = elim (ops fs).rename [
    | some call ↦ call old new w
    | none ↦ fail (link_error "rename" old new (sentinel err_not_implemented)) w
  ]

  -- Symlink
  unfoldable pub symlink : Fs W → Text → Text → Action W (Unit {0})
  symlink fs old new w = elim (ops fs).symlink [
    | some call ↦ call old new w
    | none ↦ fail (link_error "symlink" old new (sentinel err_not_implemented)) w
  ]

  stat_opened : Ops W → Text → Action W FileInfo
  unfolding closing
  stat_opened o name = do f ← o.open_name name; closing f f.stat

  -- Stat
  unfoldable pub stat : Fs W → Text → Action W FileInfo
  unfolding stat_opened
  stat (plain o) name w = elim o.stat [ some call ↦ call name w | none ↦ stat_opened o name w ]
  stat (mounted o mount sub_path) name w = elim o.stat [
    | some call ↦ call name w
    | none ↦ inside name (sub_path w name) (stat (mount w name) (sub_path w name) w)
  ]

  -- Lstat
  unfoldable pub lstat : Fs W → Text → Action W FileInfo
  lstat (plain o) name w = elim o.lstat [
    | some call ↦ call name w
    | none ↦ unsupported "lstat" name w
  ]
  lstat (mounted o mount sub_path) name w = elim o.lstat [
    | some call ↦ call name w
    | none ↦ inside name (sub_path w name) (lstat (mount w name) (sub_path w name) w)
  ]

  -- The tail of LstatOrStat, on the results of Lstat and Stat.
  lstat_fallback : Ops W → Text → Result FileInfo × W → Result FileInfo × W
  unfolding stat is_error
  lstat_fallback o name (ok info, w) = (ok info, w)
  lstat_fallback o name (err e, w) =
      if is_error e err_not_implemented then stat (plain o) name w else (err e, w)

  -- LstatOrStat: a MountFS is looked through before its own methods.
  unfoldable lstat_or_stat : Fs W → Text → Action W FileInfo
  unfolding lstat lstat_fallback
  lstat_or_stat (plain o) name w = lstat_fallback o name (lstat (plain o) name w)
  lstat_or_stat (mounted o mount sub_path) name w =
      inside name (sub_path w name) (lstat_or_stat (mount w name) (sub_path w name) w)

  -- Open the file and run a method of it; an error of Open is reported under `op`.
  on_opened : {A : Type 0} → Ops W → String → Text → (File W → Action W A) → Action W A
  unfolding closing
  on_opened o op name run w =
      let (r, w') = o.open_name name w in
      elim r [ ok f ↦ closing f (run f) w' | err e ↦ (err (path_error op name e), w') ]

  -- Chmod
  unfoldable pub chmod : Fs W → Text → ℕ → Action W (Unit {0})
  unfolding on_opened chmod_file
  chmod (plain o) name mode w = elim o.chmod [
    | some call ↦ call name mode w
    | none ↦ on_opened o "chmod" name (λ f. chmod_file f mode) w
  ]
  chmod (mounted o mount sub_path) name mode w = elim o.chmod [
    | some call ↦ call name mode w
    | none ↦ inside name (sub_path w name) (chmod (mount w name) (sub_path w name) mode w)
  ]

  -- Chown
  unfoldable pub chown : Fs W → Text → ℕ → ℕ → Action W (Unit {0})
  unfolding on_opened chown_file
  chown (plain o) name uid gid w = elim o.chown [
    | some call ↦ call name uid gid w
    | none ↦ on_opened o "chown" name (λ f. chown_file f uid gid) w
  ]
  chown (mounted o mount sub_path) name uid gid w = elim o.chown [
    | some call ↦ call name uid gid w
    | none ↦ inside name (sub_path w name) (chown (mount w name) (sub_path w name) uid gid w)
  ]

  -- Chtimes
  unfoldable pub chtimes : Fs W → Text → ℕ → ℕ → Action W (Unit {0})
  unfolding on_opened chtimes_file
  chtimes (plain o) name atime mtime w = elim o.chtimes [
    | some call ↦ call name atime mtime w
    | none ↦ on_opened o "chtimes" name (λ f. chtimes_file f atime mtime) w
  ]
  chtimes (mounted o mount sub_path) name atime mtime w = elim o.chtimes [
    | some call ↦ call name atime mtime w
    | none ↦ inside name (sub_path w name) (chtimes (mount w name) (sub_path w name) atime mtime w)
  ]
