-- ===== src/Tar/Unpack.antt =====
-- readProcessFile, writeFile and cachedMkdirAll of tar/fs.go, a background task, and one round of
-- the loop of readErr.
use hackpadfs.Base.{
  ℕ, ◌+◌, ◌-◌, Text, drop, Bool, true, false, not, Option, none, some, ◌∷◌, if◌then◌else◌,
}
use hackpadfs.Errors.{
  Error, sentinel, message_error, canceled, eof, err_exist, is_error, Result, ok, err,
}
use hackpadfs.FilePath.{path_dir}
use hackpadfs.Modes.{is_dir, flag_write_only, flag_create, flag_truncate}
use hackpadfs.Fs.{FileInfo, File}
use hackpadfs.Fs.Trees.{mkdir_all}
use hackpadfs.Tar.Read.{
  Archive, finish, broken, entry, resolve_path, read_full, small_buffer, BaseFs, Task, make_dir,
  write_small, send_error, call_done, returned, reading, draining, Reader, is_cached,
  write_contents,
}

abbrev is_eof : Error → Bool
is_eof (sentinel eof) = true
is_eof _ = false

module _ {W : Type 0} (base : BaseFs W) where
  -- The end of writeFile: the file is closed, and its path is emitted where nothing failed.
  abbrev closed_file :
      Text
      → File W
      → Reader W
      → Option (Result (Unit {0}) × W)
      → Option (Result (Unit {0}) × Reader W)
  closed_file path f r none = none
  closed_file path f r (some (ok _, w)) =
      some (ok tt, record r { world = (f.close w).1; emitted = path ∷ r.emitted })
  closed_file path f r (some (err e, w)) = some (err e, record r { world = (f.close w).1 })

  abbrev opened_file :
      Text
      → Text
      → Option (Text × Option Error)
      → Reader W
      → Result (File W) × W
      → Option (Result (Unit {0}) × Reader W)
  opened_file path initial left r (err e, w) =
      some (err (message_error e "opening destination file"), record r { world = w })
  opened_file path initial left r (ok f, w) =
      closed_file path f r (write_contents base f initial left w)

  -- writeFile. `none` where the copy does not end.
  unfoldable pub write_file :
      Text
      → FileInfo
      → Text
      → Option (Text × Option Error)
      → Reader W
      → Option (Result (Unit {0}) × Reader W)
  write_file path info initial left r =
      opened_file path initial left r
        (base.open_file path (flag_write_only + flag_create + flag_truncate) info.mode r.world)

  -- cachedMkdirAll
  abbrev made_dirs : Text → Reader W → Result (Unit {0}) × W → Result (Unit {0}) × Reader W
  made_dirs path r (ok _, w) = (ok tt, record r { world = w; mkdir_cache = path ∷ r.mkdir_cache })
  made_dirs path r (err e, w) = (err e, record r { world = w })

  unfoldable pub cached_mkdir_all : Text → ℕ → Reader W → Result (Unit {0}) × Reader W
  cached_mkdir_all path perm r =
      if is_cached path r.mkdir_cache
      then (ok tt, r)
      else made_dirs path r (mkdir_all base.fs path perm r.world)

  -- wg.Add(1), and the goroutine.
  abbrev add_task : Task → Reader W → Reader W
  add_task task r = record r { tasks = task ∷ r.tasks; waiting = r.waiting + 1 }

  -- readProcessFile of what is no directory, on the first read.
  abbrev first_read :
      Text
      → FileInfo
      → Text
      → Option Error
      → Text × Option Error
      → Reader W
      → Option (Result (Unit {0}) × Reader W)
  first_read path info rest failure (initial, none) r =
      write_file path info initial (some (rest, failure)) r
  first_read path info rest failure (initial, some e) r =
      if is_eof e then some (ok tt, add_task (write_small path info initial) r) else some (err e, r)

  abbrev prepped :
      Text
      → FileInfo
      → Text
      → Option Error
      → Result (Unit {0}) × Reader W
      → Option (Result (Unit {0}) × Reader W)
  prepped path info contents failure (err e, r) =
      some (err (message_error e "prepping base dir"), r)
  prepped path info contents failure (ok _, r) =
      if is_dir info.mode
      then some (ok tt, add_task (make_dir path info.mode) r)
      else first_read path info (drop small_buffer contents) failure
          (read_full small_buffer contents failure) r

  -- readProcessFile
  unfoldable pub read_process_file :
      Text → FileInfo → Text → Option Error → Reader W → Option (Result (Unit {0}) × Reader W)
  read_process_file name info contents failure r =
      let path = resolve_path name in
      if r.ended
      then some (err (sentinel canceled), r)
      else prepped path info contents failure (cached_mkdir_all (path_dir path) 0o700 r)

  -- The goroutine of a directory.
  abbrev dir_error : Result (Unit {0}) × W → Option Error × W
  dir_error (ok _, w) = (none, w)
  dir_error (err e, w) = (some (message_error e "copying dir"), w)

  unfoldable pub make_dir_task : Text → ℕ → W → Option Error × W
  make_dir_task path mode w =
      let (made, w1) = base.mkdir path mode w in
      elim made [
        | ok _ ↦ (none, w1)
        | err e ↦
            if not (is_error e err_exist)
            then (some (message_error e "copying dir"), w1)
            else dir_error (base.chmod path mode w1)
      ]

  -- What is left of a goroutine after its work: an error to send and Done, or Done.
  abbrev left_of : Option Error → Reader W → Reader W
  left_of none r = record r { tasks = call_done ∷ r.tasks }
  left_of (some e) r = record r { tasks = send_error e ∷ r.tasks }

  abbrev left_of_write : Option (Result (Unit {0}) × Reader W) → Option (Reader W)
  left_of_write none = none
  left_of_write (some (ok _, r)) = some (left_of none r)
  left_of_write (some (err e, r)) = some (left_of (some e) r)

  -- errs <- err, which waits while the channel is full.
  abbrev send_to : Error → Option Error → Reader W → Option (Reader W)
  send_to e none r = some (record r { errors = some e; tasks = call_done ∷ r.tasks })
  send_to e (some e') r = none

  -- A goroutine, which is off the list, goes on: it works, sends, or calls Done.
  unfoldable pub run_task : Task → Reader W → Option (Reader W)
  run_task (make_dir path mode) r =
      let (e, w) = make_dir_task path mode r.world in some (left_of e (record r { world = w }))
  run_task (write_small path info initial) r = left_of_write (write_file path info initial none r)
  run_task (send_error e) r = send_to e r.errors r
  run_task call_done r = some (record r { waiting = r.waiting - 1 })

  -- readErr returns.
  abbrev pub return_with : Option Error → Reader W → Reader W
  return_with e r = record r { phase = returned e }

  abbrev processed : Archive → Option (Result (Unit {0}) × Reader W) → Option (Reader W)
  processed rest none = none
  processed rest (some (ok _, r)) = some (record r { phase = reading rest })
  processed rest (some (err e, r)) = some (return_with (some e) r)

  -- One round of the loop of readErr, which takes the error of the channel where there is one.
  unfoldable pub read_next : Archive → Option Error → Reader W → Option (Reader W)
  read_next archive (some e) r = some (return_with (some e) (record r { errors = none }))
  read_next finish none r = some (record r { phase = draining })
  read_next (broken e) none r = some (return_with (some (message_error e "next tar file")) r)
  read_next (entry name info contents failure rest) none r =
      processed rest (read_process_file name info contents failure r)
