-- ===== src/Tar/Runs.antt =====
-- NewReaderFS, read and readErr of tar/fs.go as steps: the loop over the archive, the background
-- tasks in any order, and the end; and Open.
use hackpadfs.Base.{
  Text, true, false, not, Option, none, some, List, [], ◌∷◌, ◌++◌, ◌≡◌, if◌then◌else◌,
}
use hackpadfs.Errors.{
  Error, sentinel, text_error, path_error, message_error, err_invalid, Result, ok, err,
}
use hackpadfs.FilePath.{dot, valid_path}
use hackpadfs.Fs.{DirEntry, File}
use hackpadfs.Fs.Dispatch.{open_name}
use hackpadfs.Fs.Trees.{read_dir}
use hackpadfs.Tar.Read.{Archive, BaseFs, Task, Phase, reading, draining, returned, finished, Reader}
use hackpadfs.Tar.Unpack.{read_next, run_task, return_with}

abbrev not_empty : Error
not_empty = text_error "root '.' of options.UnarchiveFS must be an empty directory"

module _ {W : Type 0} (base : BaseFs W) where
  pub data Step (r : Reader W) : Reader W → Type 0 where
    next :
        (archive : Archive) (s : Reader W)
        → r.phase ≡ reading archive
        → read_next base archive r.errors r ≡ some s
        → Step r s
    runs :
        (before : List Task) (task : Task) (after : List Task) (s : Reader W)
        → r.tasks ≡ before ++ (task ∷ after)
        → run_task base task (record r { tasks = before ++ after }) ≡ some s
        → Step r s
    -- The last select of readErr may take either channel where both are ready: an error, or that
    -- Wait of the WaitGroup has returned.
    fails :
        (e : Error)
        → r.phase ≡ draining
        → r.errors ≡ some e
        → Step r (return_with base (some e) (record r { errors = none }))
    drained : r.phase ≡ draining → r.waiting ≡ 0 → Step r (return_with base none r)
    -- read stores the error and ends both contexts.
    ends :
        (e : Option Error)
        → r.phase ≡ returned e
        → Step r (record r { phase = finished e; ended = true })
    -- The caller cancels the context.
    cancels : Step r (record r { ended = true })

  abbrev pub start : W → Archive → Reader W
  start w archive = record {
    world = w;
    phase = reading archive;
    tasks = [];
    waiting = 0;
    errors = none;
    mkdir_cache = [];
    emitted = [];
    ended = false;
  }

  -- NewReaderFS: the root of the file system must be an empty directory, and read is started.
  abbrev made_reader : Archive → (List DirEntry × Option Error) × W → Result (Reader W) × W
  made_reader archive (([], none), w) = (ok (start w archive), w)
  made_reader archive ((entries, e), w) = (err (message_error not_empty "tar"), w)

  unfoldable new_reader_fs : Archive → W → Result (Reader W) × W
  new_reader_fs archive w = made_reader archive (read_dir base.fs dot w)

  pub data Reach (w : W) (archive : Archive) : Reader W → Type 0 where
    here : Reach w archive (start w archive)
    after : {r s : Reader W} → Reach w archive r → Step r s → Reach w archive s

  -- UnarchiveErr
  abbrev unarchive_err : Phase → Option Error
  unarchive_err (finished e) = e
  unarchive_err (reading archive) = none
  unarchive_err draining = none
  unarchive_err (returned e) = none

  -- Open after its Wait has returned.
  unfoldable open_waited : Text → Reader W → Result (File W) × W
  open_waited name r =
      if not (valid_path name)
      then (err (path_error "open" name (sentinel err_invalid)), r.world)
      else elim (unarchive_err r.phase) [
        | some e ↦ (err (path_error "open" name e), r.world)
        | none ↦ open_name base.fs name r.world
      ]
