-- ===== src/KeyValue/Open.antt =====
-- Open and OpenFile of keyvalue/fs.go, over any store.
use hackpadfs.Base.{ℕ, Text, ◌&&◌, ◌||◌, not, Option, none, some, List, [], ◌∷◌, if◌then◌else◌, all}
use hackpadfs.Base.Int.{pos}
use hackpadfs.Errors.{
  Error, sentinel, path_error, err_invalid, err_not_exist, err_is_dir, is_error, ok, err,
}
use hackpadfs.FilePath.{valid_path, path_dir}
use hackpadfs.Modes.{
  is_dir, is_write_only, is_read_write, is_create, is_truncate, perm_of, flag_read_only,
}
use hackpadfs.Blob.{returns, panics, blocks}
use hackpadfs.KeyValue.{OpResult, Store}
use hackpadfs.KeyValue.Call.{Call, pure, fail, crash, try, ◌>>=◌, ◌>>◌}
use hackpadfs.KeyValue.Files.{FileData, mode_of, opened, new_file, save, saved}
use hackpadfs.KeyValue.Fs.{get_file_records, wrapped}
use hackpadfs.KeyValue.Handle.{Handle, truncate_handle}

-- What OpenFile returns: a *file, or one in a wrapper of keyvalue/file_rwonly.go.
pub data Access : Type 0 where
  read_only write_only read_write : Access

pub record Opened (S : Type 0) : Type 0 where
  pub access : Access
  pub handle : Handle S

-- A file and an error of getFiles, either of which may be nil.
abbrev pub Found : Type 0 → Type 0
Found S = Option (FileData S) × Option Error

-- The wrapper that the flags choose.
unfoldable pub access_of : ℕ → Access
access_of flag =
    if is_write_only flag then write_only else if is_read_write flag then read_write else read_only

module _ {S : Type 0} (store : Store S) where
  -- One error for all the paths.
  abbrev none_found : List Text → List (Found S)
  none_found [] = []
  none_found (p ∷ ps) = (none, none) ∷ none_found ps

  unfoldable pub failed_files : Error → List Text → List (Found S)
  failed_files e [] = []
  failed_files e (p ∷ ps) = (none, some e) ∷ none_found ps

  -- The loop of getFiles over the results, of which there is one for each path, or it panics. The
  -- file of a result with an error has a nil record, and no caller uses it.
  unfoldable pub found_files : List Text → List (OpResult S) → Option (List (Found S))
  found_files [] rs = some []
  found_files (p ∷ ps) [] = none
  found_files (p ∷ ps) (r ∷ rs) =
      let file : Option (FileData S) = elim r.found [
        | none ↦ none
        | some x ↦ some (opened store p x)
      ] in
      elim (found_files ps rs) [ none ↦ none | some fs ↦ some ((file, r.failed) ∷ fs) ]

  or_crash : {A : Type 0} → Option A → Call S A
  or_crash none = crash
  or_crash (some a) = pure a

  -- getFiles
  unfoldable pub get_files : List Text → Call S (List (Found S))
  unfolding or_crash
  get_files paths =
      if not (all valid_path paths)
      then pure (failed_files (sentinel err_invalid) paths)
      else try (get_file_records store paths) (λ rs. or_crash (found_files paths rs))
          (λ e. pure (failed_files e paths))

  abbrev pub opened_file : ℕ → FileData S → Handle S
  opened_file flag f = record { file_data = some f; listed = none; offset = pos 0; flag = flag }

  -- A file that is not there: its parent must be, and a new one is saved.
  unfoldable pub open_new : Text → ℕ → ℕ → List (Found S) → Call S (Handle S)
  open_new name flag perm [] s = panics
  open_new name flag perm ((parent, some e) ∷ fs) s = returns (err (path_error "open" name e), s)
  open_new name flag perm ((parent, none) ∷ fs) s =
      let f = new_file store name (perm_of perm) s in
      (wrapped store "open" name (save store f) >> pure (opened_file flag (saved store f s))) s

  -- The first switch of OpenFile.
  unfoldable pub open_found : Text → ℕ → ℕ → List (Found S) → Call S (Handle S)
  open_found name flag perm [] = crash
  open_found name flag perm ((none, none) ∷ fs) = crash
  open_found name flag perm ((some f, none) ∷ fs) =
      if is_dir (mode_of store f) && (is_create flag || is_write_only flag)
      then fail (path_error "open" name (sentinel err_is_dir))
      else pure (opened_file flag f)
  open_found name flag perm ((file, some e) ∷ fs) =
      if is_error e err_not_exist && is_create flag
      then open_new name flag perm fs
      else fail (path_error "open" name e)

  -- TruncateFile of the file to 0. The source returns the file beside the error.
  unfoldable pub truncated : Text → Handle S → Call S (Handle S)
  truncated name f s = elim (truncate_handle store (pos 0) f s) [
    | returns (ok _, f', s') ↦ returns (ok f', s')
    | returns (err e, f', s') ↦ returns (err (path_error "open" name e), s')
    | panics ↦ panics
    | blocks ↦ blocks
  ]

  abbrev pub opened_as : ℕ → Handle S → Opened S
  opened_as flag f = record { access = access_of flag; handle = f }

  -- OpenFile
  unfoldable pub open_file : Text → ℕ → ℕ → Call S (Opened S)
  open_file name flag perm = do
    files ← get_files (name ∷ (if is_create flag then path_dir name ∷ [] else []))
    f ← open_found name flag perm files
    f' ← (if is_truncate flag then truncated name f else pure f)
    pure (opened_as flag f')

  -- Open
  unfoldable pub open_name : Text → Call S (Opened S)
  open_name name = open_file name flag_read_only 0
