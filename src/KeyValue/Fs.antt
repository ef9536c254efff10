-- ===== src/KeyValue/Fs.antt =====
-- The operations of keyvalue/fs.go on names, over any store; OpenFile is left out.
use mathlib.Core.List.{reverse}
use hackpadfs.Base.{
  ℕ, zero, suc, Text, text_eq, Bool, true, false, not, Option, none, some, List, [], ◌∷◌, ◌++◌,
  if◌then◌else◌, length, String,
}
use hackpadfs.Errors.{
  Error, sentinel, path_error, link_error, err_invalid, err_exist, err_not_exist, err_not_dir,
  err_not_empty, is_error, Result, ok, err,
}
use hackpadfs.FilePath.{dot, valid_path, path_dir, path_join}
use hackpadfs.Modes.{is_dir, chmod_mode}
use hackpadfs.Fs.{FileInfo}
use hackpadfs.Blob.{Outcome, returns, panics, blocks, ◌>>=◌ as and_then}
use hackpadfs.KeyValue.{OpResult, Txn, Transaction, Store, new_txn, no_handler}
use hackpadfs.KeyValue.Serial.{transaction_or_serial}
use hackpadfs.KeyValue.Call.{Call, pure, fail, crash, try, ◌>>=◌, ◌>>◌}
use hackpadfs.KeyValue.Files.{
  FileData, mode_of, data_of, info_of, get_file, set_file_txn, set_file, new_dir, save,
}

-- ignoreErrExist
abbrev ignore_err_exist : Error → Result (Unit {0})
ignore_err_exist e = if is_error e err_exist then ok tt else err e

-- path.Dir until the root: the paths of the first loop of findMissingDirs without the root, or
-- `none` where the fuel is used up.
unfoldable pub ancestors : ℕ → Text → Option (List Text)
ancestors zero p = none
ancestors (suc fuel) p =
    let rest = ancestors fuel (path_dir p) in
    if text_eq p dot then some [] else elim rest [ none ↦ none | some ps ↦ some (p ∷ ps) ]

module _ {S : Type 0} (store : Store S) where
  -- wrapperErr
  abbrev pub wrapped : {A : Type 0} → String → Text → Call S A → Call S A
  wrapped op path m = try m pure (λ e. fail (path_error op path e))

  -- Stat
  unfoldable pub stat : Text → Call S FileInfo
  unfolding get_file info_of
  stat name =
      wrapped "stat" name (get_file store name) >>= λ f. λ s. returns (ok (info_of store f s), s)

  -- Mkdir. The record is made first, at the time of the call.
  unfoldable pub mkdir : Text → ℕ → Call S (Unit {0})
  mkdir name perm s0 =
      let file = new_dir store name perm s0 in
      try (stat name) (λ info. fail (path_error "mkdir" name (sentinel err_exist)))
        (λ e.
          if not (is_error e err_not_exist)
          then fail e
          else if text_eq name dot
          then wrapped "mkdir" name (save store file)
          else try (stat (path_dir name)) (λ info. wrapped "mkdir" name (save store file))
              (λ e'. fail (path_error "mkdir" name e')))
        s0

  -- NewFS: the root is made, unless it is there.
  unfoldable pub new_fs : Call S (Unit {0})
  new_fs = try (mkdir dot 0o666) pure (λ e. λ s. returns (ignore_err_exist e, s))

  -- The Gets of getFileRecords, in the transaction `t`.
  unfoldable pub get_each : Transaction S → List Text → Txn S → S → Outcome (Txn S × S)
  get_each txn [] t s = returns (t, s)
  get_each txn (p ∷ ps) t s =
      and_then (txn.get_handler p no_handler t s) (λ (op, t', s'). get_each txn ps t' s')

  -- getFileRecords
  unfoldable pub get_file_records : List Text → Call S (List (OpResult S))
  get_file_records paths = do
    txn ← transaction_or_serial store
    λ s. and_then (get_each txn paths new_txn s) (λ (t, s'). txn.commit t s')

  -- isMissingDir. Without an error there is a record, or the call panics, which is `none`.
  is_missing_dir : Text → OpResult S → Option (Result Bool)
  unfolding is_error is_dir
  is_missing_dir path r = elim r.failed [
    | some e ↦ some (if is_error e err_not_exist then ok true else err e)
    | none ↦ elim r.found [
      | none ↦ none
      | some found ↦ some (
          if is_dir found.mode
          then ok false
          else err (path_error "mkdir" path (sentinel err_not_dir)))
    ]
  ]

  -- The second loop of findMissingDirs.
  missing_dirs : List Text → List (OpResult S) → Call S (List Text)
  unfolding is_missing_dir
  missing_dirs [] rs = pure []
  missing_dirs (p ∷ ps) [] = crash
  missing_dirs (p ∷ ps) (r ∷ rs) = elim (is_missing_dir p r) [
    | none ↦ crash
    | some (err e) ↦ fail e
    | some (ok false) ↦ pure []
    | some (ok true) ↦ missing_dirs ps rs >>= λ rest. pure (p ∷ rest)
  ]

  -- findMissingDirs. An error of statAll leaves no infos, and the index is out of range.
  find_missing_dirs : Text → Call S (List Text)
  unfolding ancestors get_file_records missing_dirs get_each transaction_or_serial
  find_missing_dirs name =
      if not (valid_path name)
      then fail (sentinel err_invalid)
      else elim (ancestors (suc (suc (length name))) name) [
        | none ↦ λ s. blocks
        | some ps ↦
            let paths = ps ++ (dot ∷ []) in
            try (get_file_records paths) (missing_dirs paths) (λ e. crash)
      ]

  -- The loop of MkdirAll, from the root down.
  make_dirs : List Text → ℕ → Call S (Unit {0})
  unfolding new_dir save is_error
  make_dirs [] perm s = returns (ok tt, s)
  make_dirs (name ∷ rest) perm s =
      try (save store (new_dir store name perm s)) (λ _. make_dirs rest perm)
        (λ e.
          if is_error e err_exist then make_dirs rest perm else fail (path_error "mkdirall" name e))
        s

  -- MkdirAll
  unfoldable pub mkdir_all : Text → ℕ → Call S (Unit {0})
  unfolding find_missing_dirs make_dirs
  mkdir_all path perm = find_missing_dirs path >>= λ missing. make_dirs (reverse missing) perm

  -- Remove of a directory, after its ReadDirNames.
  unfoldable pub remove_dir : Text → Result (List Text) → Call S (Unit {0})
  remove_dir name (err e) s = returns (err e, s)
  remove_dir name (ok []) s = set_file store name none s
  remove_dir name (ok (n ∷ ns)) s =
      returns (err (path_error "remove" name (sentinel err_not_empty)), s)

  -- Remove
  unfoldable pub remove : Text → Call S (Unit {0})
  remove name = wrapped "remove" name (get_file store name) >>= λ f. λ s.
      if is_dir (mode_of store f)
      then remove_dir name (f.inner.dir_names s) s
      else set_file store name none s

  -- Chmod
  unfoldable pub chmod : Text → ℕ → Call S (Unit {0})
  unfolding get_file save chmod_mode
  chmod name mode = wrapped "chmod" name (get_file store name) >>= λ f.
      save store (record f { mode_override = some (chmod_mode (mode_of store f) mode) })

  -- Chtimes
  unfoldable pub chtimes : Text → ℕ → ℕ → Call S (Unit {0})
  unfolding get_file save
  chtimes name atime mtime = wrapped "chtimes" name (get_file store name) >>= λ f.
      save store (record f { mod_time_override = mtime })

  -- Commit after the two operations of Rename, or Abort after an error.
  unfoldable pub end_rename :
      Transaction S → Outcome (Result (Txn S) × S) → Outcome (Result (Unit {0}) × S)
  end_rename txn (returns (ok t, s)) = (txn.commit t >>= λ results. pure tt) s
  end_rename txn (returns (err e, s)) = elim (txn.abort new_txn s) [
    | returns s' ↦ returns (err e, s')
    | panics ↦ panics
    | blocks ↦ blocks
  ]
  end_rename txn panics = panics
  end_rename txn blocks = blocks

  -- The transaction of Rename of a file, once it has begun.
  unfoldable pub rename_in_txn : Text → Text → FileData S → ℕ → Transaction S → Call S (Unit {0})
  rename_in_txn oldname newname f contents txn s = end_rename txn (
      (set_file_txn store txn newname (some f) (some contents) new_txn
          >>= set_file_txn store txn oldname none none)
        s)

  -- Rename of what is no directory. A transaction that cannot begin is nil, and its Abort panics.
  unfoldable pub rename_fetched :
      Text → Text → Result ℕ × FileData S × S → Outcome (Result (Unit {0}) × S)
  rename_fetched oldname newname (err e, f, s) = returns (err e, s)
  rename_fetched oldname newname (ok r, f, s) =
      try (transaction_or_serial store) (rename_in_txn oldname newname f r) (λ e. crash) s

  unfoldable pub rename_file : Text → Text → FileData S → Call S (Unit {0})
  rename_file oldname newname f s =
      if text_eq oldname newname
      then returns (ok tt, s)
      else rename_fetched oldname newname (data_of store f s)

  -- The loop of Rename over the names of a directory, with Rename itself.
  rename_each : (Text → Text → Call S (Unit {0})) → Text → Text → List Text → Call S (Unit {0})
  unfolding path_join
  rename_each rename_one oldname newname [] s = returns (ok tt, s)
  rename_each rename_one oldname newname (n ∷ ns) s =
      (rename_one (path_join (oldname ∷ n ∷ [])) (path_join (newname ∷ n ∷ []))
          >> rename_each rename_one oldname newname ns)
        s

  -- Rename. Fuel is for the depth of the directories; `blocks` where it is used up.
  unfoldable pub rename : ℕ → Text → Text → Call S (Unit {0})
  unfolding rename_each
  rename zero oldname newname s = blocks
  rename (suc fuel) oldname newname s =
      try (get_file store oldname)
        (λ f.
          if not (is_dir f.inner.mode)
          then rename_file oldname newname f
          else try (get_file store newname)
              (λ found. fail (link_error "rename" oldname newname (sentinel err_exist)))
              (λ e.
                if not (is_error e err_not_exist)
                then fail (link_error "rename" oldname newname (sentinel err_exist))
                else λ s1. elim (f.inner.dir_names s1) [
                  | err e' ↦ returns (err e', s1)
                  | ok files ↦
                      (set_file store newname (some f)
                          >> rename_each (rename fuel) oldname newname files
                          >> set_file store oldname none)
                        s1
                ]))
        (λ e. fail (link_error "rename" oldname newname (sentinel err_not_exist))) s
