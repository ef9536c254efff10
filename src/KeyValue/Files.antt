-- ===== src/KeyValue/Files.antt =====
-- The files of keyvalue/file.go: fileData, getFile, setFile and newFile over any store.
use hackpadfs.Base.{
  ℕ, Text, Bool, true, false, ◌&&◌, not, Option, none, some, List, [], ◌∷◌, ◌==◌, if◌then◌else◌,
}
use hackpadfs.Errors.{sentinel, err_invalid, Result, ok, err}
use hackpadfs.FilePath.{valid_path, path_base}
use hackpadfs.Modes.{is_regular, dir_mode}
use hackpadfs.Fs.{FileInfo}
use hackpadfs.Blob.{Outcome, returns, panics, blocks}
use hackpadfs.KeyValue.{
  FileRecord, BaseFileRecord, base_record, OpResult, Txn, Transaction, Store, new_txn, no_handler,
}
use hackpadfs.KeyValue.Serial.{transaction_or_serial}
use hackpadfs.KeyValue.Call.{Call, pure, fail, crash, ◌>>=◌}

-- fileData: the record and what Data has given, once it was called; the zero time and a nil
-- mode override nothing.
pub record FileData (S : Type 0) : Type 0 where
  pub inner : FileRecord S
  pub cached : Option (Result ℕ)
  pub mode_override : Option ℕ
  pub mod_time_override : ℕ
  pub path : Text

module _ {S : Type 0} (store : Store S) where
  -- fileData.Mode
  abbrev pub mode_of : FileData S → ℕ
  mode_of f = elim f.mode_override [ none ↦ f.inner.mode | some mode ↦ mode ]

  -- fileData.ModTime
  abbrev pub mod_time_of : FileData S → ℕ
  mod_time_of f = if f.mod_time_override == 0 then f.inner.mod_time else f.mod_time_override

  -- runOnceFileRecord.Data
  unfoldable pub data_of : FileData S → S → Result ℕ × FileData S × S
  data_of f s = elim f.cached [
    | some d ↦ (d, f, s)
    | none ↦ let (d, s1) = f.inner.data_of s in (d, record f { cached = some d }, s1)
  ]

  -- The size that an info or a record tells: runOnceFileRecord.Size, but for the panic after a Data
  -- that failed. Infos and records are made with their size here, and only `asked_size` is what a
  -- method of a handle asks for.
  unfoldable pub size_of : FileData S → S → ℕ
  size_of f s = elim f.cached [
    | none ↦ f.inner.size s
    | some (ok r) ↦ store.blob_length s r
    | some (err e) ↦ 0
  ]

  -- runOnceFileRecord.Size: after a Data that failed it asks a nil blob for its length, which is a
  -- panic.
  unfoldable pub asked_size : FileData S → S → Outcome ℕ
  asked_size f s = elim f.cached [
    | none ↦ returns (f.inner.size s)
    | some (ok r) ↦ returns (store.blob_length s r)
    | some (err e) ↦ panics
  ]

  -- A *fileData as the FileRecord that the store is given.
  unfoldable pub file_record_of : FileData S → FileRecord S
  unfolding data_of size_of
  file_record_of f = record {
    data_of = λ s. let (d, f', s') = data_of f s in (d, s');
    dir_names = f.inner.dir_names;
    size = size_of f;
    mode = mode_of f;
    mod_time = mod_time_of f;
  }

  -- fileInfo
  unfoldable pub info_of : FileData S → S → FileInfo
  unfolding size_of path_base
  info_of f s = record {
    name = path_base f.path;
    size = size_of f s;
    mode = mode_of f;
    mod_time = mod_time_of f;
  }

  abbrev pub opened : Text → FileRecord S → FileData S
  opened path r = record {
    inner = r;
    cached = none;
    mode_override = none;
    mod_time_override = 0;
    path = path;
  }

  -- results[0] of a Commit, which panics where there is none.
  unfoldable pub first_record : Text → List (OpResult S) → Call S (FileData S)
  first_record path [] = crash
  first_record path (r ∷ rs) = elim r.failed [
    | some e ↦ fail e
    | none ↦ elim r.found [ none ↦ crash | some found ↦ pure (opened path found) ]
  ]

  -- The operation and the Commit of a transaction that has just begun.
  unfoldable pub commit_after :
      Transaction S → Outcome (ℕ × Txn S × S) → Outcome (Result (List (OpResult S)) × S)
  commit_after txn (returns (op, t, s)) = txn.commit t s
  commit_after txn panics = panics
  commit_after txn blocks = blocks

  -- getFile. The file comes with the error in the source; no caller uses it then.
  unfoldable pub get_file : Text → Call S (FileData S)
  get_file path = if not (valid_path path) then fail (sentinel err_invalid) else do
    txn ← transaction_or_serial store
    results ← λ s. commit_after txn (txn.get_handler path no_handler new_txn s)
    first_record path results

  abbrev pub is_nil : Option ℕ → Bool
  is_nil none = true
  is_nil (some r) = false

  -- setFileTxn, which adds the operation to the transaction `t`.
  unfoldable pub set_file_txn :
      Transaction S → Text → Option (FileData S) → Option ℕ → Txn S → Call S (Txn S)
  set_file_txn txn path none contents t s =
      if not (valid_path path)
      then returns (err (sentinel err_invalid), s)
      else elim (txn.set_handler path none no_handler t s) [
        | returns (op, t', s') ↦ returns (ok t', s')
        | panics ↦ panics
        | blocks ↦ blocks
      ]
  set_file_txn txn path (some f) contents t s =
      if not (valid_path path)
      then returns (err (sentinel err_invalid), s)
      else if is_nil contents && is_regular (mode_of f)
      then panics
      else elim (txn.set_handler path (some (file_record_of f)) no_handler t s) [
        | returns (op, t', s') ↦ returns (ok t', s')
        | panics ↦ panics
        | blocks ↦ blocks
      ]

  -- The transaction of setFile. The results of its operation are not looked at.
  unfoldable pub set_in_txn : Text → Option (FileData S) → Option ℕ → Call S (Unit {0})
  set_in_txn path f contents = do
    txn ← transaction_or_serial store
    t ← set_file_txn txn path f contents new_txn
    results ← txn.commit t
    pure tt

  -- The rest of setFile of a regular file, after its Data.
  unfoldable pub set_data : Text → Result ℕ × FileData S × S → Outcome (Result (Unit {0}) × S)
  set_data path (err e, f, s) = returns (err e, s)
  set_data path (ok r, f, s) = set_in_txn path (some f) (some r) s

  -- setFile; `none` deletes the file.
  unfoldable pub set_file : Text → Option (FileData S) → Call S (Unit {0})
  set_file path none s = set_in_txn path none none s
  set_file path (some f) s =
      if is_regular (mode_of f)
      then set_data path (data_of f s)
      else set_in_txn path (some f) none s

  -- newFile, at the time of the store's clock.
  unfoldable pub new_file : Text → ℕ → S → FileData S
  unfolding base_record
  new_file path mode s =
      let base : BaseFileRecord S = record {
        get_data = some (λ t. let (r, t') = store.new_blob t in (ok r, t'));
        get_dir_names = none;
        initial_size = 0;
        mode = mode;
        mod_time = store.now s;
      } in
      opened path (base_record base)

  -- newDir of keyvalue/fs.go.
  unfoldable pub new_dir : Text → ℕ → S → FileData S
  unfolding new_file
  new_dir path perm = new_file path (dir_mode perm)

  -- save
  unfoldable pub save : FileData S → Call S (Unit {0})
  unfolding set_file
  save f = set_file f.path (some f)

  -- The fileData after save, which asks a regular file for its data.
  unfoldable pub saved : FileData S → S → FileData S
  saved f s = if is_regular (mode_of f) then (data_of f s).1 else f
