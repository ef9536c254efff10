-- ===== src/KeyValue/SerialLaws.antt =====
-- getFile of keyvalue/file.go through the serial transaction of keyvalue/txn_store.go.
use hackpadfs.Base.{Text, true, false, Option, none, some, [], ◌≡◌, refl, ap}
use hackpadfs.Errors.{Result, ok, err}
use hackpadfs.FilePath.{valid_path}
use hackpadfs.Blob.{Outcome, returns}
use hackpadfs.KeyValue.{FileRecord, Txn, Transaction, Store, no_handler, got}
use hackpadfs.KeyValue.Serial.{
  handle, set_result, serial, transaction_or_serial, serial_get, serial_commit, results_upto,
}
use hackpadfs.KeyValue.Call.{either, fail}
use hackpadfs.KeyValue.Files.{FileData, opened, first_record, commit_after, get_file}

module _ {S : Type 0} (store : Store S) where
  -- A record of the store as the file that getFile gives, or the error.
  abbrev pub opened_record : Text → Result (FileRecord S) → Result (FileData S)
  opened_record path (ok r) = ok (opened store path r)
  opened_record path (err e) = err e

  begun :
      (s : S) → store.begin ≡ none → transaction_or_serial store s ≡ returns (ok (serial store), s)
  unfolding transaction_or_serial
  begun s h =
      ap
        (λ (b : Option (S → Outcome (Result (Transaction S) × S))).
          elim b as (λ x. Outcome (Result (Transaction S) × S)) [
            | some begin ↦ begin s
            | none ↦ returns (ok (serial store), s)
          ])
        h

  -- The transaction after one operation.
  abbrev first_op : Txn S
  first_op = record { next_op = 1; results = []; aborted = false }

  committed :
      (path : Text) (r : Result (FileRecord S)) (s : S)
      → either
          (first_record store path)
          fail
          (commit_after store (serial store) (handle store no_handler (got 0 r) first_op s))
        ≡ returns (opened_record path r, s)
  unfolding handle set_result serial serial_commit results_upto commit_after first_record
  committed path (ok r) s = refl
  committed path (err e) s = refl

  -- Over a store that has no transactions, getFile of a valid path is one Get of the store: it
  -- gives the record as a file, or the error of Get, and leaves the state that Get leaves.
  pub get_file-serial :
      (path : Text) (s : S)
      → valid_path path ≡ true
      → store.begin ≡ none
      → get_file store path s
        ≡ (let (r, s') = store.get path s in returns (opened_record path r, s'))
  unfolding get_file serial serial_get
  get_file-serial path s good h =
      rw (good, begun s h) (committed path (store.get path s).0 (store.get path s).1)
