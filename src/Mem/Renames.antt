-- ===== src/Mem/Renames.antt =====
-- Rename of keyvalue/fs.go of what is no directory, on an idle in-memory store.
use hackpadfs.Base.{
  ℕ, suc, Text, text_eq, true, false, none, some, List, [], ◌∷◌, ◌≡◌, refl, if◌then◌else◌,
  Bool-cases, inl, inr,
}
use hackpadfs.Errors.{sentinel, err_invalid, Result, ok, err}
use hackpadfs.FilePath.{valid_path}
use hackpadfs.Modes.{is_dir}
use hackpadfs.Blob.{Heap, returns}
use hackpadfs.KeyValue.{Txn, new_txn}
use hackpadfs.KeyValue.Serial.{transaction_or_serial}
use hackpadfs.KeyValue.Files.{FileData, data_of, file_record_of, set_file_txn}
use hackpadfs.KeyValue.Fs.{rename, rename_fetched, rename_file, rename_in_txn, end_rename}
use hackpadfs.Mem.{
  Entry, Mem, load, delete, put, file_record, mem_set, mem_handle, append_result, mem_set_handler,
  mem_transaction, mem_begin, mem_commit, mem_abort, unlock, mem_store,
}
use hackpadfs.Mem.Calls.{
  held, idle, stored, get_file_lem, data_of_lem, mem_set_handler_lem, one_set,
}
use hackpadfs.Mem.Lookup.{lookup-of_some}
use hackpadfs.Mem.Refines.{stored-GivesData, stored-mode}

-- The transaction after both operations.
abbrev two_sets : Txn Mem
two_sets = record {
  next_op = 2;
  results =
      record { op = 0; found = none; failed = none }
      ∷ record { op = 1; found = none; failed = none }
      ∷ [];
  aborted = false;
}

module _ (records : List (Text × Entry)) (heap : Heap) (clock : ℕ) (old new : Text) (e : Entry)
    (good : valid_path old ≡ true) (there : load old records ≡ some e)
    (plain : is_dir e.mode ≡ false) where
  abbrev pub rename_spec : Result (Unit {0}) × Mem
  rename_spec =
      if text_eq old new
      then (ok tt, idle records heap clock)
      else if valid_path new
      then (ok tt, idle (delete old (put new e records)) heap clock)
      else (err (sentinel err_invalid), idle records heap clock)

  -- The file with its data fetched.
  abbrev fetched : FileData Mem
  fetched = record (stored old e) { cached = some (ok e.contents) }

  set_new :
      valid_path new ≡ true
      → set_file_txn mem_store mem_transaction new
          (some fetched)
          (some e.contents)
          new_txn
          (held true records heap clock)
        ≡ returns (ok one_set, held true (put new e records) heap clock)
  unfolding set_file_txn mem_transaction
  set_new ok_new =
      rw
        (
          ok_new,
          mem_set_handler_lem new (file_record_of mem_store fetched) e.contents records heap heap
              clock (unfold file_record_of data_of in refl),
        )
        (unfold file_record_of file_record in refl)

  set_old :
      (rs : List (Text × Entry))
      → (t : Txn Mem) × (set_file_txn mem_store mem_transaction old none none one_set
            (held true rs heap clock)
          ≡ returns (ok t, held true (delete old rs) heap clock))
  unfolding set_file_txn mem_transaction mem_set_handler mem_set mem_handle append_result
  set_old rs = (two_sets, rw good)

  in_txn-good :
      valid_path new ≡ true
      → rename_in_txn mem_store old new fetched e.contents mem_transaction
          (held true records heap clock)
        ≡ returns (ok tt, idle (delete old (put new e records)) heap clock)
  unfolding rename_in_txn end_rename mem_transaction mem_commit unlock
  in_txn-good ok_new = let (t, q) = set_old (put new e records) in rw (set_new ok_new, q)

  in_txn-bad :
      valid_path new ≡ false
      → rename_in_txn mem_store old new fetched e.contents mem_transaction
          (held true records heap clock)
        ≡ returns (err (sentinel err_invalid), idle records heap clock)
  unfolding rename_in_txn set_file_txn end_rename mem_transaction mem_abort unlock
  in_txn-bad bad_new = rw bad_new

  file-lem :
      rename_file mem_store old new (stored old e) (idle records heap clock) ≡ returns rename_spec
  unfolding rename_file rename_fetched mem_store mem_begin transaction_or_serial rename_in_txn
  file-lem = elim (Bool-cases (text_eq old new)) [
    | inl same ↦ rw same
    | inr other ↦
        rw
          (
            other,
            data_of_lem (stored old e) e.contents (idle records heap clock)
                (idle records heap clock) refl (stored-GivesData old e records heap clock false),
          )
          (elim (Bool-cases (valid_path new)) [
            | inl ok_new ↦ rw ok_new (in_txn-good ok_new)
            | inr bad_new ↦ rw bad_new (in_txn-bad bad_new)
          ])
  ]

  -- Rename of a file that is there and is no directory: nothing where the two names are the same;
  -- an error and no change where the new name is not valid; and otherwise the record stands under
  -- the new name, in the place of what was there, and no longer under the old one. The mutex is
  -- given back in each case.
  pub rename-refines :
      (fuel : ℕ)
      → rename mem_store (suc fuel) old new (idle records heap clock) ≡ returns rename_spec
  unfolding rename file_record
  rename-refines fuel =
      rw
        (
          get_file_lem old records heap clock,
          lookup-of_some old records e good there,
          stored-mode old e,
          plain,
        )
        file-lem
