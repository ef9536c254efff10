-- ===== src/Mem/Founds.antt =====
-- getFiles on an idle in-memory store, for the one or two paths that OpenFile asks for.
use hackpadfs.Base.{
  ℕ, ◌+◌, ◌++◌, Text, true, false, Option, none, some, List, [], ◌∷◌, ◌≡◌, Option-cases, inl, inr,
}
use hackpadfs.Errors.{sentinel, err_invalid, err_not_exist, ok}
use hackpadfs.FilePath.{valid_path}
use hackpadfs.Blob.{Heap, returns}
use hackpadfs.KeyValue.{OpResult, Txn, no_handler}
use hackpadfs.KeyValue.Serial.{transaction_or_serial}
use hackpadfs.KeyValue.Fs.{get_each, get_file_records}
use hackpadfs.KeyValue.Open.{Found, failed_files, found_files, get_files}
use hackpadfs.Mem.{
  Entry, Mem, load, file_record, mem_get, mem_handle, append_result, mem_get_handler, unlock,
  mem_commit, mem_transaction, mem_begin, mem_store,
}
use hackpadfs.Mem.Calls.{held, idle, stored}

-- A path among the files of getFiles.
abbrev found_of : Text → Option Entry → Found Mem
found_of path none = (none, some (sentinel err_not_exist))
found_of path (some e) = (some (stored path e), none)

abbrev found_at : Text → List (Text × Entry) → Found Mem
found_at path records = found_of path (load path records)

-- The result of a Get.
abbrev got_of : ℕ → Text → Option Entry → OpResult Mem
got_of op path none = record { op = op; found = none; failed = some (sentinel err_not_exist) }
got_of op path (some e) = record { op = op; found = some (file_record path e); failed = none }

abbrev got_txn : ℕ → List (OpResult Mem) → Txn Mem
got_txn op results = record { next_op = op; results = results; aborted = false }

module _ (records : List (Text × Entry)) (heap : Heap) (clock : ℕ) where
  mem_get_handler_lem :
      (p : Text) (op : ℕ) (results : List (OpResult Mem))
      → mem_get_handler p no_handler (got_txn op results) (held true records heap clock)
        ≡ returns (
          op,
          got_txn (op + 1) (results ++ (got_of op p (load p records) ∷ [])),
          held true records heap clock,
        )
  unfolding mem_get_handler mem_get mem_handle append_result
  mem_get_handler_lem p op results = elim (Option-cases (load p records)) [
    | inl missing ↦ rw missing
    | inr (e, there) ↦ rw there
  ]

  pub get_files-one :
      (p : Text)
      → valid_path p ≡ true
      → get_files mem_store (p ∷ []) (idle records heap clock)
        ≡ returns (ok (found_at p records ∷ []), idle records heap clock)
  unfolding get_files get_file_records get_each found_files transaction_or_serial mem_store
      mem_begin mem_transaction mem_commit unlock
  get_files-one p good =
      rw (good, mem_get_handler_lem p 0 [])
        (elim (Option-cases (load p records)) [
          | inl missing ↦ rw missing
          | inr (e, there) ↦ rw there
        ])

  pub get_files-two :
      (p q : Text)
      → valid_path p ≡ true
      → valid_path q ≡ true
      → get_files mem_store (p ∷ q ∷ []) (idle records heap clock)
        ≡ returns (ok (found_at p records ∷ found_at q records ∷ []), idle records heap clock)
  unfolding get_files get_file_records get_each found_files transaction_or_serial mem_store
      mem_begin mem_transaction mem_commit unlock
  get_files-two p q good good' =
      rw
        (
          good,
          good',
          mem_get_handler_lem p 0 [],
          mem_get_handler_lem q 1 (got_of 0 p (load p records) ∷ []),
        )
        (elim (Option-cases (load p records)) [
          | inl missing ↦ elim (Option-cases (load q records)) [
            | inl missing' ↦ rw (missing, missing')
            | inr (d, there') ↦ rw (missing, there')
          ]
          | inr (e, there) ↦ elim (Option-cases (load q records)) [
            | inl missing' ↦ rw (there, missing')
            | inr (d, there') ↦ rw (there, there')
          ]
        ])

  pub get_files-invalid :
      (p : Text) (ps : List Text)
      → valid_path p ≡ false
      → get_files mem_store (p ∷ ps) (idle records heap clock)
        ≡ returns
            (ok (failed_files mem_store (sentinel err_invalid) (p ∷ ps)), idle records heap clock)
  unfolding get_files
  get_files-invalid p ps bad = rw bad
