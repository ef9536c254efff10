-- ===== src/Mem/Calls.antt =====
-- getFile and setFile on the in-memory store, between transactions.
use hackpadfs.Base.{
  ℕ, Text, Bool, true, false, ◌&&◌, Option, none, some, List, [], ◌∷◌, ◌≡◌, refl, ap, if◌then◌else◌,
  Bool-cases, Option-cases, inl, inr,
}
use hackpadfs.Errors.{sentinel, err_invalid, err_not_exist, Result, ok, err}
use hackpadfs.FilePath.{valid_path}
use hackpadfs.Modes.{is_regular}
use hackpadfs.Blob.{Heap, returns}
use hackpadfs.KeyValue.{FileRecord, Txn, no_handler, new_txn}
use hackpadfs.KeyValue.Serial.{transaction_or_serial}
use hackpadfs.KeyValue.Files.{
  first_record, commit_after, FileData, opened, mode_of, mod_time_of, data_of, file_record_of,
  is_nil, get_file, set_file_txn, set_in_txn, set_data, set_file,
}
use hackpadfs.Mem.{
  Entry, Mem, load, delete, put, file_record, mem_get, mem_set, mem_handle, append_result,
  mem_get_handler, mem_set_handler, unlock, mem_commit, mem_transaction, mem_begin, mem_store,
}

-- A store, with its mutex locked or not.
abbrev pub held : Bool → List (Text × Entry) → Heap → ℕ → Mem
held locked records heap clock = record {
  records = records;
  locked = locked;
  heap = heap;
  clock = clock;
}

-- A store that no transaction holds.
abbrev pub idle : List (Text × Entry) → Heap → ℕ → Mem
idle = held false

-- A file of the store as getFile gives it.
abbrev pub stored : Text → Entry → FileData Mem
stored path e = opened mem_store path (file_record path e)

-- A lookup, and its error.
unfoldable pub lookup : Text → List (Text × Entry) → Result Entry
lookup path records =
    if valid_path path
    then elim (load path records) [ none ↦ err (sentinel err_not_exist) | some e ↦ ok e ]
    else err (sentinel err_invalid)

abbrev as_file : Text → Result Entry → Result (FileData Mem)
as_file path (ok e) = ok (stored path e)
as_file path (err e) = err e

pub get_file_lem :
    (path : Text) (records : List (Text × Entry)) (heap : Heap) (clock : ℕ)
    → get_file mem_store path (idle records heap clock)
      ≡ returns (as_file path (lookup path records), idle records heap clock)
unfolding lookup get_file transaction_or_serial commit_after first_record mem_store mem_begin
    mem_transaction mem_get_handler mem_get mem_handle mem_commit unlock
get_file_lem path records heap clock = elim (Bool-cases (valid_path path)) [
  | inr bad ↦ rw bad
  | inl good ↦ rw good (elim (Option-cases (load path records)) [
    | inl missing ↦ rw missing
    | inr (e, there) ↦ rw there
  ])
]

-- What setFile of a file leaves: `r` is its blob.
abbrev entry_of : FileData Mem → ℕ → Entry
entry_of f r = record {
  contents = r;
  mode = mode_of mem_store f;
  mod_time = mod_time_of mem_store f;
}

-- Data of the file `f` gives the blob `r`, and leaves the heap `heap'`.
abbrev GivesData : FileData Mem → ℕ → List (Text × Entry) → Heap → Heap → ℕ → Type 0
GivesData f r records heap heap' clock =
    (locked : Bool)
    → f.inner.data_of (held locked records heap clock) ≡ (ok r, held locked records heap' clock)

-- A transaction after a Set that did not fail.
abbrev pub one_set : Txn Mem
one_set = record {
  next_op = 1;
  results = record { op = 0; found = none; failed = none } ∷ [];
  aborted = false;
}

mem_set_lem :
    (path : Text) (src : FileRecord Mem) (r : ℕ) (s s' : Mem)
    → src.data_of s ≡ (ok r, s')
    → mem_set path (some src) s ≡ (
      ok tt,
      record s' {
        records =
            put path (record { contents = r; mode = src.mode; mod_time = src.mod_time }) s'.records;
      },
    )
unfolding mem_set
mem_set_lem path src r s s' gives =
    ap
      (λ (d : Result ℕ × Mem). elim d.0 as (λ x. Result (Unit {0}) × Mem) [
        | err e ↦ (err e, d.1)
        | ok c ↦ (
          ok tt,
          record d.1 {
            records =
                put path (record { contents = c; mode = src.mode; mod_time = src.mod_time })
                  d.1.records;
          },
        )
      ])
      gives

pub mem_set_handler_lem :
    (path : Text) (src : FileRecord Mem) (r : ℕ) (records : List (Text × Entry)) (heap heap' : Heap)
    (clock : ℕ)
    → src.data_of (held true records heap clock) ≡ (ok r, held true records heap' clock)
    → mem_set_handler path (some src) no_handler new_txn (held true records heap clock)
      ≡ returns (
        0,
        one_set,
        held true
            (put path (record { contents = r; mode = src.mode; mod_time = src.mod_time }) records)
            heap'
            clock,
      )
unfolding mem_set_handler mem_handle append_result
mem_set_handler_lem path src r records heap heap' clock gives =
    rw (mem_set_lem path src r (held true records heap clock) (held true records heap' clock) gives)

set_in_txn_lem :
    (path : Text) (f : FileData Mem) (contents : Option ℕ) (r : ℕ) (records : List (Text × Entry))
    (heap heap' : Heap) (clock : ℕ)
    → valid_path path ≡ true
    → (is_nil mem_store contents && is_regular (mode_of mem_store f)) ≡ false
    → (file_record_of mem_store f).data_of (held true records heap clock)
      ≡ (ok r, held true records heap' clock)
    → set_in_txn mem_store path (some f) contents (idle records heap clock)
      ≡ returns (ok tt, idle (put path (entry_of f r) records) heap' clock)
unfolding set_in_txn transaction_or_serial set_file_txn mem_store mem_begin mem_transaction
    mem_commit unlock
set_in_txn_lem path f contents r records heap heap' clock valid guarded gives =
    rw
      (
        valid,
        guarded,
        mem_set_handler_lem path (file_record_of mem_store f) r records heap heap' clock gives,
      )
      (unfold file_record_of in refl)

-- Data of a fileData that has not been asked before.
pub data_of_lem :
    (f : FileData Mem) (r : ℕ) (s s' : Mem)
    → f.cached ≡ none
    → f.inner.data_of s ≡ (ok r, s')
    → data_of mem_store f s ≡ (ok r, record f { cached = some (ok r) }, s')
unfolding data_of
data_of_lem f r s s' fresh gives =
    rw fresh (ap (λ (d : Result ℕ × Mem). (d.0, record f { cached = some d.0 }, d.1)) gives)

-- setFile of a file.
pub set_file_lem :
    (path : Text) (f : FileData Mem) (r : ℕ) (records : List (Text × Entry)) (heap heap' : Heap)
    (clock : ℕ)
    → valid_path path ≡ true
    → f.cached ≡ none
    → GivesData f r records heap heap' clock
    → set_file mem_store path (some f) (idle records heap clock)
      ≡ returns (ok tt, idle (put path (entry_of f r) records) heap' clock)
unfolding set_file set_data file_record_of data_of
set_file_lem path f r records heap heap' clock valid fresh gives =
    elim (Bool-cases (is_regular (mode_of mem_store f))) [
      | inl regular ↦
          rw (regular, data_of_lem f r _ _ fresh (gives false))
            (set_in_txn_lem path _ (some r) r records heap' heap' clock valid refl refl)
      | inr other ↦ rw other (
          set_in_txn_lem path f none r records heap heap' clock valid other
            (rw (fresh, gives true)))
    ]

-- setFile of nil deletes the record.
pub set_file_nil_lem :
    (path : Text) (records : List (Text × Entry)) (heap : Heap) (clock : ℕ)
    → valid_path path ≡ true
    → set_file mem_store path none (idle records heap clock)
      ≡ returns (ok tt, idle (delete path records) heap clock)
unfolding set_file set_in_txn transaction_or_serial set_file_txn mem_store mem_begin mem_transaction
    mem_set_handler mem_set mem_handle append_result mem_commit unlock
set_file_nil_lem path records heap clock valid = rw valid
