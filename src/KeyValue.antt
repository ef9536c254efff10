-- ===== src/KeyValue.antt =====
-- The interfaces of package keyvalue: FileRecord and BaseFileRecord of record.go, Store of
-- store.go, and the transactions of txn_store.go, over the state `S` of a store.
mod Tests
pub mod Serial
pub mod Call
pub mod Files
pub mod Fs
pub mod Ancestors
pub mod Handle
pub mod HandleLaws
pub mod Open
pub mod Access
pub mod Listing
pub mod SerialLaws
use hackpadfs.Base.{
  ℕ, ◌+◌, Text, Bool, true, false, Option, none, some, List, [], ◌∷◌, if◌then◌else◌,
}
use hackpadfs.Base.Int.{ℤ}
use hackpadfs.Errors.{
  Error, sentinel, err_is_dir, err_not_dir, err_not_implemented, Result, ok, err,
}
use hackpadfs.Modes.{is_dir}
use hackpadfs.Blob.{Outcome, returns, panics, blocks}

-- FileRecord. `data` gives the index of a blob; Sys is left out.
pub record FileRecord (S : Type 0) : Type 0 where
  pub data_of : S → Result ℕ × S
  pub dir_names : S → Result (List Text)
  pub size : S → ℕ
  pub mode : ℕ
  pub mod_time : ℕ

-- The getters that NewBaseFileRecord is given: `none` is a nil function.
pub record BaseFileRecord (S : Type 0) : Type 0 where
  pub get_data : Option (S → Result ℕ × S)
  pub get_dir_names : Option (S → Result (List Text))
  pub initial_size : ℕ
  pub mode : ℕ
  pub mod_time : ℕ

module _ {S : Type 0} where
  -- BaseFileRecord.Data
  base_data : BaseFileRecord S → S → Result ℕ × S
  unfolding is_dir
  base_data b s = elim b.get_data [
    | some get ↦ get s
    | none ↦ (err (sentinel (if is_dir b.mode then err_is_dir else err_not_implemented)), s)
  ]

  -- BaseFileRecord.ReadDirNames
  base_dir_names : BaseFileRecord S → S → Result (List Text)
  unfolding is_dir
  base_dir_names b s = elim b.get_dir_names [
    | some get ↦ get s
    | none ↦ err (sentinel (if is_dir b.mode then err_not_implemented else err_not_dir))
  ]

  unfoldable pub base_record : BaseFileRecord S → FileRecord S
  unfolding base_data base_dir_names
  base_record b = record {
    data_of = base_data b;
    dir_names = base_dir_names b;
    size = λ s. b.initial_size;
    mode = b.mode;
    mod_time = b.mod_time;
  }

  -- Data of a runOnceFileRecord: the first result is kept for every later call.
  unfoldable run_once_data : FileRecord S → S → Result ℕ × FileRecord S × S
  run_once_data r s = let (d, s') = r.data_of s in (d, record r { data_of = λ t. (d, t) }, s')

-- OpResult: a record that is nil, and an error that is nil, is `none`.
pub record OpResult (S : Type 0) : Type 0 where
  pub op : ℕ
  pub found : Option (FileRecord S)
  pub failed : Option Error

-- What a transaction keeps: the next operation, the results, and whether it has been aborted
-- (Commit aborts too, when it is done).
pub record Txn (S : Type 0) : Type 0 where
  pub next_op : ℕ
  pub results : List (OpResult S)
  pub aborted : Bool

-- OpHandlerFunc: it may abort the transaction or run operations on it.
abbrev pub Handler : Type 0 → Type 0
Handler S = Txn S → S → OpResult S → Outcome (Option Error × Txn S × S)

-- The interface Transaction, over the state of the transaction and of the store.
pub record Transaction (S : Type 0) : Type 0 where
  pub get_handler : Text → Handler S → Txn S → S → Outcome (ℕ × Txn S × S)
  pub set_handler : Text → Option (FileRecord S) → Handler S → Txn S → S → Outcome (ℕ × Txn S × S)
  pub commit : Txn S → S → Outcome (Result (List (OpResult S)) × S)
  pub abort : Txn S → S → Outcome S

-- Store, and TransactionStore where `begin` is there. `now` is the clock, and `new_blob` makes
-- an empty blob; `blob_of` is NewBytes of a buffer, and the other fields are the methods of blobs.
pub record Store (S : Type 0) : Type 0 where
  pub get : Text → S → Result (FileRecord S) × S
  pub set : Text → Option (FileRecord S) → S → Result (Unit {0}) × S
  pub begin : Option (S → Outcome (Result (Transaction S) × S))
  pub now : S → ℕ
  pub new_blob : S → ℕ × S
  pub blob_length : S → ℕ → ℕ
  pub blob_of : Text → S → ℕ × S
  pub blob_bytes : ℕ → S → Outcome (Text × S)
  pub blob_view : ℕ → ℤ → ℤ → S → Outcome (Result ℕ × S)
  pub blob_set : ℕ → ℕ → ℤ → S → Outcome (Result ℕ × S)
  pub blob_grow : ℕ → ℤ → S → Outcome (Result (Unit {0}) × S)
  pub blob_truncate : ℕ → ℤ → S → Outcome (Result (Unit {0}) × S)

abbrev pub new_txn : {S : Type 0} → Txn S
new_txn = record { next_op = 0; results = []; aborted = false }

-- The handler of Get and Set.
abbrev pub no_handler : {S : Type 0} → Handler S
no_handler t s r = returns (none, t, s)

-- result.Err after the handler: the operation's own error comes first.
abbrev pub first_error : Option Error → Option Error → Option Error
first_error (some e) handled = some e
first_error none handled = handled

abbrev pub failed_op : {S : Type 0} → ℕ → Error → OpResult S
failed_op op e = record { op = op; found = none; failed = some e }

abbrev pub got : {S : Type 0} → ℕ → Result (FileRecord S) → OpResult S
got op (ok r) = record { op = op; found = some r; failed = none }
got op (err e) = failed_op op e

abbrev pub done : {S : Type 0} → ℕ → Result (Unit {0}) → OpResult S
done op (ok _) = record { op = op; found = none; failed = none }
done op (err e) = failed_op op e
