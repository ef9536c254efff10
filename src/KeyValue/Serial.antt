-- ===== src/KeyValue/Serial.antt =====
-- unsafeSerialTransaction and TransactionOrSerial of keyvalue/txn_store.go.
use hackpadfs.Base.{
  ℕ, zero, suc, ◌+◌, Text, Option, none, some, List, [], ◌∷◌, ◌++◌, ◌==◌, if◌then◌else◌,
}
use hackpadfs.Errors.{sentinel, canceled, Result, ok, err}
use hackpadfs.Blob.{Outcome, returns, ◌>>=◌}
use hackpadfs.KeyValue.{
  FileRecord, OpResult, Txn, Handler, Transaction, Store, first_error, failed_op, got, done,
}

module _ {S : Type 0} (store : Store S) where
  -- setResult: the map has one result for each operation.
  unfoldable pub set_result : OpResult S → Txn S → Txn S
  set_result r t = record t { results = r ∷ t.results }

  -- The handler's turn, and the result that is kept.
  unfoldable pub handle : Handler S → OpResult S → Txn S → S → Outcome (ℕ × Txn S × S)
  handle handler r t s = do
    (handled, t', s') ← handler t s r
    returns (r.op, set_result (record r { failed = first_error r.failed handled }) t', s')

  -- GetHandler
  unfoldable pub serial_get : Text → Handler S → Txn S → S → Outcome (ℕ × Txn S × S)
  serial_get path handler t s =
      let op = t.next_op in
      let t1 = record t { next_op = op + 1 } in
      if t.aborted
      then returns (op, set_result (failed_op op (sentinel canceled)) t1, s)
      else let (r, s1) = store.get path s in handle handler (got op r) t1 s1

  -- SetHandler
  unfoldable pub serial_set :
      Text → Option (FileRecord S) → Handler S → Txn S → S → Outcome (ℕ × Txn S × S)
  serial_set path src handler t s =
      let op = t.next_op in
      let t1 = record t { next_op = op + 1 } in
      if t.aborted
      then returns (op, set_result (failed_op op (sentinel canceled)) t1, s)
      else let (r, s1) = store.set path src s in handle handler (done op r) t1 s1

  -- The latest result of an operation, as the map has it, or the zero value.
  result_at : List (OpResult S) → ℕ → OpResult S
  result_at [] op = record { op = 0; found = none; failed = none }
  result_at (r ∷ rs) op = if r.op == op then r else result_at rs op

  -- The results of the first operations, in order.
  unfoldable pub results_upto : List (OpResult S) → ℕ → List (OpResult S)
  unfolding result_at
  results_upto rs zero = []
  results_upto rs (suc n) = results_upto rs n ++ (result_at rs n ∷ [])

  -- Commit; the context that it is given is never done.
  unfoldable pub serial_commit : Txn S → S → Outcome (Result (List (OpResult S)) × S)
  unfolding results_upto
  serial_commit t s =
      if t.aborted
      then returns (err (sentinel canceled), s)
      else returns (ok (results_upto t.results t.next_op), s)

  -- Abort
  unfoldable pub serial_abort : Txn S → S → Outcome S
  serial_abort t s = returns s

  unfoldable pub serial : Transaction S
  serial = record {
    get_handler = serial_get;
    set_handler = serial_set;
    commit = serial_commit;
    abort = serial_abort;
  }

  -- TransactionOrSerial
  unfoldable pub transaction_or_serial : S → Outcome (Result (Transaction S) × S)
  transaction_or_serial s = elim store.begin [
    | some begin ↦ begin s
    | none ↦ returns (ok serial, s)
  ]
