-- ===== src/Mem.antt =====
-- The in-memory store of mem/store.go: records by path, with their blobs on a heap, behind the
-- mutex that a transaction holds from its start to its end.
mod Tests
mod FileTests
pub mod Samples
pub mod Records
pub mod Calls
pub mod Spec
pub mod Refines
pub mod Children
pub mod ChildNames
pub mod Tree
pub mod Lookup
pub mod Keeps
pub mod Renames
pub mod Founds
pub mod Opens
pub mod Fs
use hackpadfs.Base.{
  ℕ, ◌+◌, Text, text_eq, has_prefix, trim_prefix, Bool, true, false, ◌&&◌, ◌||◌, not, Option, none,
  some, List, [], ◌∷◌, ◌++◌, ◌==◌, if◌then◌else◌,
}
use hackpadfs.Errors.{Error, sentinel, canceled, err_not_dir, err_not_exist, Result, ok, err}
use hackpadfs.FilePath.{slash, dot}
use hackpadfs.Modes.{is_dir}
use hackpadfs.Blob.{
  Heap, Outcome, returns, panics, blocks, ◌>>=◌, blob_len, new_bytes_of, bytes, view, set_blob,
  grow, truncate,
}
use hackpadfs.KeyValue.{
  FileRecord, OpResult, Txn, Handler, Transaction, Store, first_error, failed_op, got, done,
}

-- The fields of a fileRecord but the path, which is its key, and the store.
pub record Entry : Type 0 where
  pub contents : ℕ
  pub mode : ℕ
  pub mod_time : ℕ

pub record Mem : Type 0 where
  pub records : List (Text × Entry)
  pub locked : Bool
  pub heap : Heap
  pub clock : ℕ

unfoldable pub load : Text → List (Text × Entry) → Option Entry
unfolding text_eq
load p [] = none
load p ((q, e) ∷ records) = if text_eq q p then some e else load p records

unfoldable pub delete : Text → List (Text × Entry) → List (Text × Entry)
unfolding text_eq
delete p [] = []
delete p ((q, e) ∷ records) = if text_eq q p then delete p records else (q, e) ∷ delete p records

-- sync.Map.Store
unfoldable pub put : Text → Entry → List (Text × Entry) → List (Text × Entry)
unfolding delete
put p e records = (p, e) ∷ delete p records

unfoldable pub has_slash : Text → Bool
has_slash [] = false
has_slash (c ∷ s) = c == slash || has_slash s

-- The function that ReadDirNames hands to Range.
unfoldable pub child_name : Text → Text → Option Text
child_name dir key =
    let is_root = text_eq dir dot in
    let prefix = if is_root then [] else dir ++ (slash ∷ []) in
    let name = trim_prefix key prefix in
    if has_prefix key prefix && not (has_slash name) && not (is_root && text_eq name dot)
    then some name
    else none

abbrev pub add_child : Option Text → List Text → List Text
add_child none names = names
add_child (some name) names = name ∷ names

unfoldable pub child_names : Text → List (Text × Entry) → List Text
child_names dir [] = []
child_names dir ((key, e) ∷ records) = add_child (child_name dir key) (child_names dir records)

-- fileRecord.ReadDirNames
unfoldable pub read_dir_names : Text → Entry → Mem → Result (List Text)
unfolding child_names is_dir
read_dir_names path e s =
    if is_dir e.mode then ok (child_names path s.records) else err (sentinel err_not_dir)

-- A fileRecord as the FileRecord that it is.
unfoldable pub file_record : Text → Entry → FileRecord Mem
unfolding read_dir_names blob_len
file_record path e = record {
  data_of = λ s. (ok e.contents, s);
  dir_names = read_dir_names path e;
  size = λ s. blob_len s.heap e.contents;
  mode = e.mode;
  mod_time = e.mod_time;
}

-- store.Get
unfoldable pub mem_get : Text → Mem → Result (FileRecord Mem) × Mem
unfolding load file_record
mem_get path s = elim (load path s.records) [
  | none ↦ (err (sentinel err_not_exist), s)
  | some e ↦ (ok (file_record path e), s)
]

-- store.set
unfoldable pub mem_set : Text → Option (FileRecord Mem) → Mem → Result (Unit {0}) × Mem
unfolding put delete
mem_set path none s = (ok tt, record s { records = delete path s.records })
mem_set path (some src) s =
    let (d, s1) = src.data_of s in
    elim d [
      | err e ↦ (err e, s1)
      | ok r ↦
          let e : Entry = record { contents = r; mode = src.mode; mod_time = src.mod_time } in
          (ok tt, record s1 { records = put path e s1.records })
    ]

-- store.Set: Data is asked for here, and again by `set`.
mem_store_set : Text → Option (FileRecord Mem) → Mem → Result (Unit {0}) × Mem
unfolding mem_set
mem_store_set path none s = mem_set path none s
mem_store_set path (some src) s =
    let (d, s1) = src.data_of s in
    elim d [ err e ↦ (err e, s1) | ok r ↦ mem_set path (some src) s1 ]

-- The results are appended as they come.
unfoldable pub append_result : OpResult Mem → Txn Mem → Txn Mem
append_result r t = record t { results = t.results ++ (r ∷ []) }

unfoldable pub mem_handle : Handler Mem → OpResult Mem → Txn Mem → Mem → Outcome (ℕ × Txn Mem × Mem)
unfolding append_result
mem_handle handler r t s = do
  (handled, t', s') ← handler t s r
  returns (r.op, append_result (record r { failed = first_error r.failed handled }) t', s')

-- GetHandler. prepOp of an aborted transaction gives 0 and the context's error.
unfoldable pub mem_get_handler : Text → Handler Mem → Txn Mem → Mem → Outcome (ℕ × Txn Mem × Mem)
mem_get_handler path handler t s =
    if t.aborted
    then returns (0, append_result (failed_op 0 (sentinel canceled)) t, s)
    else let op = t.next_op in
      let (r, s1) = mem_get path s in
      mem_handle handler (got op r) (record t { next_op = op + 1 }) s1

-- SetHandler
unfoldable pub mem_set_handler :
    Text → Option (FileRecord Mem) → Handler Mem → Txn Mem → Mem → Outcome (ℕ × Txn Mem × Mem)
mem_set_handler path src handler t s =
    if t.aborted
    then returns (0, append_result (failed_op 0 (sentinel canceled)) t, s)
    else let op = t.next_op in
      let (r, s1) = mem_set path src s in
      mem_handle handler (done op r) (record t { next_op = op + 1 }) s1

-- s.mu.Unlock(): a fatal error where the mutex is not locked.
unfoldable pub unlock : Mem → Outcome Mem
unlock s = if s.locked then returns (record s { locked = false }) else panics

-- Commit
unfoldable pub mem_commit : Txn Mem → Mem → Outcome (Result (List (OpResult Mem)) × Mem)
unfolding unlock
mem_commit t s = do s' ← unlock s; returns (ok t.results, s')

-- Abort
unfoldable pub mem_abort : Txn Mem → Mem → Outcome Mem
unfolding unlock
mem_abort t s = unlock s

unfoldable pub mem_transaction : Transaction Mem
mem_transaction = record {
  get_handler = mem_get_handler;
  set_handler = mem_set_handler;
  commit = mem_commit;
  abort = mem_abort;
}

-- store.Transaction: the mutex is locked, which waits forever if nobody will unlock it.
unfoldable pub mem_begin : Mem → Outcome (Result (Transaction Mem) × Mem)
unfolding mem_transaction
mem_begin s = if s.locked then blocks else returns (ok mem_transaction, record s { locked = true })

-- NewBytes of a buffer.
abbrev pub blob_of : Text → Mem → ℕ × Mem
blob_of buf s = let (r, h) = new_bytes_of buf s.heap in (r, record s { heap = h })

-- A method of a blob, on the heap of the store.
abbrev on_heap : {A : Type 0} → (Heap → Outcome (A × Heap)) → Mem → Outcome (A × Mem)
on_heap f s = f s.heap >>= λ (a, h). returns (a, record s { heap = h })

-- The store as the Store that keyvalue.FS is given.
unfoldable pub mem_store : Store Mem
unfolding mem_get mem_store_set mem_begin new_bytes_of blob_len
mem_store = record {
  get = mem_get;
  set = mem_store_set;
  begin = some mem_begin;
  now = λ s. s.clock;
  new_blob = blob_of [];
  blob_length = λ s. blob_len s.heap;
  blob_of = blob_of;
  blob_bytes = λ r. on_heap (bytes r);
  blob_view = λ r start end. on_heap (view r start end);
  blob_set = λ r src start. on_heap (set_blob r src start);
  blob_grow = λ r n. on_heap (grow (λ len more. more) r n);
  blob_truncate = λ r size. on_heap (truncate r size);
}

-- newStore
unfoldable pub new_store : ℕ → Mem
new_store clock = record {
  records = [];
  locked = false;
  heap = record { arrays = []; blobs = []; mutexes = 0 };
  clock = clock;
}
