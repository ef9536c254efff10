-- ===== src/Blob/Dispatch.antt =====
-- keyvalue/blob/blob.go and io.go: the calls on any blob, which may lack the optional interfaces,
-- and on a reader or a writer of blobs.
use hackpadfs.Base.{
  ℕ, Text, Option, none, some, ◌&&◌, ltb, leb, ◌==◌, if◌then◌else◌, length, replicate, overwrite,
  window, List, [],
}
use hackpadfs.Base.Int.{ℤ, pos, negsuc, ltb_ℤ}
use hackpadfs.Errors.{Error, text_error, Result, ok, err}
use hackpadfs.Blob.{
  Heap, Outcome, returns, panics, blocks, ◌>>=◌, blob, array_of, lock, new_bytes, new_bytes_of,
  blob_len, nat_of, view, slice, copy_into, set_blob, grow, truncate,
}

-- A Blob: a *Bytes, or one of another kind.
pub data AnyBlob (K : Type 0) : Type 0 where
  of_bytes : ℕ → AnyBlob K
  other : K → AnyBlob K

-- The heap of the *Bytes, and all that other kinds of blobs, readers and writers keep.
pub record State (W : Type 0) : Type 0 where
  pub heap : Heap
  pub rest : W

-- A Go slice: a window of an array of the heap.
pub record Slice : Type 0 where
  pub array : ℕ
  pub off : ℕ
  pub len : ℕ

abbrev pub slice_text : Heap → Slice → Text
slice_text h s = window s.off s.len (array_of h s.array)

-- The methods of the other kinds. Bytes is told which mutexes of *Bytes its caller holds, and its
-- slice may be one that others hold too.
pub record Kinds (K W : Type 0) : Type 0 where
  pub bytes : List ℕ → K → State W → Outcome (Slice × State W)
  pub len : K → State W → ℕ
  pub view : K → Option (ℤ → ℤ → State W → Outcome (Result (AnyBlob K) × State W))
  pub slice : K → Option (ℤ → ℤ → State W → Outcome (Result (AnyBlob K) × State W))
  pub set : K → Option (AnyBlob K → ℤ → State W → Outcome (Result ℕ × State W))
  pub grow : K → Option (ℤ → State W → Outcome (Result (Unit {0}) × State W))
  pub truncate : K → Option (ℤ → State W → Outcome (Result (Unit {0}) × State W))

-- A reader or a writer: `read n` is Read into a buffer of n bytes.
pub record Reader (K W : Type 0) : Type 0 where
  pub read_blob : Option (ℤ → State W → Outcome ((AnyBlob K × ℕ × Option Error) × State W))
  pub read : ℕ → State W → Outcome ((Text × Option Error) × State W)

record ReaderAt (K W : Type 0) : Type 0 where
  pub read_blob_at : Option (ℤ → ℤ → State W → Outcome ((AnyBlob K × ℕ × Option Error) × State W))
  pub read_at : ℕ → ℤ → State W → Outcome ((Text × Option Error) × State W)

record Writer (K W : Type 0) : Type 0 where
  pub write_blob : Option (AnyBlob K → State W → Outcome ((ℕ × Option Error) × State W))
  pub write : Text → State W → Outcome ((ℕ × Option Error) × State W)

record WriterAt (K W : Type 0) : Type 0 where
  pub write_blob_at : Option (AnyBlob K → ℤ → State W → Outcome ((ℕ × Option Error) × State W))
  pub write_at : Text → ℤ → State W → Outcome ((ℕ × Option Error) × State W)

abbrev pub on_heap : {A W : Type 0} → (Heap → Outcome (A × Heap)) → State W → Outcome (A × State W)
on_heap call s = call s.heap >>= λ (a, h). returns (a, record s { heap = h })

abbrev as_blob :
    {K W : Type 0} → Outcome (Result ℕ × State W) → Outcome (Result (AnyBlob K) × State W)
as_blob (returns (ok r, s)) = returns (ok (of_bytes r), s)
as_blob (returns (err e, s)) = returns (err e, s)
as_blob panics = panics
as_blob blocks = blocks

-- NewBytes of a slice, which it shares.
abbrev new_sharing : {W : Type 0} → Slice × State W → ℕ × State W
new_sharing (b, s) = let (r, h) = new_bytes b.array b.off b.len s.heap in (r, record s { heap = h })

-- NewBytes of a buffer that has just been made.
abbrev new_copy : {W : Type 0} → Text × State W → ℕ × State W
new_copy (t, s) = let (r, h) = new_bytes_of t s.heap in (r, record s { heap = h })

-- Bytes.Bytes in a call that holds the mutexes `held`, as the slice of the copy.
abbrev copied_slice : Result ℕ × Heap → Outcome (Slice × Heap)
copied_slice (err e, h) = panics
copied_slice (ok r, h) =
    let b = blob h r in returns (record { array = b.array; off = b.off; len = b.len }, h)

unfoldable pub bytes_slice : List ℕ → ℕ → Heap → Outcome (Slice × Heap)
bytes_slice held r h =
    lock held (blob h r).mu >>= λ _. slice r (pos 0) (pos (blob_len h r)) h >>= copied_slice

module _ {K W : Type 0} (kinds : Kinds K W) (spare : ℕ → ℕ → ℕ) where
  -- The methods Bytes and Len.
  unfoldable any_bytes : AnyBlob K → State W → Outcome (Slice × State W)
  any_bytes (of_bytes r) s = on_heap (bytes_slice [] r) s
  any_bytes (other k) s = kinds.bytes [] k s

  unfoldable pub any_len : AnyBlob K → State W → ℕ
  any_len (of_bytes r) s = blob_len s.heap r
  any_len (other k) s = kinds.len k s

  -- NewBytes(b.Bytes()), and what is called on it.
  unfoldable pub on_copy :
      {A : Type 0} → K → (ℕ → State W → Outcome (A × State W)) → State W → Outcome (A × State W)
  on_copy k call s = kinds.bytes [] k s >>= λ x. let (r, s') = new_sharing x in call r s'

  -- View
  unfoldable pub view_any : AnyBlob K → ℤ → ℤ → State W → Outcome (Result (AnyBlob K) × State W)
  view_any (of_bytes r) start end s = as_blob (on_heap (view r start end) s)
  view_any (other k) start end s = elim (kinds.view k) [
    | some call ↦ call start end s
    | none ↦ on_copy k (λ r s'. as_blob (on_heap (view r start end) s')) s
  ]

  -- Slice
  unfoldable slice_any : AnyBlob K → ℤ → ℤ → State W → Outcome (Result (AnyBlob K) × State W)
  slice_any (of_bytes r) start end s = as_blob (on_heap (slice r start end) s)
  slice_any (other k) start end s = elim (kinds.slice k) [
    | some call ↦ call start end s
    | none ↦ on_copy k (λ r s'. as_blob (on_heap (slice r start end) s')) s
  ]

  abbrev copied_into : ℕ → ℕ → Slice × State W → Outcome (Result ℕ × State W)
  copied_into r start (b, s) =
      let (n, h) = copy_into r start (slice_text s.heap b) s.heap in
      returns (ok n, record s { heap = h })

  -- Bytes.Set with a source of any kind.
  unfoldable pub set_bytes : ℕ → AnyBlob K → ℤ → State W → Outcome (Result ℕ × State W)
  set_bytes r (of_bytes q) start s = on_heap (set_blob r q start) s
  set_bytes r (other k) start s =
      if ltb_ℤ start (pos 0)
      then returns (err (text_error "negative offset"), s)
      else if leb (blob_len s.heap r) (nat_of start) && nat_of start == 0 && ltb 0 (kinds.len k s)
      then returns (err (text_error "Offset out of bounds"), s)
      else if ltb (blob s.heap r).len (nat_of start)
      then panics
      else lock [] (blob s.heap r).mu >>= λ held.
          kinds.bytes held k s >>= copied_into r (nat_of start)

  -- Set
  unfoldable pub set_any : AnyBlob K → AnyBlob K → ℤ → State W → Outcome (Result ℕ × State W)
  set_any (of_bytes r) src start s = set_bytes r src start s
  set_any (other k) src start s = elim (kinds.set k) [
    | some call ↦ call src start s
    | none ↦ on_copy k (λ r. set_bytes r src start) s
  ]

  -- Grow
  unfoldable pub grow_any : AnyBlob K → ℤ → State W → Outcome (Result (Unit {0}) × State W)
  grow_any (of_bytes r) offset s = on_heap (grow spare r offset) s
  grow_any (other k) offset s = elim (kinds.grow k) [
    | some call ↦ call offset s
    | none ↦ on_copy k (λ r. on_heap (grow spare r offset)) s
  ]

  -- Truncate
  unfoldable truncate_any : AnyBlob K → ℤ → State W → Outcome (Result (Unit {0}) × State W)
  truncate_any (of_bytes r) size s = on_heap (truncate r size) s
  truncate_any (other k) size s = elim (kinds.truncate k) [
    | some call ↦ call size s
    | none ↦ on_copy k (λ r. on_heap (truncate r size)) s
  ]

  -- A buffer of n bytes with what was read in front, and the results of Read.
  abbrev buffered :
      ℕ → (Text × Option Error) × State W → Outcome ((AnyBlob K × ℕ × Option Error) × State W)
  buffered n ((t, e), s) =
      let (r, s') = new_copy (overwrite 0 t (replicate n 0), s) in
      returns ((of_bytes r, length t, e), s')

  -- Read
  unfoldable read_any :
      Reader K W → ℤ → State W → Outcome ((AnyBlob K × ℕ × Option Error) × State W)
  read_any src len s = elim src.read_blob [
    | some call ↦ call len s
    | none ↦ elim len [ pos n ↦ src.read n s >>= buffered n | negsuc n ↦ panics ]
  ]

  -- ReadAt
  unfoldable read_any_at :
      ReaderAt K W → ℤ → ℤ → State W → Outcome ((AnyBlob K × ℕ × Option Error) × State W)
  read_any_at src len offset s = elim src.read_blob_at [
    | some call ↦ call len offset s
    | none ↦ elim len [ pos n ↦ src.read_at n offset s >>= buffered n | negsuc n ↦ panics ]
  ]

  -- Write
  unfoldable write_any : Writer K W → AnyBlob K → State W → Outcome ((ℕ × Option Error) × State W)
  write_any dest src s = elim dest.write_blob [
    | some call ↦ call src s
    | none ↦ any_bytes src s >>= λ (b, s'). dest.write (slice_text s'.heap b) s'
  ]

  -- WriteAt
  unfoldable write_any_at :
      WriterAt K W → AnyBlob K → ℤ → State W → Outcome ((ℕ × Option Error) × State W)
  write_any_at dest src offset s = elim dest.write_blob_at [
    | some call ↦ call src offset s
    | none ↦ any_bytes src s >>= λ (b, s'). dest.write_at (slice_text s'.heap b) offset s'
  ]
