-- ===== src/Blob.antt =====
-- Bytes of keyvalue/blob/bytes.go over a heap. An array is the memory behind Go slices, as long
-- as its capacity; a slice is a window of an array; a *Bytes is an index into `blobs`.
mod Tests
pub mod Contents
pub mod Copies
pub mod Writes
pub mod Sizes
pub mod Grow
pub mod Dispatch
use hackpadfs.Base.{
  ℕ, ◌+◌, ◌-◌, ◌≤◌, min, Text, Bool, true, false, ◌&&◌, ◌||◌, List, [], ◌∷◌, ◌++◌, ltb, leb, ◌==◌,
  if◌then◌else◌, length, take, drop, replicate, get_or, set, overwrite, window,
}
use hackpadfs.Base.Int.{ℤ, pos, negsuc, ltb_ℤ}
use hackpadfs.Errors.{Error, text_error, Result, ok, err}

-- The struct Bytes: the slice `bytes`, the field `length`, and which mutex `mu` points to.
pub record Bytes : Type 0 where
  pub array : ℕ
  pub off : ℕ
  pub len : ℕ
  pub length_field : ℕ
  pub mu : ℕ

pub record Heap : Type 0 where
  pub arrays : List Text
  pub blobs : List Bytes
  pub mutexes : ℕ

-- A call returns, or panics, or waits forever for a mutex that it holds itself.
pub data Outcome (A : Type 0) : Type 0 where
  returns : A → Outcome A
  panics : Outcome A
  blocks : Outcome A

infixl 5 ◌>>=◌
abbrev pub ◌>>=◌ : {A B : Type 0} → Outcome A → (A → Outcome B) → Outcome B
returns a >>= f = f a
panics >>= f = panics
blocks >>= f = blocks

abbrev pub no_bytes : Bytes
no_bytes = record { array = 0; off = 0; len = 0; length_field = 0; mu = 0 }

abbrev pub blob : Heap → ℕ → Bytes
blob h r = get_or h.blobs r no_bytes

abbrev pub array_of : Heap → ℕ → Text
array_of h a = get_or h.arrays a []

-- The bytes that a slice shows.
abbrev pub shown : Heap → Bytes → Text
shown h b = window b.off b.len (array_of h b.array)

-- make([]byte, n) or a literal: a new array.
unfoldable pub alloc : Text → Heap → ℕ × Heap
alloc s h = (length h.arrays, record h { arrays = h.arrays ++ (s ∷ []) })

-- A new *Bytes.
unfoldable pub add_blob : Bytes → Heap → ℕ × Heap
add_blob b h = (length h.blobs, record h { blobs = h.blobs ++ (b ∷ []) })

-- NewBytes(buf)
unfoldable pub new_bytes : (array off len : ℕ) → Heap → ℕ × Heap
unfolding add_blob
new_bytes array off len h =
    add_blob (record { array = array; off = off; len = len; length_field = len; mu = h.mutexes })
      (record h { mutexes = h.mutexes + 1 })

-- NewBytes over bytes that no one else holds.
unfoldable pub new_bytes_of : Text → Heap → ℕ × Heap
unfolding alloc new_bytes
new_bytes_of s h = let (a, h') = alloc s h in new_bytes a 0 (length s) h'

-- NewBytesLength
unfoldable new_bytes_length : ℕ → Heap → ℕ × Heap
unfolding new_bytes_of
new_bytes_length n h = new_bytes_of (replicate n 0) h

-- Bytes.Len
unfoldable pub blob_len : Heap → ℕ → ℕ
blob_len h r = (blob h r).length_field

abbrev pub out_of : ℤ → ℕ → Bool
out_of i len = ltb_ℤ i (pos 0) || ltb_ℤ (pos len) i

abbrev bad_start : Error
bad_start = text_error "Start index out of bounds"

abbrev bad_end : Error
bad_end = text_error "End index out of bounds"

abbrev pub nat_of : ℤ → ℕ
nat_of (pos n) = n
nat_of (negsuc n) = 0

-- Bytes.View: b.bytes[start:end] panics where the end is in front of the start. The new blob
-- shares the array and the mutex.
unfoldable pub view : ℕ → ℤ → ℤ → Heap → Outcome (Result ℕ × Heap)
unfolding blob_len add_blob
view r start end h =
    let b = blob h r in
    if out_of start (blob_len h r)
    then returns (err bad_start, h)
    else if out_of end (blob_len h r)
    then returns (err bad_end, h)
    else if ltb_ℤ end start
    then panics
    else let len = nat_of end - nat_of start in
      let (r', h') =
        add_blob (record b { off = b.off + nat_of start; len = len; length_field = len }) h in
      returns (ok r', h')

-- Bytes.Slice: make panics on a negative length, and copy begins at the front of b.bytes.
unfoldable pub slice : ℕ → ℤ → ℤ → Heap → Outcome (Result ℕ × Heap)
unfolding blob_len new_bytes_of
slice r start end h =
    if out_of start (blob_len h r)
    then returns (err bad_start, h)
    else if out_of end (blob_len h r)
    then returns (err bad_end, h)
    else if ltb_ℤ end start
    then panics
    else let n = nat_of end - nat_of start in
      let buf = overwrite 0 (take n (shown h (blob h r))) (replicate n 0) in
      let (r', h') = new_bytes_of buf h in returns (ok r', h')

-- The result of Slice inside Bytes: an error becomes a panic.
unfoldable pub copied : Result ℕ × Heap → Outcome (Text × Heap)
copied (ok r, h) = returns (shown h (blob h r), h)
copied (err e, h) = panics

-- Bytes.Bytes: a copy, through Slice.
unfoldable pub bytes : ℕ → Heap → Outcome (Text × Heap)
bytes r h = slice r (pos 0) (pos (blob_len h r)) h >>= copied

-- copy(b.bytes[start:], s): as much of s as the slice has room for.
unfoldable pub copy_into : ℕ → ℕ → Text → Heap → ℕ × Heap
copy_into r start s h =
    let b = blob h r in
    let n = min (b.len - start) (length s) in
    (
      n,
      record h {
        arrays = set h.arrays b.array (overwrite (b.off + start) (take n s) (array_of h b.array));
      },
    )

unfoldable is_held : ℕ → List ℕ → Bool
is_held mu [] = false
is_held mu (m ∷ ms) = if mu == m then true else is_held mu ms

-- mu.Lock() in a call that holds the mutexes `held`. No mutex is held between calls, so that these
-- are all that are locked; a mutex that the call holds itself is waited for forever.
unfoldable pub lock : List ℕ → ℕ → Outcome (List ℕ)
unfolding is_held
lock held mu = if is_held mu held then blocks else returns (mu ∷ held)

-- Bytes.Bytes in a call that holds the mutexes `held`.
unfoldable bytes_holding : List ℕ → ℕ → Heap → Outcome (Text × Heap)
bytes_holding held r h = lock held (blob h r).mu >>= λ _. bytes r h

-- b.mu is locked, and src.Bytes() is copied.
unfoldable pub set_locked : ℕ → ℕ → ℕ → Heap → Outcome (Result ℕ × Heap)
unfolding lock bytes_holding
set_locked r src start h = if ltb (blob h r).len start then panics else do
  held ← lock [] (blob h r).mu
  (s, h1) ← bytes_holding held src h
  let (n, h2) = copy_into r start s h1 in returns (ok n, h2)

-- Bytes.Set
unfoldable pub set_blob : ℕ → ℕ → ℤ → Heap → Outcome (Result ℕ × Heap)
set_blob r src start h =
    if ltb_ℤ start (pos 0)
    then returns (err (text_error "negative offset"), h)
    else if leb (blob_len h r) (nat_of start) && nat_of start == 0 && ltb 0 (blob_len h src)
    then returns (err (text_error "Offset out of bounds"), h)
    else set_locked r src (nat_of start) h

-- append(b.bytes, make([]byte, n)...): in place where the capacity is enough, else in a new
-- array with `spare` bytes of capacity left over.
unfoldable pub append_zeros : ℕ → ℕ → ℕ → Heap → Heap
unfolding alloc
append_zeros spare r n h =
    let b = blob h r in
    let size = b.len + n in
    if leb (b.off + size) (length (array_of h b.array))
    then record h {
      arrays =
          set h.arrays b.array (overwrite (b.off + b.len) (replicate n 0) (array_of h b.array));
      blobs = set h.blobs r (record b { len = size; length_field = size });
    }
    else let (a, h') = alloc (shown h b ++ (replicate n 0 ++ replicate spare 0)) h in
      record h' {
        blobs = set h'.blobs r (record b { array = a; off = 0; len = size; length_field = size });
      }

-- Bytes.Grow. How much capacity append adds is up to Go: `spare` is any function of the lengths.
unfoldable pub grow : (ℕ → ℕ → ℕ) → ℕ → ℤ → Heap → Outcome (Result (Unit {0}) × Heap)
grow spare r (pos n) h = returns (ok tt, append_zeros (spare (blob h r).len n) r n h)
grow spare r (negsuc n) h = panics

-- Bytes.Truncate
unfoldable pub truncate : ℕ → ℤ → Heap → Outcome (Result (Unit {0}) × Heap)
unfolding blob_len
truncate r (pos size) h =
    if ltb (blob_len h r) size
    then returns (ok tt, h)
    else returns (
      ok tt,
      record h { blobs = set h.blobs r (record (blob h r) { len = size; length_field = size }) },
    )
truncate r (negsuc size) h = panics
