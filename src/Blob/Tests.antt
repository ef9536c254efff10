-- ===== src/Blob/Tests.antt =====
-- Blobs on a concrete heap: "hello", "bye", a view of the first, and a blob with its mutex.
use hackpadfs.Base.{
  ℕ, none, ◌-◌, ◌<◌, min, codes, [], ◌++◌, ◌≡◌, ◌≢◌, refl, arith, length, take, replicate,
}
use hackpadfs.Base.Int.{pos}
use hackpadfs.Errors.{ok}
use hackpadfs.Blob.{
  new_bytes, is_held, lock, bytes_holding, set_locked, bytes, copied, copy_into, append_zeros, Heap,
  returns, blocks, blob, new_bytes_of, blob_len, slice, set_blob, grow, view, add_blob,
}
use hackpadfs.Blob.Contents.{contents, IsValid, Made, new_bytes_of-Made}
use hackpadfs.Blob.Copies.{slice-Made}
use hackpadfs.Blob.Writes.{Written, set_blob-Written}
use hackpadfs.Blob.Sizes.{Resized}
use hackpadfs.Blob.Dispatch.{
  other, of_bytes, State, Kinds, Slice, slice_text, on_copy, set_bytes, set_any, grow_any, view_any,
}
use hackpadfs.Blob.Grow.{grow-Resized}

abbrev nothing : Heap
nothing = record { arrays = []; blobs = []; mutexes = 0 }

nothing-IsValid : IsValid nothing
nothing-IsValid r lt = absurd (omega arith)

abbrev hello : Heap
hello = (new_bytes_of (codes "hello") nothing).1

abbrev both : Heap
both = (new_bytes_of (codes "bye") hello).1

both-IsValid : IsValid both
both-IsValid =
    (new_bytes_of-Made hello (codes "bye")
      (new_bytes_of-Made nothing (codes "hello") nothing-IsValid).valid).valid

first-there : 0 < length both.blobs
unfolding new_bytes_of
first-there = omega arith

second-there : 1 < length both.blobs
unfolding new_bytes_of
second-there = omega arith

hello-len : blob_len both 0 ≡ 5
unfolding new_bytes_of blob_len
hello-len = refl

blob_tests :
    (contents both 0 ≡ codes "hello") × (contents both 1 ≡ codes "bye") × (blob_len both 1 ≡ 3)
unfolding new_bytes_of blob_len
blob_tests = (refl, refl, refl)

slice-Made_example :
    (r' : ℕ) × (k : Heap) × (slice 0 (pos 1) (pos 3) both ≡ returns (ok r', k))
    × Made both k r' (take 2 (contents both 0))
slice-Made_example =
    slice-Made both 0 1 3 both-IsValid first-there (omega arith) (omega (arith, hello-len))

apart : (blob both 1).mu ≢ (blob both 0).mu
unfolding new_bytes_of
apart = omega arith

set_blob-Written_example :
    (k : Heap) × (set_blob 0 1 (pos 3) both
      ≡ returns (ok (min (blob_len both 0 - 3) (blob_len both 1)), k))
    × Written both k 0 3 (take (min (blob_len both 0 - 3) (blob_len both 1)) (contents both 1))
set_blob-Written_example =
    set_blob-Written both 0 1 3 both-IsValid first-there second-there (omega (arith, hello-len))
      (omega (arith, hello-len)) apart

grow-Resized_example :
    (k : Heap) × (grow (λ len n. n) 0 (pos 4) both ≡ returns (ok tt, k))
    × Resized both k 0 (contents both 0 ++ replicate 4 0)
grow-Resized_example = grow-Resized (λ len n. n) both 0 4 both-IsValid first-there

-- The source is the blob itself.
set_self : set_blob 0 0 (pos 1) both ≡ blocks
unfolding set_blob set_locked lock is_held new_bytes_of blob_len
set_self = refl

-- A kind of blob with no optional interface, whose Bytes gives a slice that it keeps.
abbrev plain_kind : Kinds (Unit {0}) Slice
plain_kind = record {
  bytes = λ held k s. returns (s.rest, s);
  len = λ k s. s.rest.len;
  view = λ k. none;
  slice = λ k. none;
  set = λ k. none;
  grow = λ k. none;
  truncate = λ k. none;
}

abbrev kept : State Slice
kept = record { heap = both; rest = record { array = 0; off = 0; len = 3 } }

view_any_tests :
    (r : ℕ) × (s' : State Slice) × (view_any plain_kind (λ len n. n) (other tt) (pos 1) (pos 3) kept
      ≡ returns (ok (of_bytes r), s'))
    × (contents s'.heap r ≡ codes "el")
unfolding view_any on_copy new_bytes new_bytes_of add_blob blob_len view
view_any_tests = (_, _, refl, refl)

-- Set writes into the slice, and Grow leaves it as long as it was and writes behind it.
set_any_tests :
    (s' : State Slice) × (set_any plain_kind (λ len n. n) (other tt) (of_bytes 1) (pos 0) kept
      ≡ returns (ok 3, s'))
    × (slice_text s'.heap s'.rest ≡ codes "bye")
unfolding set_any set_bytes on_copy new_bytes new_bytes_of add_blob blob_len set_blob set_locked
    lock is_held bytes_holding bytes slice copied copy_into
set_any_tests = (_, refl, refl)

grow_any_tests :
    (s' : State Slice) × (grow_any plain_kind (λ len n. n) (other tt) (pos 1) kept
      ≡ returns (ok tt, s'))
    × (slice_text s'.heap s'.rest ≡ codes "hel")
unfolding grow_any on_copy new_bytes new_bytes_of add_blob grow append_zeros
grow_any_tests = (_, refl, refl)
