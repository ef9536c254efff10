-- ===== src/KeyValue/HandleLaws.antt =====
-- Where Seek of the handles of keyvalue/file.go goes.
use hackpadfs.Base.{
  ℕ, zero, suc, ◌<◌, ◌^◌, true, false, Bool, ◌&&◌, not, Option, none, some, if◌then◌else◌, ◌≡◌,
  refl, ap, Bool-cases, inl, inr, arith,
}
use hackpadfs.Base.Int.{ℤ, pos, negsuc, ltb_ℤ, add64, wrap64, ◌+ℤ◌}
use hackpadfs.Errors.{Error, sentinel, path_error, err_invalid, Result, ok, err}
use hackpadfs.Blob.{returns}
use hackpadfs.KeyValue.{Store}
use hackpadfs.KeyValue.Files.{FileData, asked_size}
use hackpadfs.KeyValue.Handle.{Handle, seek_from, seek_to, seek}

-- The offsets a file can have, and the numbers an int64 can hold.
abbrev in_file : ℤ → Bool
in_file z = not (ltb_ℤ z (pos 0)) && ltb_ℤ z (pos (2 ^ 63))

abbrev IsInt64 : ℤ → Type 0
IsInt64 (pos n) = n < 2 ^ 63
IsInt64 (negsuc n) = n < 2 ^ 63

-- Where io.Seeker counts from: the start, the offset or the end.
abbrev pub origin : ℕ → ℕ → ℕ → Option ℕ
origin zero at size = some 0
origin (suc zero) at size = some at
origin (suc (suc zero)) at size = some size
origin (suc (suc (suc whence))) at size = none

-- A sum that is an offset of a file is exact, and one that is none is negative, overflow included.
add64-in_file :
    (o : ℕ) (offset : ℤ)
    → o < 2 ^ 63
    → IsInt64 offset
    → in_file (pos o +ℤ offset) ≡ true
    → (add64 (pos o) offset ≡ pos o +ℤ offset) × (ltb_ℤ (add64 (pos o) offset) (pos 0) ≡ false)
unfolding add64 wrap64 ◌+ℤ◌
add64-in_file o (pos n) small word inside = ground arith
add64-in_file o (negsuc n) small word inside = ground arith

add64-outside :
    (o : ℕ) (offset : ℤ)
    → o < 2 ^ 63
    → IsInt64 offset
    → in_file (pos o +ℤ offset) ≡ false
    → ltb_ℤ (add64 (pos o) offset) (pos 0) ≡ true
unfolding add64 wrap64 ◌+ℤ◌
add64-outside o (pos n) small word outside = ground arith
add64-outside o (negsuc n) small word outside = ground arith

sum_from_start : (offset : ℤ) → pos 0 +ℤ offset ≡ offset
unfolding ◌+ℤ◌
sum_from_start (pos n) = ground arith
sum_from_start (negsuc n) = ground arith

module _ {S : Type 0} (store : Store S) where
  -- A handle on a file that is not closed.
  abbrev pub open_handle : FileData S → ℤ → ℕ → Handle S
  open_handle d at flag = record { file_data = some d; listed = none; offset = at; flag = flag }

  -- What io.Seeker asks, on exact sums: an offset that a file can have is returned and gone to, and
  -- all else is refused.
  abbrev pub sought : Handle S → Error → ℤ → Option ℕ → Result ℤ × Handle S
  sought f failed offset none = (err failed, f)
  sought f failed offset (some o) =
      if in_file (pos o +ℤ offset)
      then (ok (pos o +ℤ offset), record f { offset = pos o +ℤ offset })
      else (err failed, f)

  seek_to-sought :
      (f : Handle S) (failed : Error) (o : ℕ) (offset : ℤ)
      → o < 2 ^ 63
      → IsInt64 offset
      → seek_to store failed f (some (add64 (pos o) offset)) ≡ sought f failed offset (some o)
  unfolding seek_to
  seek_to-sought f failed o offset small word = elim (Bool-cases (in_file (pos o +ℤ offset))) [
    | inl inside ↦
        let (exact, fine) = add64-in_file o offset small word inside in rw (fine, inside, exact)
    | inr outside ↦ rw (add64-outside o offset small word outside, outside)
  ]

  -- From the start there is no sum.
  seek_to-start :
      (f : Handle S) (failed : Error) (offset : ℤ)
      → IsInt64 offset
      → seek_to store failed f (some offset) ≡ sought f failed offset (some 0)
  unfolding seek_to
  seek_to-start f failed (pos n) word =
      let inside : in_file (pos n) ≡ true = ground arith in
      let fine : ltb_ℤ (pos n) (pos 0) ≡ false = ground arith in
      rw (sum_from_start (pos n), inside, fine)
  seek_to-start f failed (negsuc n) word =
      let outside : in_file (negsuc n) ≡ false = ground arith in
      let under : ltb_ℤ (negsuc n) (pos 0) ≡ true = ground arith in
      rw (sum_from_start (negsuc n), outside, under)

  -- Seek of an open handle whose file tells its size, at an offset and with a size that an int64
  -- holds: 0, 1 and 2 count from the start, the offset and the end. Where the exact sum is from 0
  -- to 2^63 - 1, Seek returns it and moves there; else, a sum that overflows included, and for any
  -- other whence, it is refused as invalid and the handle does not move.
  pub seek-sought :
      (d : FileData S) (at : ℕ) (flag : ℕ) (offset : ℤ) (whence size : ℕ) (s : S)
      → at < 2 ^ 63
      → size < 2 ^ 63
      → IsInt64 offset
      → asked_size store d s ≡ returns size
      → seek store offset whence (open_handle d (pos at) flag) s
        ≡ returns (
            sought
              (open_handle d (pos at) flag)
              (path_error "seek" d.path (sentinel err_invalid))
              offset
              (origin whence at size))
  unfolding seek seek_from seek_to
  seek-sought d at flag offset zero size s k l word told =
      ap returns (seek_to-start (open_handle d (pos at) flag) _ offset word)
  seek-sought d at flag offset (suc zero) size s k l word told =
      ap returns (seek_to-sought (open_handle d (pos at) flag) _ at offset k word)
  seek-sought d at flag offset (suc (suc zero)) size s k l word told = rw (
    told,
    seek_to-sought (open_handle d (pos at) flag) (path_error "seek" d.path (sentinel err_invalid))
        size offset l word,
  )
  seek-sought d at flag offset (suc (suc (suc whence))) size s k l word told = refl
