-- ===== src/Fs/Copy.antt =====
-- io.Copy and io.CopyBuffer, as mount, cache and tar call them: read a buffer, write it, until
-- the source reports io.EOF. `none` means that the fuel ran out.
use hackpadfs.Base.{
  ℕ, zero, suc, Text, Bool, true, false, Option, none, some, [], ◌∷◌, ltb, ◌==◌, ◌<◌, ◌≡◌, refl,
  arith, if◌then◌else◌, length,
}
use hackpadfs.Errors.{Error, sentinel, text_error, eof, Result, ok, err}

-- err == io.EOF
abbrev pub is_eof : Error → Bool
is_eof (sentinel eof) = true
is_eof _ = false

abbrev invalid_write : Error
invalid_write = text_error "invalid write result"

abbrev short_write : Error
short_write = text_error "short write"

-- The checks that follow dst.Write(buf[0:nr]).
check_write : ℕ → ℕ × Option Error → Result (Unit {0})
check_write nr (nw, some e) = err e
check_write nr (nw, none) =
    if ltb nr nw then err invalid_write else if nr == nw then ok tt else err short_write

module _ {W : Type 0} (write : Text → W → (ℕ × Option Error) × W) where
  pub write_chunk : Text → W → Result (Unit {0}) × W
  unfolding check_write
  write_chunk [] w = (ok tt, w)
  write_chunk (c ∷ s) w = let (r, w') = write (c ∷ s) w in (check_write (length (c ∷ s)) r, w')

  unfoldable pub copy :
      ℕ → ℕ → (ℕ → W → (Text × Option Error) × W) → W → Option (Result (Unit {0}) × W)
  unfolding write_chunk
  copy zero buffer read w = none
  copy (suc fuel) buffer read w =
      let ((bytes, ended), w1) = read buffer w in
      let (written, w2) = write_chunk bytes w1 in
      elim written [
        | err e ↦ some (err e, w2)
        | ok _ ↦ elim ended [
          | none ↦ copy fuel buffer read w2
          | some e ↦ some (if is_eof e then ok tt else err e, w2)
        ]
      ]

  -- The rounds of a writer that takes all bytes.
  pub write_chunk-all :
      (s : Text) (w w' : W)
      → 0 < length s
      → write s w ≡ ((length s, none), w')
      → write_chunk s w ≡ (ok tt, w')
  unfolding write_chunk check_write
  write_chunk-all [] w w' some_bytes e = absurd (omega arith)
  write_chunk-all (c ∷ s) w w' some_bytes e = rw (e) (ground arith)

  pub write_chunk-nothing : (w : W) → write_chunk [] w ≡ (ok tt, w)
  unfolding write_chunk
  write_chunk-nothing w = refl

  module _ (buffer : ℕ) (read : ℕ → W → (Text × Option Error) × W) {w w1 w2 : W} {bytes : Text}
      (accepted : write_chunk bytes w1 ≡ (ok tt, w2)) where
    pub copy-last :
        (fuel : ℕ)
        → read buffer w ≡ ((bytes, some (sentinel eof)), w1)
        → copy (suc fuel) buffer read w ≡ some (ok tt, w2)
    unfolding copy
    copy-last fuel e = rw (copy, e, accepted, e, e, accepted)

    pub copy-more :
        (fuel : ℕ)
        → read buffer w ≡ ((bytes, none), w1)
        → copy (suc fuel) buffer read w ≡ copy fuel buffer read w2
    unfolding copy
    copy-more fuel e = rw (copy, e, accepted, e, e, accepted)
