-- ===== src/Tar/Bytes.antt =====
-- A large file of the archive gets its bytes, all of them and in order, whatever the buffers.
use hackpadfs.Base.{
  ℕ, zero, suc, ◌+◌, ◌<◌, Text, Option, none, some, [], ◌∷◌, ◌++◌, ◌≡◌, ap, sym, ◌∙◌, arith, ltb,
  length, take, drop, length-drop, take-append-drop, append-nil, append_assoc, Bool-cases, inl, inr,
}
use hackpadfs.Errors.{Error, ok}
use hackpadfs.Fs.{File}
use hackpadfs.Fs.Copy.{
  copy, write_chunk, write_chunk-all, write_chunk-nothing, copy-last, copy-more,
}
use hackpadfs.Tar.Read.{read_full, read_rest, big_buffer, copy_rest, write_contents, BaseFs}

-- A file whose Write takes all bytes and puts them behind those it has: `written` reads them off
-- the world.
module _ {W : Type 0} (write : Text → W → (ℕ × Option Error) × W) (written : W → Text)
    (appends : (s : Text) (w : W)
      → (w' : W) × (write s w ≡ ((length s, none), w')) × (written w' ≡ written w ++ s)) where
  abbrev beside : Text → W × Text → (ℕ × Option Error) × (W × Text)
  beside s (w, t) = let (r, w') = write s w in (r, (w', t))

  chunk-appends :
      (s t : Text) (w : W)
      → (w' : W) × (write_chunk beside s (w, t) ≡ (ok tt, (w', t))) × (written w' ≡ written w ++ s)
  chunk-appends [] t w = (w, write_chunk-nothing beside (w, t), sym (append-nil (written w)))
  chunk-appends (c ∷ s) t w =
      let (w', e, more) = appends (c ∷ s) w in
      (w', write_chunk-all beside (c ∷ s) (w, t) (w', t) (omega arith) (rw e), more)

  -- io.CopyBuffer with a buffer that is not empty and fuel for each byte and two.
  copy-appends :
      (fuel size : ℕ) (rest : Text) (w : W)
      → 0 < size
      → length rest + 1 < fuel
      → (w' : W) × (t : Text) × (copy beside fuel size (read_rest none) (w, rest)
          ≡ some (ok tt, (w', t)))
        × (written w' ≡ written w ++ rest)
  unfolding read_rest read_full
  copy-appends zero size rest w some_size enough = absurd (omega arith)
  copy-appends (suc fuel) size rest w some_size enough =
      elim (Bool-cases (ltb (length rest) size)) [
        | inl last ↦
            let (w', e, more) = chunk-appends rest (drop size rest) w in
            (w', drop size rest, copy-last beside size (read_rest none) e fuel (rw last), more)
        | inr longer ↦
            let (w1, e1, more1) = chunk-appends (take size rest) (drop size rest) w in
            let (w2, t, e2, more2) =
              copy-appends fuel size (drop size rest) w1 some_size
                (grind (arith, length-drop size rest)) in
            (
              w2,
              t,
              copy-more beside size (read_rest none) e1 fuel (rw longer) ∙ e2,
              more2
                  ∙ ap (λ x. x ++ drop size rest) more1
                  ∙ append_assoc (written w) _ _
                  ∙ ap (λ x. written w ++ x) (take-append-drop size rest),
            )
      ]

  copy_rest-appends :
      (base : BaseFs W) (rest : Text) (w : W)
      → (w' : W) × (t : Text) × (copy_rest base write rest none w ≡ some (ok tt, (w', t)))
        × (written w' ≡ written w ++ rest)
  unfolding copy_rest
  copy_rest-appends base rest w =
      copy-appends (suc (suc (length rest))) big_buffer rest w (omega arith) (omega arith)

  -- Write of the first buffer and io.CopyBuffer of the rest: where Write of the file takes all bytes
  -- and puts them behind those it has, and the archive is read without an error, writeFile of a
  -- large file ends without an error, with all bytes of the file in order.
  pub write_contents-appends :
      (base : BaseFs W) (f : File W) (initial rest : Text) (w : W)
      → f.write ≡ some write
      → (w' : W) × (write_contents base f initial (some (rest, none)) w ≡ some (ok tt, w'))
        × (written w' ≡ written w ++ (initial ++ rest))
  unfolding write_contents
  write_contents-appends base f initial rest w writes =
      let (w1, e1, more1) = appends initial w in
      let (w2, t, e2, more2) = copy_rest-appends base rest w1 in
      (
        w2,
        rw (writes, e1, e1, e2),
        more2 ∙ ap (λ x. x ++ rest) more1 ∙ append_assoc (written w) _ _,
      )
