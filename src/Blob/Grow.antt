-- ===== src/Blob/Grow.antt =====
-- Grow: Go's append in place, or in a new array.
use hackpadfs.Base.{
  ℕ, ◌+◌, ◌≤◌, ◌<◌, Text, [], ◌∷◌, ◌++◌, ◌≡◌, refl, ap, sym, ◌∙◌, arith, length, length-append,
  take, take-append, replicate, length-replicate, get_or-append, get_or-append_new, window,
  window-overwrite_end, dec_lt, append_assoc,
}
use hackpadfs.Base.Int.{pos}
use hackpadfs.Errors.{ok}
use hackpadfs.Blob.{Bytes, Heap, returns, blob, array_of, shown, alloc, append_zeros, grow}
use hackpadfs.Blob.Contents.{contents, Fits, Fits-Extends, IsValid, Extends}
use hackpadfs.Blob.Copies.{length-contents}
use hackpadfs.Blob.Writes.{patched, patch_array, patch-Written, array_self, Extends-patch}
use hackpadfs.Blob.Sizes.{with_blob, Resized, with_blob-Resized}

module _ (spare : ℕ) (h : Heap) (r n : ℕ) (v : IsValid h) (lt : r < length h.blobs) where
  abbrev size : ℕ
  size = (blob h r).len + n

  abbrev grown : Text
  grown = contents h r ++ replicate n 0

  length-grown : length grown ≡ size
  length-grown = omega (
    arith,
    length-append (contents h r) (replicate n 0),
    length-replicate {A = ℕ} n 0,
    length-contents h r v lt,
  )

  abbrev in_place : Bytes
  in_place = record (blob h r) { len = size; length_field = size }

  abbrev zeroed : Heap
  zeroed = patched h r (blob h r).len (replicate n 0)

  -- In place: the zeros are written behind the slice, which then shows them.
  append_zeros-in_place :
      (blob h r).off + size ≤ length (array_of h (blob h r).array)
      → append_zeros spare r n h ≡ with_blob zeroed r in_place
  unfolding append_zeros with_blob patched
  append_zeros-in_place fits = ground arith

  abbrev moved : Bytes
  moved = record (blob h r) { array = length h.arrays; off = 0; len = size; length_field = size }

  abbrev new_array : Text
  new_array = contents h r ++ (replicate n 0 ++ replicate spare 0)

  -- In a new array, where the old one has no room.
  append_zeros-moved :
      length (array_of h (blob h r).array) < (blob h r).off + size
      → append_zeros spare r n h ≡ with_blob (alloc new_array h).1 r moved
  unfolding append_zeros with_blob alloc
  append_zeros-moved short = ground arith

  shown-in_place :
      (blob h r).off + size ≤ length (array_of h (blob h r).array) → shown zeroed in_place ≡ grown
  shown-in_place fits =
      let b = blob h r in
      let zeros = replicate {A = ℕ} n 0 in
      let e = length-replicate {A = ℕ} n 0 in
      ap (window b.off size) (array_self h r b.len zeros v lt)
      ∙ ap (λ m. window b.off (b.len + m) (patch_array h r b.len zeros)) (sym e)
      ∙ window-overwrite_end b.off b.len zeros (array_of h b.array) (omega (arith, e))

  in_place-Resized :
      (blob h r).off + size ≤ length (array_of h (blob h r).array)
      → Resized h (with_blob zeroed r in_place) r grown
  in_place-Resized fits =
      let b = blob h r in
      let zeros = replicate {A = ℕ} n 0 in
      let w = patch-Written h r b.len zeros v lt in
      let x = Extends-patch h r b.len zeros v lt in
      let f : Fits zeroed in_place = record {
        array_lt = omega (arith, x.arrays_le, (v r lt).array_lt);
        within = omega (arith, x.lengths b.array (v r lt).array_lt);
        length_eq = refl;
        mu_lt = omega (arith, x.mutexes_le, (v r lt).mu_lt);
      } in
      let z =
        with_blob-Resized zeroed r in_place w.valid (unfold patched in lt) f grown
          (shown-in_place fits) length-grown in
      record {
        valid = z.valid;
        count = z.count ∙ unfold patched in refl;
        shows = z.shows;
        len = z.len;
        others =
            λ q lq ne. z.others q (unfold patched in lq) (unfold patched in ne) ∙ w.others q lq ne;
      }

  abbrev after_alloc : Heap
  after_alloc = (alloc new_array h).1

  Extends-alloc : Extends h after_alloc
  unfolding alloc
  Extends-alloc = record {
    arrays_le = omega (arith, length-append h.arrays (new_array ∷ []));
    lengths = λ a la. ap length (get_or-append h.arrays (new_array ∷ []) a [] la);
    mutexes_le = omega arith;
  }

  array-alloc : array_of after_alloc (length h.arrays) ≡ new_array
  unfolding alloc
  array-alloc = get_or-append_new h.arrays new_array []

  IsValid-alloc : IsValid after_alloc
  IsValid-alloc q lq = after_alloc-Fits q (unfold alloc in lq)
    where
      after_alloc-Fits : (q : ℕ) → q < length h.blobs → Fits after_alloc (blob after_alloc q)
      after_alloc-Fits q lq = unfold alloc in (Fits-Extends (blob h q) Extends-alloc (v q lq))

  same_alloc : (q : ℕ) → q < length h.blobs → contents after_alloc q ≡ contents h q
  unfolding alloc
  same_alloc q lq =
      ap (window (blob h q).off (blob h q).len)
        (get_or-append h.arrays (new_array ∷ []) (blob h q).array [] (v q lq).array_lt)

  shown-moved : shown after_alloc moved ≡ grown
  shown-moved =
      ap (window 0 size) array-alloc
      ∙ ap (take size) (sym (append_assoc (contents h r) (replicate n 0) (replicate spare 0)))
      ∙ ap (λ m. take m (grown ++ replicate spare 0)) (sym length-grown)
      ∙ take-append grown (replicate spare 0)

  moved-Resized : Resized h (with_blob after_alloc r moved) r grown
  moved-Resized =
      let x = Extends-alloc in
      let f : Fits after_alloc moved = record {
        array_lt = unfold alloc in omega (arith, length-append h.arrays (new_array ∷ []));
        within = omega (
          arith,
          ap length array-alloc,
          length-append {A = ℕ} (contents h r) (replicate n 0 ++ replicate spare 0),
          length-append {A = ℕ} (replicate n 0) (replicate spare 0),
          length-replicate {A = ℕ} n 0,
          length-contents h r v lt,
        );
        length_eq = refl;
        mu_lt = omega (arith, x.mutexes_le, (v r lt).mu_lt);
      } in
      let z =
        with_blob-Resized after_alloc r moved IsValid-alloc (unfold alloc in lt) f grown shown-moved
          length-grown in
      record {
        valid = z.valid;
        count = z.count ∙ unfold alloc in refl;
        shows = z.shows;
        len = z.len;
        others = λ q lq ne. z.others q (unfold alloc in lq) (unfold alloc in ne) ∙ same_alloc q lq;
      }

  append_zeros-Resized : Resized h (append_zeros spare r n h) r grown
  append_zeros-Resized =
      elim (dec_lt (length (array_of h (blob h r).array)) ((blob h r).off + size)) [
        | yes short ↦ rw (append_zeros-moved short) moved-Resized
        | no room ↦
            let fits : (blob h r).off + size ≤ length (array_of h (blob h r).array) = omega arith in
            rw (append_zeros-in_place fits) (in_place-Resized fits)
      ]

-- Grow by n puts n zero bytes behind the blob's own, whether Go's append finds room in the array
-- or moves the bytes to a new one, of any capacity; blobs on other arrays keep their bytes.
pub grow-Resized :
    (spare : ℕ → ℕ → ℕ) (h : Heap) (r n : ℕ)
    → IsValid h
    → r < length h.blobs
    → (k : Heap) × (grow spare r (pos n) h ≡ returns (ok tt, k))
      × Resized h k r (contents h r ++ replicate n 0)
grow-Resized spare h r n v lt =
    let m = spare (blob h r).len n in
    (append_zeros m r n h, unfold grow in refl, append_zeros-Resized m h r n v lt)
