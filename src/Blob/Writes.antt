-- ===== src/Blob/Writes.antt =====
-- Set, Grow and Truncate: what a blob, and a view that shares its array, show afterwards.
use hackpadfs.Base.{
  ℕ, ◌+◌, ◌-◌, ◌≤◌, ◌<◌, min, Text, false, [], ◌≡◌, ◌≢◌, refl, ap, sym, ◌∙◌, arith, ltb, length,
  take, set, length-set, get_or-set_self, get_or-set_ne, overwrite, length-overwrite, window,
  window-overwrite, ne→==_false, ℕ_discrete,
}
use hackpadfs.Base.Int.{pos}
use hackpadfs.Errors.{ok}
use hackpadfs.Blob.{
  Heap, returns, ◌>>=◌, blob, array_of, shown, blob_len, bytes, copy_into, set_blob, set_locked,
}
use hackpadfs.Blob.Contents.{contents, Fits-Extends, IsValid, Extends, Made}
use hackpadfs.Blob.Copies.{blob_len_lem, length-contents, bytes-Made}

-- The bytes `new` have been written from offset `start` of the blob `r` on. A blob that shares
-- its array shows its window of the array with the bytes in place, however they overlap, and where
-- the window holds all of them, its own bytes with them in place.
pub record Written (h k : Heap) (r start : ℕ) (new : Text) : Type 0 where
  pub valid : IsValid k
  pub shared :
      (q j : ℕ)
      → q < length h.blobs
      → (blob h q).array ≡ (blob h r).array
      → (blob h q).off + j ≡ (blob h r).off + start
      → j + length new ≤ (blob h q).len
      → contents k q ≡ overwrite j new (contents h q)
  array_shared :
      (q : ℕ)
      → q < length h.blobs
      → (blob h q).array ≡ (blob h r).array
      → contents k q
        ≡ window
            (blob h q).off
            (blob h q).len
            (overwrite ((blob h r).off + start) new (array_of h (blob h r).array))
  pub others :
      (q : ℕ)
      → q < length h.blobs
      → (blob h q).array ≢ (blob h r).array
      → contents k q ≡ contents h q

abbrev pub patch_array : Heap → ℕ → ℕ → Text → Text
patch_array h r start new = overwrite ((blob h r).off + start) new (array_of h (blob h r).array)

-- The heap after a write into the array of the blob `r`.
unfoldable pub patched : Heap → ℕ → ℕ → Text → Heap
patched h r start new = record h {
  arrays = set h.arrays (blob h r).array (patch_array h r start new);
}

module _ (h : Heap) (r start : ℕ) (new : Text) (v : IsValid h) (lt : r < length h.blobs) where
  abbrev patch : Heap
  patch = patched h r start new

  pub array_self : array_of patch (blob h r).array ≡ patch_array h r start new
  unfolding patched
  array_self =
      get_or-set_self h.arrays (blob h r).array (patch_array h r start new) [] (v r lt).array_lt

  array_other : (a : ℕ) → a ≢ (blob h r).array → array_of patch a ≡ array_of h a
  unfolding patched
  array_other a ne =
      get_or-set_ne h.arrays (blob h r).array a (patch_array h r start new) [] (λ e. ne (sym e))

  pub Extends-patch : Extends h patch
  unfolding patched
  Extends-patch = record {
    arrays_le = omega (arith, length-set h.arrays (blob h r).array (patch_array h r start new));
    lengths = λ a la. lengths a;
    mutexes_le = omega arith;
  }
    where
      lengths : (a : ℕ) → length (array_of patch a) ≡ length (array_of h a)
      lengths a = elim (ℕ_discrete a (blob h r).array) [
        | yes e ↦
            rw (e, array_self)
              (length-overwrite ((blob h r).off + start) new (array_of h (blob h r).array))
        | no ne ↦ ap length (array_other a ne)
      ]

  blob-patch : (q : ℕ) → blob patch q ≡ blob h q
  unfolding patched
  blob-patch q = refl

  patch_shared :
      (q j : ℕ)
      → (blob h q).array ≡ (blob h r).array
      → (blob h q).off + j ≡ (blob h r).off + start
      → j + length new ≤ (blob h q).len
      → contents patch q ≡ overwrite j new (contents h q)
  patch_shared q j e o le =
      ap (shown patch) (blob-patch q)
      ∙ ap (window (blob h q).off (blob h q).len) (
          ap (array_of patch) e
          ∙ array_self
          ∙ ap (λ i. overwrite i new (array_of h (blob h r).array)) (sym o)
          ∙ ap (λ a. overwrite ((blob h q).off + j) new (array_of h a)) (sym e))
      ∙ window-overwrite (blob h q).off (blob h q).len j new (array_of h (blob h q).array) le

  pub patch-Written : Written h patch r start new
  patch-Written = record {
    valid = λ q lq.
        rw (blob-patch q) (Fits-Extends (blob h q) Extends-patch (v q (unfold patched in lq)));
    shared = λ q j lq e o le. patch_shared q j e o le;
    array_shared = λ q lq e.
        ap (shown patch) (blob-patch q)
        ∙ ap (window (blob h q).off (blob h q).len) (ap (array_of patch) e ∙ array_self);
    others = λ q lq ne.
        ap (shown patch) (blob-patch q)
        ∙ ap (window (blob h q).off (blob h q).len) (array_other (blob h q).array ne);
  }

-- Set of a blob with another mutex, at an offset in range. (At the front of an empty blob Set
-- fails, unless the source is empty too.)
module _ (h : Heap) (r src start : ℕ) (v : IsValid h) (lt : r < length h.blobs)
    (lts : src < length h.blobs) (fits : start ≤ blob_len h r) (room : 0 < blob_len h r)
    (apart : (blob h src).mu ≢ (blob h r).mu) where
  -- As much of the source as the blob has room for.
  abbrev written : Text
  written = take (min (blob_len h r - start) (blob_len h src)) (contents h src)

  set_blob-locked : set_blob r src (pos start) h ≡ set_locked r src start h
  unfolding set_blob
  set_blob-locked = ground arith

  set_locked-bytes : set_locked r src start h ≡ (
      bytes src h >>= λ (s, h1).
      returns (ok (copy_into r start s h1).0, (copy_into r start s h1).1))
  unfolding set_locked
  set_locked-bytes = rw (ltb_false, ne→==_false (blob h src).mu (blob h r).mu apart)
    where
      ltb_false : ltb (blob h r).len start ≡ false
      ltb_false = ground (arith, blob_len_lem h r v lt)

  copy_into-patched :
      (k : Heap) (s : Text)
      → copy_into r start s k ≡ (
        min ((blob k r).len - start) (length s),
        patched k r start (take (min ((blob k r).len - start) (length s)) s),
      )
  unfolding copy_into patched
  copy_into-patched k s = refl

  -- The copy is made in a heap that has the copied source besides.
  module _ (k : Heap) (r1 : ℕ) (m : Made h k r1 (contents h src)) where
    count_le : length h.blobs ≤ length k.blobs
    count_le = omega (arith, m.count)

    amount :
        min ((blob k r).len - start) (length (contents h src))
        ≡ min (blob_len h r - start) (blob_len h src)
    amount =
        rw (
          m.kept r lt,
          length-contents h src v lts,
          blob_len_lem h r v lt,
          blob_len_lem h src v lts,
        )

    patched-Written : Written k (patched k r start written) r start written
    patched-Written = patch-Written k r start written m.valid (omega (arith, count_le))

    from_before : Written h (patched k r start written) r start written
    from_before =
        let w = patched-Written in
        record {
          valid = w.valid;
          shared = λ q j lq e o le.
              w.shared q j (omega (arith, count_le)) (rw (m.kept q lq, m.kept r lt) e)
                (rw (m.kept q lq, m.kept r lt) o) (rw (m.kept q lq) le)
              ∙ ap (overwrite j written) (m.same q lq);
          array_shared = λ q lq e.
              w.array_shared q (omega (arith, count_le)) (rw (m.kept q lq, m.kept r lt) e)
              ∙ rw (m.kept q lq, m.kept r lt, m.arrays_kept (blob h r).array (v r lt).array_lt);
          others = λ q lq ne.
              w.others q (omega (arith, count_le)) (rw (m.kept q lq, m.kept r lt) ne) ∙ m.same q lq;
        }

  -- Set of a blob that is not empty, at an offset that is not behind its end, from a blob with another
  -- mutex, writes as much of the source as fits behind the offset and returns how much that is: the
  -- array of the blob has the bytes at their place, seen by every blob of that array however its
  -- window overlaps them, and the blobs of other arrays do not change.
  pub set_blob-Written :
      (k : Heap) × (set_blob r src (pos start) h
        ≡ returns (ok (min (blob_len h r - start) (blob_len h src)), k))
      × Written h k r start written
  set_blob-Written =
      let (r1, h1, e, m) = bytes-Made h src v lts in
      (
        patched h1 r start written,
        set_blob-locked
            ∙ set_locked-bytes
            ∙ ap
                (λ o.
                  o >>= λ (s, k). returns (ok (copy_into r start s k).0, (copy_into r start s k).1))
                e
            ∙ ap (λ (c : ℕ × Heap). returns (ok c.0, c.1)) (copy_into-patched h1 (contents h src))
            ∙ ap (λ n. returns (ok n, patched h1 r start (take n (contents h src))))
                (amount h1 r1 m),
        from_before h1 r1 m,
      )
