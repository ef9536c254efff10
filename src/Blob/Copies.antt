-- ===== src/Blob/Copies.antt =====
-- View, Slice and Bytes: what the new blob shows.
use hackpadfs.Base.{
  ℕ, ◌+◌, ◌-◌, ◌≤◌, ◌<◌, Text, ◌≡◌, refl, ap, sym, ◌∙◌, arith, length, length-take, take, take_all,
  replicate, length-replicate, overwrite, overwrite_all, window, get_or-append_new, window-window,
  length-window, subst,
}
use hackpadfs.Base.Int.{pos}
use hackpadfs.Errors.{ok}
use hackpadfs.Blob.{
  Bytes, Heap, no_bytes, returns, ◌>>=◌, blob, array_of, add_blob, new_bytes_of, blob_len, view,
  slice, bytes, copied,
}
use hackpadfs.Blob.Contents.{contents, Fits, IsValid, Made, add_blob-Made, new_bytes_of-Made}

module _ (h : Heap) (r : ℕ) (v : IsValid h) (lt : r < length h.blobs) where
  pub blob_len_lem : blob_len h r ≡ (blob h r).len
  unfolding blob_len
  blob_len_lem = (v r lt).length_eq

  pub length-contents : length (contents h r) ≡ (blob h r).len
  length-contents =
      length-window (blob h r).off (blob h r).len (array_of h (blob h r).array) (v r lt).within

module _ (h : Heap) (r start end : ℕ) (v : IsValid h) (lt : r < length h.blobs) (le : start ≤ end)
    (fits : end ≤ blob_len h r) where
  abbrev viewed : Bytes
  viewed =
      let b = blob h r in
      record b { off = b.off + start; len = end - start; length_field = end - start }

  view-returns :
      view r (pos start) (pos end) h ≡ returns (ok (add_blob viewed h).0, (add_blob viewed h).1)
  unfolding view
  view-returns = ground arith

  viewed-Fits : Fits h viewed
  viewed-Fits = record {
    array_lt = (v r lt).array_lt;
    within = omega (arith, (v r lt).within, blob_len_lem h r v lt);
    length_eq = refl;
    mu_lt = (v r lt).mu_lt;
  }

  -- View of bounds in range returns a blob of the bytes between them.
  view-Made :
      (r' : ℕ) × (k : Heap) × (view r (pos start) (pos end) h ≡ returns (ok r', k))
      × Made h k r' (window start (end - start) (contents h r))
      × (blob k r' ≡ viewed)
  view-Made =
      let b = blob h r in
      let shows = sym (
        window-window start (end - start) b.off b.len (array_of h b.array)
          (omega (arith, blob_len_lem h r v lt))) in
      let m = add_blob-Made h viewed viewed-Fits v in
      (
        (add_blob viewed h).0,
        (add_blob viewed h).1,
        view-returns,
        subst (λ s. Made h (add_blob viewed h).1 (add_blob viewed h).0 s) shows m,
        unfold add_blob in (get_or-append_new h.blobs viewed no_bytes),
      )

  abbrev front : Text
  front = overwrite 0 (take (end - start) (contents h r)) (replicate (end - start) 0)

  front_lem : front ≡ take (end - start) (contents h r)
  front_lem = overwrite_all (take (end - start) (contents h r)) (replicate (end - start) 0) (
      omega (
        arith,
        length-take (end - start) (contents h r),
        length-replicate {A = ℕ} (end - start) 0,
        length-contents h r v lt,
        blob_len_lem h r v lt,
      ))

  slice-returns :
      slice r (pos start) (pos end) h
      ≡ returns (ok (new_bytes_of front h).0, (new_bytes_of front h).1)
  unfolding slice
  slice-returns = ground arith

  -- Slice of bounds in range returns a new blob of as many bytes as the bounds are apart, taken
  -- from the front of the blob wherever the bounds begin.
  pub slice-Made :
      (r' : ℕ) × (k : Heap) × (slice r (pos start) (pos end) h ≡ returns (ok r', k))
      × Made h k r' (take (end - start) (contents h r))
  slice-Made = (
    (new_bytes_of front h).0,
    (new_bytes_of front h).1,
    slice-returns,
    subst (λ s. Made h (new_bytes_of front h).1 (new_bytes_of front h).0 s) front_lem
        (new_bytes_of-Made h front v),
  )

module _ (h : Heap) (r : ℕ) (v : IsValid h) (lt : r < length h.blobs) where
  -- Bytes returns the bytes of the blob.
  pub bytes-Made :
      (r' : ℕ) × (k : Heap) × (bytes r h ≡ returns (contents h r, k)) × Made h k r' (contents h r)
  unfolding bytes copied
  bytes-Made =
      let (r', k, e, m) = slice-Made h r 0 (blob_len h r) v lt (omega arith) (omega arith) in
      let whole =
        take_all (blob_len h r - 0) (contents h r)
          (omega (arith, length-contents h r v lt, blob_len_lem h r v lt)) in
      (
        r',
        k,
        ap (λ o. o >>= copied) e ∙ ap (λ s. returns (s, k)) (m.shows ∙ whole),
        subst (Made h k r') whole m,
      )
