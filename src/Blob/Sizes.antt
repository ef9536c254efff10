-- ===== src/Blob/Sizes.antt =====
-- Truncate, and what a new header for a blob changes.
use hackpadfs.Base.{
  ℕ, ◌≤◌, ◌<◌, Text, ◌≡◌, ◌≢◌, refl, ap, sym, ◌∙◌, arith, length, length-take, take, take-take,
  take_all, set, length-set, get_or-set_self, get_or-set_ne, ℕ_discrete, dec_lt,
}
use hackpadfs.Base.Int.{pos}
use hackpadfs.Errors.{ok}
use hackpadfs.Blob.{Bytes, Heap, no_bytes, returns, blob, shown, blob_len, truncate}
use hackpadfs.Blob.Contents.{contents, Fits, Fits-Extends, IsValid, Extends}
use hackpadfs.Blob.Copies.{blob_len_lem, length-contents}

-- The heap with another header for the blob `r`.
unfoldable pub with_blob : Heap → ℕ → Bytes → Heap
with_blob h r b = record h { blobs = set h.blobs r b }

-- The blob `r` has been given other bytes and the blobs on other arrays have not changed.
pub record Resized (h k : Heap) (r : ℕ) (s : Text) : Type 0 where
  pub valid : IsValid k
  pub count : length k.blobs ≡ length h.blobs
  pub shows : contents k r ≡ s
  pub len : blob_len k r ≡ length s
  pub others :
      (q : ℕ)
      → q < length h.blobs
      → (blob h q).array ≢ (blob h r).array
      → contents k q ≡ contents h q

module _ (h : Heap) (r : ℕ) (b : Bytes) (v : IsValid h) (lt : r < length h.blobs)
    (f : Fits h b) where
  abbrev k : Heap
  k = with_blob h r b

  self : blob k r ≡ b
  unfolding with_blob
  self = get_or-set_self h.blobs r b no_bytes lt

  other : (q : ℕ) → q ≢ r → blob k q ≡ blob h q
  unfolding with_blob
  other q ne = get_or-set_ne h.blobs r q b no_bytes (λ e. ne (sym e))

  Extends-with_blob : Extends h k
  unfolding with_blob
  Extends-with_blob = record {
    arrays_le = omega arith;
    lengths = λ a la. refl;
    mutexes_le = omega arith;
  }

  shown-with_blob : (c : Bytes) → shown k c ≡ shown h c
  unfolding with_blob
  shown-with_blob c = refl

  count-with_blob : length k.blobs ≡ length h.blobs
  unfolding with_blob
  count-with_blob = length-set h.blobs r b

  pub with_blob-Resized : (s : Text) → shown h b ≡ s → length s ≡ b.len → Resized h k r s
  with_blob-Resized s shows size = record {
    valid = λ q lq. elim (ℕ_discrete q r) [
      | yes e ↦ rw (e, self) (Fits-Extends b Extends-with_blob f)
      | no ne ↦
          rw (other q ne)
            (Fits-Extends (blob h q) Extends-with_blob (v q (omega (arith, count-with_blob))))
    ];
    count = count-with_blob;
    shows = ap (shown k) self ∙ shown-with_blob b ∙ shows;
    len = unfold blob_len in (ap (λ (c : Bytes). c.length_field) self ∙ f.length_eq ∙ sym size);
    others = λ q lq ne.
        ap (shown k) (other q (λ e. ne (ap (λ p. (blob h p).array) e)))
        ∙ shown-with_blob (blob h q);
  }

module _ (h : Heap) (r size : ℕ) (v : IsValid h) (lt : r < length h.blobs) where
  abbrev cut : Bytes
  cut = record (blob h r) { len = size; length_field = size }

  truncate_short :
      size ≤ blob_len h r → truncate r (pos size) h ≡ returns (ok tt, with_blob h r cut)
  unfolding truncate with_blob
  truncate_short le = ground arith

  truncate_long : blob_len h r < size → truncate r (pos size) h ≡ returns (ok tt, h)
  unfolding truncate
  truncate_long lt = ground arith

  cut-Fits : size ≤ blob_len h r → Fits h cut
  cut-Fits le =
      let f = v r lt in
      record {
        array_lt = f.array_lt;
        within = omega (arith, f.within, blob_len_lem h r v lt);
        length_eq = refl;
        mu_lt = f.mu_lt;
      }

  -- Truncate to a size within the blob keeps the bytes in front of it; to a larger size it does
  -- nothing.
  truncate-Resized :
      (k : Heap) × (truncate r (pos size) h ≡ returns (ok tt, k))
      × Resized h k r (take size (contents h r))
  truncate-Resized = elim (dec_lt (blob_len h r) size) [
    | yes long ↦
        let whole =
          take_all size (contents h r)
            (omega (arith, length-contents h r v lt, blob_len_lem h r v lt)) in
        (
          h,
          truncate_long long,
          record {
            valid = v;
            count = refl;
            shows = sym whole;
            len = omega (arith, blob_len_lem h r v lt, length-contents h r v lt, ap length whole);
            others = λ q lq ne. refl;
          },
        )
    | no short ↦
        let le : size ≤ blob_len h r = omega arith in
        let same = take-take size (blob h r).len _ (omega (arith, blob_len_lem h r v lt)) in
        (
          with_blob h r cut,
          truncate_short le,
          with_blob-Resized h r cut v lt (cut-Fits le) (take size (contents h r)) (sym same) (
              omega (
                arith,
                length-take size (contents h r),
                length-contents h r v lt,
                blob_len_lem h r v lt,
              )),
        )
  ]
