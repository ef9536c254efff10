-- ===== src/Blob/Contents.antt =====
-- The bytes of each blob, the invariant of the heap, and what a new array or blob leaves alone.
use hackpadfs.Base.{
  ℕ, ◌+◌, ◌≤◌, ◌<◌, Text, [], ◌∷◌, ◌++◌, ◌≡◌, refl, ap, ◌∙◌, arith, length, length-append, take_all,
  get_or-append, get_or-append_new, window, ◌⊎◌, inl, inr,
}
use hackpadfs.Blob.{Bytes, Heap, no_bytes, blob, array_of, shown, add_blob, new_bytes_of}

-- The bytes of the blob with index r.
abbrev pub contents : Heap → ℕ → Text
contents h r = shown h (blob h r)

-- The slice lies in its array, the field `length` is its length, and the mutex exists.
pub record Fits (h : Heap) (b : Bytes) : Type 0 where
  pub array_lt : b.array < length h.arrays
  pub within : b.off + b.len ≤ length (array_of h b.array)
  pub length_eq : b.length_field ≡ b.len
  pub mu_lt : b.mu < h.mutexes

abbrev pub IsValid : Heap → Type 0
IsValid h = (r : ℕ) → r < length h.blobs → Fits h (blob h r)

-- Every array and mutex is still there, and no array has changed its length.
pub record Extends (h k : Heap) : Type 0 where
  pub arrays_le : length h.arrays ≤ length k.arrays
  pub lengths : (a : ℕ) → a < length h.arrays → length (array_of k a) ≡ length (array_of h a)
  pub mutexes_le : h.mutexes ≤ k.mutexes

pub Fits-Extends : {h k : Heap} (b : Bytes) → Extends h k → Fits h b → Fits k b
Fits-Extends b x f = record {
  array_lt = omega (arith, x.arrays_le, f.array_lt);
  within = omega (arith, x.lengths b.array f.array_lt, f.within);
  length_eq = f.length_eq;
  mu_lt = omega (arith, x.mutexes_le, f.mu_lt);
}

-- No blob that was there shows other bytes.
abbrev SameContents : Heap → Heap → Type 0
SameContents h k = (r : ℕ) → r < length h.blobs → contents k r ≡ contents h r

last_or_lt : (r n : ℕ) → r < n + 1 → (r < n) ⊎ (r ≡ n)
last_or_lt r n h = ground arith

-- A call that has made the blob `r`, which shows the bytes `s`, and changed no other.
pub record Made (h k : Heap) (r : ℕ) (s : Text) : Type 0 where
  pub valid : IsValid k
  pub index : r ≡ length h.blobs
  pub count : length k.blobs ≡ length h.blobs + 1
  pub shows : contents k r ≡ s
  pub same : SameContents h k
  pub kept : (q : ℕ) → q < length h.blobs → blob k q ≡ blob h q
  pub arrays_kept : (a : ℕ) → a < length h.arrays → array_of k a ≡ array_of h a
  pub extends : Extends h k

-- A new blob whose slice fits.
module _ (h : Heap) (b : Bytes) (f : Fits h b) (v : IsValid h) where
  Extends-add_blob : Extends h (add_blob b h).1
  unfolding add_blob
  Extends-add_blob = record {
    arrays_le = omega arith;
    lengths = λ a lt. refl;
    mutexes_le = omega arith;
  }

  old_blob : (r : ℕ) → r < length h.blobs → blob (add_blob b h).1 r ≡ blob h r
  unfolding add_blob
  old_blob r lt = get_or-append h.blobs (b ∷ []) r no_bytes lt

  pub new_blob : blob (add_blob b h).1 (length h.blobs) ≡ b
  unfolding add_blob
  new_blob = get_or-append_new h.blobs b no_bytes

  add_blob-Fits : (r : ℕ) → r < length h.blobs + 1 → Fits (add_blob b h).1 (blob (add_blob b h).1 r)
  add_blob-Fits r lt = elim (last_or_lt r (length h.blobs) lt) [
    | inl old ↦ rw (old_blob r old) (Fits-Extends (blob h r) Extends-add_blob (v r old))
    | inr new ↦ rw (new, new_blob) (Fits-Extends b Extends-add_blob f)
  ]

  add_blob_same : (r : ℕ) (b' : Bytes) → shown (add_blob b h).1 b' ≡ shown h b'
  unfolding add_blob
  add_blob_same r b' = refl

  count-add_blob : length (add_blob b h).1.blobs ≡ length h.blobs + 1
  unfolding add_blob
  count-add_blob = omega (arith, length-append h.blobs (b ∷ []))

  pub add_blob-Made : Made h (add_blob b h).1 (add_blob b h).0 (shown h b)
  add_blob-Made = record {
    valid = λ r lt. add_blob-Fits r (omega (arith, count-add_blob));
    index = unfold add_blob in refl;
    count = count-add_blob;
    shows = unfold add_blob in (ap (shown h) (get_or-append_new h.blobs b no_bytes));
    same = λ r lt. ap (shown (add_blob b h).1) (old_blob r lt) ∙ add_blob_same r (blob h r);
    kept = old_blob;
    arrays_kept = unfold add_blob in λ a lt. refl;
    extends = Extends-add_blob;
  }

-- The heap of NewBytes, with the new array and the new mutex and not yet the blob.
module _ (h : Heap) (s : Text) (v : IsValid h) where
  abbrev prepared : Heap
  prepared = record h { arrays = h.arrays ++ (s ∷ []); mutexes = h.mutexes + 1 }

  abbrev whole : Bytes
  whole = record {
    array = length h.arrays;
    off = 0;
    len = length s;
    length_field = length s;
    mu = h.mutexes;
  }

  Extends-prepared : Extends h prepared
  Extends-prepared = record {
    arrays_le = omega (arith, length-append h.arrays (s ∷ []));
    lengths = λ a lt. ap length (get_or-append h.arrays (s ∷ []) a [] lt);
    mutexes_le = omega arith;
  }

  prepared-IsValid : IsValid prepared
  prepared-IsValid r lt = Fits-Extends (blob h r) Extends-prepared (v r lt)

  array-prepared : array_of prepared (length h.arrays) ≡ s
  array-prepared = get_or-append_new h.arrays s []

  Fits-whole : Fits prepared whole
  Fits-whole = record {
    array_lt = omega (arith, length-append h.arrays (s ∷ []));
    within = omega (arith, ap length array-prepared);
    length_eq = refl;
    mu_lt = omega arith;
  }

  shown-whole : shown prepared whole ≡ s
  shown-whole = ap (window 0 (length s)) array-prepared ∙ take_all (length s) s (omega arith)

  same-prepared : SameContents h prepared
  same-prepared r lt =
      ap (window (blob h r).off (blob h r).len)
        (get_or-append h.arrays (s ∷ []) (blob h r).array [] (v r lt).array_lt)

  -- NewBytes over a new array shows that array's bytes.
  pub new_bytes_of-Made : Made h (new_bytes_of s h).1 (new_bytes_of s h).0 s
  unfolding new_bytes_of
  new_bytes_of-Made =
      let m = add_blob-Made prepared whole Fits-whole prepared-IsValid in
      record {
        valid = m.valid;
        index = m.index;
        count = m.count;
        shows = m.shows ∙ shown-whole;
        same = λ r lt. m.same r lt ∙ same-prepared r lt;
        kept = m.kept;
        arrays_kept = λ a lt.
            m.arrays_kept a (omega (arith, Extends-prepared.arrays_le))
            ∙ get_or-append h.arrays (s ∷ []) a [] lt;
        extends = record {
          arrays_le = Extends-prepared.arrays_le;
          lengths = Extends-prepared.lengths;
          mutexes_le = Extends-prepared.mutexes_le;
        };
      }

  new_bytes_of-array : (blob (new_bytes_of s h).1 (new_bytes_of s h).0).array ≡ length h.arrays
  unfolding new_bytes_of add_blob
  new_bytes_of-array = ap (λ (b : Bytes). b.array) (get_or-append_new h.blobs whole no_bytes)
