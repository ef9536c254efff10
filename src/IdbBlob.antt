-- ===== src/IdbBlob.antt =====
-- indexeddb/idbblob/blob.go: a blob over a JavaScript Uint8Array, which keeps a *Bytes of its
-- contents once they have been asked for. JavaScript, through safejs, is a parameter.
mod Tests
pub mod Sizes
use hackpadfs.Base.{
  ℕ, ◌+◌, Text, Bool, not, Option, none, some, List, [], ◌∷◌, ◌++◌, ◌&&◌, ◌==◌, ltb, if◌then◌else◌,
  length, get_or, set,
}
use hackpadfs.Base.Int.{ℤ, pos, ltb_ℤ, add64}
use hackpadfs.Errors.{Error, text_error, Result, ok, err}
use hackpadfs.Blob.{
  alloc, new_bytes, Heap, Outcome, returns, panics, blocks, new_bytes_of, nat_of, out_of, bytes,
}
use hackpadfs.Blob as Bytes
use hackpadfs.Blob.Dispatch.{
  AnyBlob, of_bytes, other, State, Kinds, Slice, bytes_slice, any_len, set_bytes,
}
use hackpadfs.KeyValue.Call.{Call, pure, fail, ◌>>=◌, ◌>>◌}

-- What safejs does with values of JavaScript, beside a world: the truth of a value, instanceof
-- Uint8Array, the constructor and the methods of that class, and the two copies.
pub record Js (V W : Type 0) : Type 0 where
  pub truthy : V → W → Result Bool × W
  pub is_uint8_array : V → W → Result Bool × W
  pub new_array : ℤ → W → Result V × W
  pub array_length : V → W → Result ℕ × W
  pub subarray : V → ℤ → ℤ → W → Result V × W
  pub slice_array : V → ℤ → ℤ → W → Result V × W
  pub set_array : V → V → ℤ → W → Result (Unit {0}) × W
  pub to_js : V → Text → W → Result (Unit {0}) × W
  pub to_go : ℕ → V → W → Result Text × W

-- Blob. Its *Bytes is an index into the heap's.
pub record Blob (V : Type 0) : Type 0 where
  pub bytes : Option ℕ
  pub js_value : V
  pub length_field : ℤ

-- The world and the blobs of this package.
pub record Objects (V W : Type 0) : Type 0 where
  pub world : W
  pub blobs : List (Blob V)

-- ==
abbrev same_int : ℤ → ℤ → Bool
same_int a b = not (ltb_ℤ a b) && not (ltb_ℤ b a)

module _ {V W : Type 0} (js : Js V W) (spare : ℕ → ℕ → ℕ) (no_value : V) where
  abbrev pub S : Type 0
  S = State (Objects V W)

  abbrev pub blob : S → ℕ → Blob V
  blob s i =
      get_or s.rest.blobs i (record { bytes = none; js_value = no_value; length_field = pos 0 })

  abbrev pub with_world : W → S → S
  with_world w s = record s { rest = record s.rest { world = w } }

  abbrev pub with_blob : ℕ → Blob V → S → S
  with_blob i b s = record s { rest = record s.rest { blobs = set s.rest.blobs i b } }

  -- A call of JavaScript, and one on the heap.
  abbrev pub on_world : {A : Type 0} → (W → Result A × W) → Call S A
  on_world call s = let (r, w) = call s.rest.world in returns (r, with_world w s)

  abbrev heap_result : {A : Type 0} → S → Outcome (Result A × Heap) → Outcome (Result A × S)
  heap_result s (returns (r, h)) = returns (r, record s { heap = h })
  heap_result s panics = panics
  heap_result s blocks = blocks

  abbrev pub in_heap : {A : Type 0} → (Heap → Outcome (Result A × Heap)) → Call S A
  in_heap call s = heap_result s (call s.heap)

  -- A new *Bytes of bytes that no one else writes.
  abbrev kept_bytes : Text → Call S ℕ
  kept_bytes t s = let (r, h) = new_bytes_of t s.heap in returns (ok r, record s { heap = h })

  -- newBlob
  abbrev add_blob : V → ℕ → Call S ℕ
  add_blob buf n s = returns (
    ok (length s.rest.blobs),
    record s {
      rest = record s.rest {
        blobs =
            s.rest.blobs ++ (record { bytes = none; js_value = buf; length_field = pos n } ∷ []);
      };
    },
  )

  unfoldable pub new_blob : V → Call S ℕ
  new_blob buf = on_world (js.array_length buf) >>= add_blob buf

  -- NewLength
  unfoldable new_length : ℤ → Call S ℕ
  new_length n = on_world (js.new_array n) >>= new_blob

  abbrev heap_value : {A : Type 0} → S → Outcome (A × Heap) → Outcome (Result A × S)
  heap_value s (returns (a, h)) = returns (ok a, record s { heap = h })
  heap_value s panics = panics
  heap_value s blocks = blocks

  -- The new slice is kept as a *Bytes, and returned.
  abbrev kept : ℕ → Text → Call S Slice
  kept i t s =
      let (a, h) = alloc t s.heap in
      let (r, h') = new_bytes a 0 (length t) h in
      returns (
        ok (record { array = a; off = 0; len = length t }),
        with_blob i (record (blob s i) { bytes = some r }) (record s { heap = h' }),
      )

  abbrev read_js : ℕ → V → Call S Slice
  read_js i buf = on_world (js.array_length buf) >>= λ n. on_world (js.to_go n buf) >>= kept i

  -- getBytes in a call that holds the mutexes `held`: a copy of the kept *Bytes, or the slice that
  -- is kept from now on.
  unfoldable pub get_bytes : List ℕ → ℕ → Call S Slice
  get_bytes held i s = elim (blob s i).bytes [
    | some r ↦ heap_value s (bytes_slice held r s.heap)
    | none ↦ read_js i (blob s i).js_value s
  ]

  -- An error becomes a panic.
  abbrev or_panic : {A : Type 0} → Outcome (Result A × S) → Outcome (A × S)
  or_panic (returns (ok a, s)) = returns (a, s)
  or_panic (returns (err e, s)) = panics
  or_panic panics = panics
  or_panic blocks = blocks

  abbrev pub or_crash : {A : Type 0} → Outcome (Result A × S) → Outcome (Result A × S)
  or_crash (returns (ok a, s)) = returns (ok a, s)
  or_crash (returns (err e, s)) = panics
  or_crash panics = panics
  or_crash blocks = blocks

  -- Bytes and Len, which is all that Bytes.Set asks of its source.
  unfoldable pub reading : Kinds ℕ (Objects V W)
  reading = record {
    bytes = λ held i s. or_panic (get_bytes held i s);
    len = λ i s. nat_of (blob s i).length_field;
    view = λ i. none;
    slice = λ i. none;
    set = λ i. none;
    grow = λ i. none;
    truncate = λ i. none;
  }

  -- fromBlob: a new blob over the value of one of this package, or over a copy.
  unfoldable pub from_blob : AnyBlob ℕ → Call S ℕ
  from_blob (other i) s = new_blob (blob s i).js_value s
  from_blob (of_bytes r) s =
      ((λ s'. heap_value s' (bytes r s'.heap)) >>= λ t.
      on_world (js.new_array (pos (length t))) >>= λ v. on_world (js.to_js v t) >> new_blob v)
        s

  -- New
  abbrev checked_array : V → Bool → Call S ℕ
  checked_array buf is_array =
      if is_array then new_blob buf else fail (text_error "invalid JS array type")

  abbrev new_of : V → Bool → Call S ℕ
  new_of buf is_value =
      if is_value then on_world (js.is_uint8_array buf) >>= checked_array buf else λ s.
      or_crash ((kept_bytes [] >>= λ r. from_blob (of_bytes r)) s)

  unfoldable pub new : V → Call S ℕ
  new buf = on_world (js.truthy buf) >>= new_of buf

  -- `if buf := b.currentBytes(); buf != nil`, for a new blob that gets its own *Bytes.
  abbrev keep_bytes : Option ℕ → (ℕ → Heap → Outcome (Result ℕ × Heap)) → ℕ → Call S ℕ
  keep_bytes none call j = pure j
  keep_bytes (some r) call j = in_heap (call r) >>= λ r' s.
      returns (ok j, with_blob j (record (blob s j) { bytes = some r' }) s)

  -- View
  unfoldable pub view : ℕ → ℤ → ℤ → Call S ℕ
  view i start end s =
      let b = blob s i in
      if same_int start (pos 0) && same_int end b.length_field
      then returns (ok i, s)
      else (on_world (js.subarray b.js_value start end) >>= λ v.
            new v >>= keep_bytes b.bytes (λ r. Bytes.view r start end))
          s

  -- Slice
  unfoldable pub slice : ℕ → ℤ → ℤ → Call S ℕ
  slice i start end s =
      let b = blob s i in
      if out_of start (nat_of b.length_field)
      then returns (err (text_error "Start index out of bounds"), s)
      else if out_of end (nat_of b.length_field)
      then returns (err (text_error "End index out of bounds"), s)
      else (on_world (js.slice_array b.js_value start end) >>= λ v.
            new v >>= keep_bytes b.bytes (λ r. Bytes.slice r start end))
          s

  -- The end of Set, Grow and Truncate where the blob keeps a *Bytes.
  abbrev pub on_bytes : {A : Type 0} → Option ℕ → (ℕ → Call S A) → Call S (Unit {0})
  on_bytes none call = pure tt
  on_bytes (some r) call = call r >>= λ _. pure tt

  -- Set
  unfoldable pub set_blob : ℕ → AnyBlob ℕ → ℤ → Call S ℕ
  set_blob i src start s =
      let b = blob s i in
      if ltb_ℤ start (pos 0)
      then returns (err (text_error "negative offset"), s)
      else if not (ltb_ℤ start (pos (nat_of b.length_field)))
          && same_int start (pos 0)
          && ltb 0 (any_len reading spare src s)
      then returns (err (text_error "Offset out of bounds"), s)
      else ((λ s'. or_crash (from_blob src s')) >>= λ j s1.
            (on_world (js.set_array b.js_value (blob s1 j).js_value start) >> λ s2.
            (on_bytes (blob s2 i).bytes (λ r. set_bytes reading spare r src start)
                >> pure (any_len reading spare src s2))
              s2)
              s1)
          s

  -- The value and the length of a blob are stored.
  abbrev pub store_value : ℕ → V → ℤ → Call S (Unit {0})
  store_value i v n s =
      returns (ok tt, with_blob i (record (blob s i) { js_value = v; length_field = n }) s)

  -- Grow with the bigger array at hand.
  abbrev pub grow_into : ℕ → ℤ → ℤ → Blob V → V → Call S (Unit {0})
  grow_into i off size b v =
      on_world (js.set_array v b.js_value (pos 0))
      >> store_value i v size
      >> on_bytes b.bytes (λ r. in_heap (Bytes.grow spare r off))

  -- Grow
  unfoldable pub grow : ℕ → ℤ → Call S (Unit {0})
  grow i off s =
      let b = blob s i in
      let size = add64 b.length_field off in
      (on_world (js.new_array size) >>= grow_into i off size b) s

  -- Truncate with the smaller array at hand.
  abbrev pub truncate_into : ℕ → ℤ → Blob V → V → Call S (Unit {0})
  truncate_into i size b v =
      store_value i v size >> on_bytes b.bytes (λ r. in_heap (Bytes.truncate r size))

  -- Truncate
  unfoldable pub truncate : ℕ → ℤ → Call S (Unit {0})
  truncate i size s =
      let b = blob s i in
      if ltb_ℤ b.length_field size
      then returns (ok tt, s)
      else (on_world (js.slice_array b.js_value (pos 0) size) >>= truncate_into i size b) s
