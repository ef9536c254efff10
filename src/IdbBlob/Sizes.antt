-- ===== src/IdbBlob/Sizes.antt =====
-- The field length of a blob is the length of its array.
use hackpadfs.Base.{
  ℕ, ◌<◌, ◌≤◌, false, Option, none, some, ◌≡◌, refl, ap, sym, ◌∙◌, subst, arith, length, set,
  get_or, get_or-set_self, length-set, Bool-cases, inl, inr,
}
use hackpadfs.Base.Int.{ℤ, pos, ltb_ℤ, add64}
use hackpadfs.Errors.{Result, ok, err}
use hackpadfs.Blob.{Heap, Outcome, returns, panics, blocks}
use hackpadfs.Blob as Bytes
use hackpadfs.KeyValue.Call.{◌>>=◌, ◌>>◌}
use hackpadfs.IdbBlob.{
  Js, Blob, Objects, S, blob, with_world, with_blob, in_heap, on_bytes, store_value, grow_into,
  truncate_into, grow, truncate,
}

-- What JavaScript says of the length of an array, which never changes: a new one has the length
-- that was asked for, and slice from 0 to n has n elements where the array has as many.
pub record Lengths {V W : Type 0} (js : Js V W) (size : V → ℕ) : Type 0 where
  pub made : (z : ℤ) (v : V) (w w' : W) → js.new_array z w ≡ (ok v, w') → z ≡ pos (size v)
  pub sliced :
      (v v' : V) (n : ℕ) (w w' : W)
      → n ≤ size v
      → js.slice_array v (pos 0) (pos n) w ≡ (ok v', w')
      → size v' ≡ n

module _ {V W : Type 0} (js : Js V W) (spare : ℕ → ℕ → ℕ) (no_value : V) (size : V → ℕ) where
  abbrev at : Objects V W → ℕ → Blob V
  at o i = get_or o.blobs i (record { bytes = none; js_value = no_value; length_field = pos 0 })

  pub record IsSized (o : Objects V W) (i : ℕ) : Type 0 where
    pub there : i < length o.blobs
    pub agrees : (at o i).length_field ≡ pos (size (at o i).js_value)

  in_heap-rest :
      {A : Type 0} (call : Heap → Outcome (Result A × Heap)) (s s' : S js spare no_value)
      (r : Result A)
      → in_heap js spare no_value call s ≡ returns (r, s')
      → s'.rest ≡ s.rest
  in_heap-rest call s s' r e = ground arith

  on_bytes-rest :
      (o : Option ℕ) (call : ℕ → Heap → Outcome (Result (Unit {0}) × Heap))
      (s s' : S js spare no_value) (r : Result (Unit {0}))
      → on_bytes js spare no_value o (λ q. in_heap js spare no_value (call q)) s ≡ returns (r, s')
      → s'.rest ≡ s.rest
  on_bytes-rest none call s s' r e = ground arith
  on_bytes-rest (some q) call s s' r e = ground arith

  stored : (s : S js spare no_value) (i : ℕ) (v : V) (z : ℤ) → S js spare no_value
  stored s i v z =
      with_blob js spare no_value i
        (record (blob js spare no_value s i) { js_value = v; length_field = z }) s

  stored-IsSized :
      (s : S js spare no_value) (i : ℕ) (v : V) (z : ℤ)
      → i < length s.rest.blobs
      → z ≡ pos (size v)
      → IsSized (stored s i v z).rest i
  unfolding stored
  stored-IsSized s i v z lt e =
      let none_there : Blob V = record {
        bytes = none;
        js_value = no_value;
        length_field = pos 0;
      } in
      let new : Blob V = record (blob js spare no_value s i) { js_value = v; length_field = z } in
      let self : get_or (set s.rest.blobs i new) i none_there ≡ new =
        get_or-set_self s.rest.blobs i new none_there lt in
      record {
        there = omega (arith, length-set s.rest.blobs i new);
        agrees =
            ap (λ (b : Blob V). b.length_field) self
            ∙ e
            ∙ ap (λ (b : Blob V). pos (size b.js_value)) (sym self);
      }

  -- The end of Grow and of Truncate.
  stored_bytes-IsSized :
      (s s' : S js spare no_value) (i : ℕ) (v : V) (z : ℤ) (o : Option ℕ)
      (call : ℕ → Heap → Outcome (Result (Unit {0}) × Heap)) (r : Result (Unit {0}))
      → i < length s.rest.blobs
      → z ≡ pos (size v)
      → on_bytes js spare no_value o (λ q. in_heap js spare no_value (call q)) (stored s i v z)
        ≡ returns (r, s')
      → IsSized s'.rest i
  stored_bytes-IsSized s s' i v z o call r lt e h =
      subst (λ x. IsSized x i) (sym (on_bytes-rest o call (stored s i v z) s' r h))
        (stored-IsSized s i v z lt e)

  -- A call of JavaScript changes the world alone.
  world-IsSized :
      (s s' : S js spare no_value) (i : ℕ) (w : W)
      → IsSized s.rest i
      → s' ≡ with_world js spare no_value w s
      → IsSized s'.rest i
  world-IsSized s s' i w sized e =
      subst (λ (x : S js spare no_value). IsSized x.rest i) (sym e)
        (record { there = sized.there; agrees = sized.agrees })

  after_set :
      (q : Result (Unit {0}) × W) (s s' : S js spare no_value) (i : ℕ) (v : V) (z : ℤ)
      (o : Option ℕ) (call : ℕ → Heap → Outcome (Result (Unit {0}) × Heap)) (r : Result (Unit {0}))
      → IsSized s.rest i
      → z ≡ pos (size v)
      → ((λ x. returns (q.0, with_world js spare no_value q.1 x))
            >> store_value js spare no_value i v z
            >> on_bytes js spare no_value o (λ k. in_heap js spare no_value (call k)))
          s
        ≡ returns (r, s')
      → IsSized s'.rest i
  unfolding stored
  after_set (err x, w) s s' i v z o call r sized e h = world-IsSized s s' i w sized (ground arith)
  after_set (ok _, w) s s' i v z o call r sized e h =
      stored_bytes-IsSized (with_world js spare no_value w s) s' i v z o call r sized.there e h

  after_new :
      (q : Result V × W) (s s' : S js spare no_value) (i : ℕ) (off z : ℤ) (b : Blob V)
      (r : Result (Unit {0}))
      → IsSized s.rest i
      → ((v : V) → q.0 ≡ ok v → z ≡ pos (size v))
      → ((λ x. returns (q.0, with_world js spare no_value q.1 x))
            >>= grow_into js spare no_value i off z b)
          s
        ≡ returns (r, s')
      → IsSized s'.rest i
  after_new (err x, w) s s' i off z b r sized e h = world-IsSized s s' i w sized (ground arith)
  after_new (ok v, w) s s' i off z b r sized e h =
      after_set (js.set_array v b.js_value (pos 0) w) (with_world js spare no_value w s) s' i v z
        b.bytes (λ k. Bytes.grow spare k off) r
        (record { there = sized.there; agrees = sized.agrees }) (e v refl) h

  -- Where JavaScript keeps the lengths of its arrays, the field length of a blob is the length of
  -- its array after Grow, by whatever offset and with whatever result, if it was before.
  pub grow-IsSized :
      (laws : Lengths js size) (i : ℕ) (off : ℤ) (s s' : S js spare no_value)
      (r : Result (Unit {0}))
      → IsSized s.rest i
      → grow js spare no_value i off s ≡ returns (r, s')
      → IsSized s'.rest i
  unfolding grow
  grow-IsSized laws i off s s' r sized h =
      let b = blob js spare no_value s i in
      let z = add64 b.length_field off in
      after_new (js.new_array z s.rest.world) s s' i off z b r sized
        (λ v e.
          laws.made z v s.rest.world (js.new_array z s.rest.world).1
            (ap (λ (x : Result V). (x, (js.new_array z s.rest.world).1)) e))
        h

  after_slice :
      (q : Result V × W) (s s' : S js spare no_value) (i : ℕ) (z : ℤ) (b : Blob V)
      (r : Result (Unit {0}))
      → IsSized s.rest i
      → ((v : V) → q.0 ≡ ok v → z ≡ pos (size v))
      → ((λ x. returns (q.0, with_world js spare no_value q.1 x))
            >>= truncate_into js spare no_value i z b)
          s
        ≡ returns (r, s')
      → IsSized s'.rest i
  unfolding stored
  after_slice (err x, w) s s' i z b r sized e h = world-IsSized s s' i w sized (ground arith)
  after_slice (ok v, w) s s' i z b r sized e h =
      stored_bytes-IsSized (with_world js spare no_value w s) s' i v z b.bytes
        (λ k. Bytes.truncate k z) r sized.there (e v refl) h

  -- The same after Truncate to a size that is not negative.
  truncate-IsSized :
      (laws : Lengths js size) (i n : ℕ) (s s' : S js spare no_value) (r : Result (Unit {0}))
      → IsSized s.rest i
      → truncate js spare no_value i (pos n) s ≡ returns (r, s')
      → IsSized s'.rest i
  unfolding truncate
  truncate-IsSized laws i n s s' r sized h =
      let b = blob js spare no_value s i in
      let sliced = js.slice_array b.js_value (pos 0) (pos n) s.rest.world in
      elim (Bool-cases (ltb_ℤ b.length_field (pos n))) [
        | inl longer ↦
            let same : s'.rest ≡ s.rest = ground arith in subst (λ x. IsSized x i) (sym same) sized
        | inr within ↦
            let shown : ltb_ℤ (pos (size b.js_value)) (pos n) ≡ false =
              ap (λ z. ltb_ℤ z (pos n)) (sym sized.agrees) ∙ within in
            let le : n ≤ size b.js_value = ground arith in
            after_slice sliced s s' i (pos n) b r sized
              (λ v e.
                ap (λ (k : ℕ). pos k)
                  (sym (
                    laws.sliced b.js_value v n s.rest.world sliced.1 le
                      (ap (λ (x : Result V). (x, sliced.1)) e))))
              (rw within at h)
      ]
