-- ===== src/IdbBlob/Tests.antt =====
-- Blobs over arrays that are texts.
use hackpadfs.Base.{
  ℕ, sym, ◌∙◌, Text, codes, true, none, [], ◌∷◌, ◌≡◌, refl, ap, arith, length, take, drop,
  replicate, length-take, length-replicate,
}
use hackpadfs.Base.Int.{ℤ, pos, negsuc, add64}
use hackpadfs.Errors.{text_error, Result, ok, err}
use hackpadfs.Blob.Dispatch.{State}
use hackpadfs.IdbBlob.{Js, Objects, grow}
use hackpadfs.IdbBlob.Sizes.{Lengths, IsSized, grow-IsSized}

abbrev World : Type 0
World = Unit {0}

abbrev new_text : ℤ → World → Result Text × World
new_text (pos n) w = (ok (replicate n 0), w)
new_text (negsuc n) w = (err (text_error "RangeError"), w)

abbrev slice_text : Text → ℤ → ℤ → World → Result Text × World
slice_text v (pos a) (pos b) w = (ok (drop a (take b v)), w)
slice_text v _ _ w = (ok [], w)

abbrev texts : Js Text World
texts = record {
  truthy = λ v w. (ok true, w);
  is_uint8_array = λ v w. (ok true, w);
  new_array = new_text;
  array_length = λ v w. (ok (length v), w);
  subarray = slice_text;
  slice_array = slice_text;
  set_array = λ v v' n w. (ok tt, w);
  to_js = λ v t w. (ok tt, w);
  to_go = λ n v w. (ok v, w);
}

abbrev text_of : Result Text → Text
text_of (ok v) = v
text_of (err e) = []

new_text-length : (z : ℤ) (v : Text) (w w' : World) → new_text z w ≡ (ok v, w') → z ≡ pos (length v)
new_text-length (pos n) v w w' e =
    ap (λ (k : ℕ). pos k)
      (sym (length-replicate n 0) ∙ ap (λ (q : Result Text × World). length (text_of q.0)) e)
new_text-length (negsuc n) v w w' e = absurd (cc)

texts-Lengths : Lengths texts (λ v. length v)
texts-Lengths = record {
  made = new_text-length;
  sliced = λ v v' n w w' le e.
      sym (ap (λ (q : Result Text × World). length (text_of q.0)) e)
      ∙ omega (arith, length-take n v);
}

-- Two bytes that no *Bytes stands for.
abbrev two_bytes : State (Objects Text World)
two_bytes = record {
  heap = record { arrays = []; blobs = []; mutexes = 0 };
  rest = record {
    world = tt;
    blobs = record { bytes = none; js_value = codes "ab"; length_field = pos 2 } ∷ [];
  };
}

two_bytes-IsSized : IsSized texts (λ len n. n) [] (λ v. length v) two_bytes.rest 0
two_bytes-IsSized = record { there = omega arith; agrees = refl }

abbrev grown : State (Objects Text World)
grown = record two_bytes {
  rest = record {
    world = tt;
    blobs = record { bytes = none; js_value = replicate 5 0; length_field = pos 5 } ∷ [];
  };
}

grow-IsSized_example : IsSized texts (λ len n. n) [] (λ v. length v) grown.rest 0
unfolding grow add64
grow-IsSized_example =
    grow-IsSized texts (λ len n. n) [] (λ v. length v) texts-Lengths 0 (pos 3) two_bytes grown
      (ok tt) two_bytes-IsSized refl
