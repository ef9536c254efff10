-- ===== src/Base/Windows.antt =====
-- Arrays: reads and writes by index, Go's copy, and the window that a slice shows.
use Prim.Native.Nat.{ℕ, zero, suc, ◌+◌, ◌-◌, ◌≤◌, ◌<◌}
use mathlib.Core.Path.{◌≡◌, refl, ap, sym, ◌∙◌}
use mathlib.Core.Logic.{◌≢◌}
use mathlib.Core.List.{List, [], ◌∷◌, ◌++◌}
use native.Mathlib.Nat.{zero-add, suc-add, sub-zero, zero-sub, suc-sub-suc}
use native.Mathlib.Omega.{arith}
use hackpadfs.Base.Lists.{length, take, drop, length-take, length-drop}

module _ {ℓ} {A : Type ℓ} where
  abbrev pub get_or : List A → ℕ → A → A
  get_or [] i d = d
  get_or (x ∷ xs) zero d = x
  get_or (x ∷ xs) (suc i) d = get_or xs i d

  -- A write out of bounds changes nothing.
  abbrev pub set : List A → ℕ → A → List A
  set [] i v = []
  set (x ∷ xs) zero v = v ∷ xs
  set (x ∷ xs) (suc i) v = x ∷ set xs i v

  -- What Go's copy(xs[k:], ys) leaves in xs, where ys is no longer than xs[k:].
  abbrev pub overwrite : ℕ → List A → List A → List A
  overwrite zero [] xs = xs
  overwrite zero (y ∷ ys) [] = []
  overwrite zero (y ∷ ys) (x ∷ xs) = y ∷ overwrite zero ys xs
  overwrite (suc k) ys [] = []
  overwrite (suc k) ys (x ∷ xs) = x ∷ overwrite k ys xs

  -- xs[off : off+len]
  abbrev pub window : ℕ → ℕ → List A → List A
  window off len xs = take len (drop off xs)

module _ {ℓ} {A : Type ℓ} where
  pub length-set : (xs : List A) (i : ℕ) (v : A) → length (set xs i v) ≡ length xs
  length-set [] i v = refl
  length-set (x ∷ xs) zero v = refl
  length-set (x ∷ xs) (suc i) v = ap suc (length-set xs i v)

  pub get_or-set_self :
      (xs : List A) (i : ℕ) (v d : A) → i < length xs → get_or (set xs i v) i d ≡ v
  get_or-set_self [] i v d h = absurd (omega arith)
  get_or-set_self (x ∷ xs) zero v d h = refl
  get_or-set_self (x ∷ xs) (suc i) v d h = get_or-set_self xs i v d (omega arith)

  pub get_or-set_ne :
      (xs : List A) (i j : ℕ) (v d : A) → i ≢ j → get_or (set xs i v) j d ≡ get_or xs j d
  get_or-set_ne [] i j v d h = refl
  get_or-set_ne (x ∷ xs) zero zero v d h = absurd (h refl)
  get_or-set_ne (x ∷ xs) zero (suc j) v d h = refl
  get_or-set_ne (x ∷ xs) (suc i) zero v d h = refl
  get_or-set_ne (x ∷ xs) (suc i) (suc j) v d h = get_or-set_ne xs i j v d (λ e. h (ap suc e))

  pub get_or-append :
      (xs ys : List A) (i : ℕ) (d : A) → i < length xs → get_or (xs ++ ys) i d ≡ get_or xs i d
  get_or-append [] ys i d h = absurd (omega arith)
  get_or-append (x ∷ xs) ys zero d h = refl
  get_or-append (x ∷ xs) ys (suc i) d h = get_or-append xs ys i d (omega arith)

  pub get_or-append_new : (xs : List A) (y d : A) → get_or (xs ++ (y ∷ [])) (length xs) d ≡ y
  get_or-append_new [] y d = refl
  get_or-append_new (x ∷ xs) y d = get_or-append_new xs y d

  pub length-overwrite : (k : ℕ) (ys xs : List A) → length (overwrite k ys xs) ≡ length xs
  length-overwrite zero [] xs = refl
  length-overwrite zero (y ∷ ys) [] = refl
  length-overwrite zero (y ∷ ys) (x ∷ xs) = ap suc (length-overwrite zero ys xs)
  length-overwrite (suc k) ys [] = refl
  length-overwrite (suc k) ys (x ∷ xs) = ap suc (length-overwrite k ys xs)

  -- The bytes in front of an overwrite, and behind it.
  take-overwrite : (n k : ℕ) (ys xs : List A) → n ≤ k → take n (overwrite k ys xs) ≡ take n xs
  take-overwrite zero k ys xs h = refl
  take-overwrite (suc n) zero ys xs h = absurd (omega arith)
  take-overwrite (suc n) (suc k) ys [] h = refl
  take-overwrite (suc n) (suc k) ys (x ∷ xs) h =
      ap (λ l. x ∷ l) (take-overwrite n k ys xs (omega arith))

  drop-overwrite_behind :
      (n k : ℕ) (ys xs : List A) → k + length ys ≤ n → drop n (overwrite k ys xs) ≡ drop n xs
  drop-overwrite_behind n zero [] xs h = refl
  drop-overwrite_behind zero zero (y ∷ ys) xs h = absurd (omega arith)
  drop-overwrite_behind (suc n) zero (y ∷ ys) [] h = refl
  drop-overwrite_behind (suc n) zero (y ∷ ys) (x ∷ xs) h =
      drop-overwrite_behind n zero ys xs (omega arith)
  drop-overwrite_behind zero (suc k) ys xs h = absurd (omega arith)
  drop-overwrite_behind (suc n) (suc k) ys [] h = refl
  drop-overwrite_behind (suc n) (suc k) ys (x ∷ xs) h =
      drop-overwrite_behind n k ys xs (omega arith)

  drop-overwrite :
      (n k : ℕ) (ys xs : List A) → drop n (overwrite (n + k) ys xs) ≡ overwrite k ys (drop n xs)
  drop-overwrite zero k ys xs = rw zero-add
  drop-overwrite (suc n) k ys [] = rw (suc-add n k) (nil k ys)
    where
      nil : (k : ℕ) (ys : List A) → [] ≡ overwrite k ys []
      nil zero [] = refl
      nil zero (y ∷ ys) = refl
      nil (suc k) ys = refl
  drop-overwrite (suc n) k ys (x ∷ xs) = rw (suc-add n k) (drop-overwrite n k ys xs)

  take-overwrite_within :
      (n k : ℕ) (ys xs : List A)
      → k + length ys ≤ n
      → take n (overwrite k ys xs) ≡ overwrite k ys (take n xs)
  take-overwrite_within n zero [] xs h = refl
  take-overwrite_within zero zero (y ∷ ys) xs h = absurd (omega arith)
  take-overwrite_within (suc n) zero (y ∷ ys) [] h = refl
  take-overwrite_within (suc n) zero (y ∷ ys) (x ∷ xs) h =
      ap (λ l. y ∷ l) (take-overwrite_within n zero ys xs (omega arith))
  take-overwrite_within zero (suc k) ys xs h = absurd (omega arith)
  take-overwrite_within (suc n) (suc k) ys [] h = refl
  take-overwrite_within (suc n) (suc k) ys (x ∷ xs) h =
      ap (λ l. x ∷ l) (take-overwrite_within n k ys xs (omega arith))

  -- A window of an overwrite that lies within it is an overwrite of the window.
  pub window-overwrite :
      (off len k : ℕ) (ys xs : List A)
      → k + length ys ≤ len
      → window off len (overwrite (off + k) ys xs) ≡ overwrite k ys (window off len xs)
  window-overwrite off len k ys xs h =
      ap (take len) (drop-overwrite off k ys xs) ∙ take-overwrite_within len k ys (drop off xs) h

  drop-drop : (m n : ℕ) (xs : List A) → drop m (drop n xs) ≡ drop (n + m) xs
  drop-drop m zero xs = rw zero-add
  drop-drop zero (suc n) [] = rw (suc-add n zero)
  drop-drop (suc m) (suc n) [] = rw (suc-add n (suc m))
  drop-drop m (suc n) (x ∷ xs) = rw (suc-add n m) (drop-drop m n xs)

  take-nil : (n : ℕ) → take {A = A} n [] ≡ []
  take-nil zero = refl
  take-nil (suc n) = refl

  drop-take : (m n : ℕ) (xs : List A) → drop m (take n xs) ≡ take (n - m) (drop m xs)
  drop-take zero n xs = rw sub-zero
  drop-take (suc m) zero xs = rw (zero-sub (suc m))
  drop-take (suc m) (suc n) [] = sym (take-nil (suc n - suc m))
  drop-take (suc m) (suc n) (x ∷ xs) = rw suc-sub-suc (drop-take m n xs)

  pub take-take : (m n : ℕ) (xs : List A) → m ≤ n → take m (take n xs) ≡ take m xs
  take-take zero n xs h = refl
  take-take (suc m) zero xs h = absurd (omega arith)
  take-take (suc m) (suc n) [] h = refl
  take-take (suc m) (suc n) (x ∷ xs) h = ap (λ l. x ∷ l) (take-take m n xs (omega arith))

  -- A window of a window.
  pub window-window :
      (s n off len : ℕ) (xs : List A)
      → s + n ≤ len
      → window s n (window off len xs) ≡ window (off + s) n xs
  window-window s n off len xs h =
      ap (take n) (drop-take s len (drop off xs))
      ∙ take-take n (len - s) (drop s (drop off xs)) (omega arith)
      ∙ ap (take n) (drop-drop s off xs)

  pub length-window :
      (off len : ℕ) (xs : List A) → off + len ≤ length xs → length (window off len xs) ≡ len
  length-window off len xs h = omega (arith, length-take len (drop off xs), length-drop off xs)

  pub overwrite_all : (ys xs : List A) → length ys ≡ length xs → overwrite 0 ys xs ≡ ys
  overwrite_all [] [] h = refl
  overwrite_all [] (x ∷ xs) h = absurd (omega arith)
  overwrite_all (y ∷ ys) [] h = absurd (omega arith)
  overwrite_all (y ∷ ys) (x ∷ xs) h = ap (λ l. y ∷ l) (overwrite_all ys xs (omega arith))

  pub take-append : (xs ys : List A) → take (length xs) (xs ++ ys) ≡ xs
  take-append [] ys = refl
  take-append (x ∷ xs) ys = ap (λ l. x ∷ l) (take-append xs ys)

  overwrite-take :
      (len : ℕ) (xs ys : List A)
      → len + length ys ≤ length xs
      → overwrite len ys (take (len + length ys) xs) ≡ take len xs ++ ys
  overwrite-take zero xs ys h =
      rw zero-add
        (overwrite_all ys (take (length ys) xs) (omega (arith, length-take (length ys) xs)))
  overwrite-take (suc len) [] ys h = absurd (omega arith)
  overwrite-take (suc len) (x ∷ xs) ys h =
      rw (suc-add len (length ys)) (ap (λ l. x ∷ l) (overwrite-take len xs ys (omega arith)))

  -- A window that grows in place over an overwritten end.
  pub window-overwrite_end :
      (off len : ℕ) (ys xs : List A)
      → off + (len + length ys) ≤ length xs
      → window off (len + length ys) (overwrite (off + len) ys xs) ≡ window off len xs ++ ys
  window-overwrite_end off len ys xs h =
      window-overwrite off (len + length ys) len ys xs (omega arith)
      ∙ overwrite-take len (drop off xs) ys (omega (arith, length-drop off xs))
