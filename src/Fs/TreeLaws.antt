-- ===== src/Fs/TreeLaws.antt =====
-- The loop of MkdirAll of fs.go over the bytes of a path, and the path's ancestors.
use hackpadfs.Base.{
  ℕ, Text, text_eq, not, true, false, Option, none, some, List, [], ◌∷◌, ◌++◌, ◌≡◌, ◌≢◌, refl, ap,
  sym, ◌∙◌, arith, ◌==◌, if◌then◌else◌, Bool-cases, inl, inr, append_assoc, append-nil,
  text_eq_sound,
}
use hackpadfs.Errors.{sentinel, path_error, err_invalid, Result, ok, err}
use hackpadfs.FilePath.{slash, dot, valid_path, elems, push, join_elems}
use hackpadfs.FilePath.Elems.{elems-cons}
use hackpadfs.FilePath.Names.{path_of, names}
use hackpadfs.FilePath.Join.{path_of-append}
use hackpadfs.Fs.{Action, ◌>>=◌, ◌>>◌, Ops, plain}
use hackpadfs.Fs.Dispatch.{mkdir}
use hackpadfs.Fs.Trees.{made_before, make_ancestors, mkdir_all}

-- The paths of the proper ancestors below the root, from the top down; `above` are the names in
-- front.
pub ancestors_down : List Text → List Text → List Text
ancestors_down above [] = []
ancestors_down above (n ∷ []) = []
ancestors_down above (n ∷ m ∷ ms) =
    path_of (above ++ (n ∷ [])) ∷ ancestors_down (above ++ (n ∷ [])) (m ∷ ms)

-- What stands in front of each slash.
cuts : Text → List Text → List Text
cuts seen [] = []
cuts seen (f ∷ fs) = seen ∷ cuts (seen ++ (slash ∷ f)) fs

cuts_of : Text → List Text → List Text
cuts_of seen [] = []
cuts_of seen (e ∷ es) = cuts (seen ++ e) es

cuts_of-slash :
    (seen s : Text) (c : ℕ)
    → (c == slash) ≡ true
    → cuts_of seen (elems (c ∷ s)) ≡ seen ∷ cuts_of (seen ++ (c ∷ [])) (elems s)
unfolding cuts_of cuts elems
cuts_of-slash seen s c cut =
    let (f, fs, q) = elems-cons s in
    let same : c ≡ slash = ground arith in
    rw (cut, q, append-nil seen, append_assoc seen (c ∷ []) f, same)

cuts_of-other :
    (seen s : Text) (c : ℕ)
    → (c == slash) ≡ false
    → cuts_of seen (elems (c ∷ s)) ≡ cuts_of (seen ++ (c ∷ [])) (elems s)
unfolding cuts_of elems push
cuts_of-other seen s c other =
    let (f, fs, q) = elems-cons s in rw (other, q, append_assoc seen (c ∷ []) f)

cons-ne-nil : (x : Text) (xs : List Text) → x ∷ xs ≢ []
cons-ne-nil x xs h = absurd (cc)

snoc-ne-nil : (xs : List Text) (x : Text) → xs ++ (x ∷ []) ≢ []
snoc-ne-nil [] x h = cons-ne-nil x [] h
snoc-ne-nil (y ∷ xs) x h = cons-ne-nil y (xs ++ (x ∷ [])) h

cuts-path_of :
    (above : List Text) (n : Text) (ns : List Text)
    → cuts (path_of (above ++ (n ∷ []))) ns ≡ ancestors_down above (n ∷ ns)
unfolding cuts ancestors_down path_of join_elems
cuts-path_of above n [] = refl
cuts-path_of above n (m ∷ ms) =
    ap (λ x. path_of (above ++ (n ∷ [])) ∷ cuts x ms)
      (sym (path_of-append (above ++ (n ∷ [])) (m ∷ []) (snoc-ne-nil above n) (cons-ne-nil m [])))
    ∙ ap (λ x. path_of (above ++ (n ∷ [])) ∷ x) (cuts-path_of (above ++ (n ∷ [])) m ms)

cuts-names : (p : Text) → cuts_of [] (elems p) ≡ ancestors_down [] (names p)
unfolding names cuts_of path_of join_elems
cuts-names p = elim (Bool-cases (text_eq p dot)) [
  | inl root ↦ rw root (
      ap (λ x. cuts_of [] (elems x)) (text_eq_sound p dot root)
      ∙ unfold elems cuts ancestors_down in refl)
  | inr other ↦ let (e, es, q) = elems-cons p in rw (other, q) (cuts-path_of [] e es)
]

pub same_function : {A B : Type 0} (f g : A → B) → ((x : A) → f x ≡ g x) → f ≡ g
same_function f g h = λ i. λ x. h x i

module _ {W : Type 0} (o : Ops W) where
  -- Mkdir of one path after the other, as MkdirAll does it.
  unfoldable pub make_each : List Text → ℕ → Action W (Unit {0})
  make_each [] perm w = (ok tt, w)
  make_each (p ∷ ps) perm w =
      let (r, w1) = mkdir (plain o) p perm w in
      elim r [
        | ok _ ↦ make_each ps perm w1
        | err e ↦ (made_before o e >>= λ _. make_each ps perm) w1
      ]

  step : Text → ℕ → W → Action W (Unit {0}) → Result (Unit {0}) × W
  step p perm w k =
      let (r, w1) = mkdir (plain o) p perm w in
      elim r [ ok _ ↦ k w1 | err e ↦ (made_before o e >>= λ _. k) w1 ]

  make_each-cons :
      (p : Text) (ps : List Text) (perm : ℕ) (w : W)
      → make_each (p ∷ ps) perm w ≡ step p perm w (make_each ps perm)
  unfolding make_each step
  make_each-cons p ps perm w = refl

  make_ancestors-slash :
      (seen s : Text) (c perm : ℕ) (w : W)
      → (c == slash) ≡ true
      → make_ancestors o seen (c ∷ s) perm w
        ≡ step seen perm w (make_ancestors o (seen ++ (c ∷ [])) s perm)
  unfolding make_ancestors step
  make_ancestors-slash seen s c perm w h = rw (h, make_ancestors)

  make_ancestors-other :
      (seen s : Text) (c perm : ℕ) (w : W)
      → (c == slash) ≡ false
      → make_ancestors o seen (c ∷ s) perm w ≡ make_ancestors o (seen ++ (c ∷ [])) s perm w
  unfolding make_ancestors
  make_ancestors-other seen s c perm w h = rw (h, make_ancestors)

  make_ancestors-cuts :
      (seen s : Text) (perm : ℕ) (w : W)
      → make_ancestors o seen s perm w ≡ make_each (cuts_of seen (elems s)) perm w
  make_ancestors-cuts seen [] perm w = unfold make_ancestors make_each cuts_of cuts elems in refl
  make_ancestors-cuts seen (c ∷ s) perm w = elim (Bool-cases (c == slash)) [
    | inl cut ↦
        make_ancestors-slash seen s c perm w cut
        ∙ ap (step seen perm w) (same_function _ _ (make_ancestors-cuts (seen ++ (c ∷ [])) s perm))
        ∙ sym (make_each-cons seen (cuts_of (seen ++ (c ∷ [])) (elems s)) perm w)
        ∙ ap (λ ps. make_each ps perm w) (sym (cuts_of-slash seen s c cut))
    | inr other ↦
        make_ancestors-other seen s c perm w other
        ∙ make_ancestors-cuts (seen ++ (c ∷ [])) s perm w
        ∙ ap (λ ps. make_each ps perm w) (sym (cuts_of-other seen s c other))
  ]

  pub mkdir_all-fallback :
      (p : Text) (perm : ℕ) (w : W)
      → valid_path p ≡ true
      → o.mkdir_all ≡ none
      → mkdir_all (plain o) p perm w ≡ (make_ancestors o [] p perm >> mkdir (plain o) p perm) w
  unfolding mkdir_all
  mkdir_all-fallback p perm w h k =
      ap
        (λ (c : Option (Text → ℕ → Action W (Unit {0}))). elim c as (λ x. Result (Unit {0}) × W) [
          | some call ↦ call p perm w
          | none ↦
              if not (valid_path p)
              then (err (path_error "mkdirall" p (sentinel err_invalid)), w)
              else (make_ancestors o [] p perm >> mkdir (plain o) p perm) w
        ])
        k
      ∙ rw h

  pub make_ancestors-names :
      (p : Text) (perm : ℕ) (w : W)
      → make_ancestors o [] p perm w ≡ make_each (ancestors_down [] (names p)) perm w
  make_ancestors-names p perm w =
      make_ancestors-cuts [] p perm w ∙ ap (λ ps. make_each ps perm w) (cuts-names p)
