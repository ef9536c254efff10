-- ===== src/FilePath/Below.antt =====
-- What a valid path that goes on behind a slash says of its two parts, and its first byte.
use hackpadfs.Base.{
  Text, text_eq, text_eq_sound, trim_prefix, true, false, ◌&&◌, ◌||◌, [], ◌∷◌, ◌++◌, ◌≡◌, ◌≢◌, refl,
  ap, sym, ◌∙◌, arith, Bool-cases, inl, inr, all, all-append, subst, length, length-append,
}
use mathlib.Core.Bool.{false≢true}
use hackpadfs.FilePath.{slash, dot, utf8_valid, elems, valid_elem, valid_path}
use hackpadfs.FilePath.Elems.{elems-cons, elems-append}
use hackpadfs.FilePath.Utf8.{utf8_valid-append}
use hackpadfs.FilePath.Names.{names, path_of-names}
use hackpadfs.FilePath.Join.{AreNames-names, path_of-head}

pub slash-ne-dot : (m r : Text) → text_eq (m ++ (slash ∷ r)) dot ≡ false
slash-ne-dot m r = elim (Bool-cases (text_eq (m ++ (slash ∷ r)) dot)) [
  | inr differs ↦ differs
  | inl same ↦
      let e = sym (elems-append m r) ∙ ap elems (text_eq_sound _ dot same) in
      let (a, es, p) = elems-cons m in
      let (b, fs, q) = elems-cons r in
      absurd (
        unfold elems in
        (omega (arith, ap length e, length-append (elems m) (elems r), ap length p, ap length q)))
]

valid_path_lem :
    (p : Text) → valid_path p ≡ (utf8_valid p && (text_eq p dot || all valid_elem (elems p)))
unfolding valid_path
valid_path_lem p = refl

-- Behind a slash of a valid path stands a valid path.
pub valid_path-below : (m r : Text) → valid_path (m ++ (slash ∷ r)) ≡ true → valid_path r ≡ true
valid_path-below m r h = ground (
  arith,
  valid_path_lem (m ++ (slash ∷ r)),
  valid_path_lem r,
  slash-ne-dot m r,
  utf8_valid-append m r,
  ap (all valid_elem) (elems-append m r),
  all-append valid_elem (elems m) (elems r),
)

not-valid_path-nil : valid_path [] ≡ false
unfolding valid_path
not-valid_path-nil = refl

pub ne-nil_of_valid : (p : Text) → valid_path p ≡ true → p ≢ []
ne-nil_of_valid p h e = false≢true (sym (ap valid_path e ∙ not-valid_path-nil) ∙ h)

-- A valid path does not begin with a slash.
pub trim_slash-of_valid : (p : Text) → valid_path p ≡ true → trim_prefix p (slash ∷ []) ≡ p
trim_slash-of_valid p h =
    let (c, s, e, ne) = path_of-head (names p) (AreNames-names p h) in
    subst (λ t. trim_prefix t (slash ∷ []) ≡ t) (sym e ∙ path_of-names p)
      (unfold trim_prefix in (rw ne))
