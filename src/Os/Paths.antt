-- ===== src/Os/Paths.antt =====
-- Separators: what from_separator and to_separator do to a text without the separator's byte.
use hackpadfs.Base.{
  ℕ, Text, Bool, true, false, ◌||◌, not, [], ◌∷◌, ◌++◌, ◌≡◌, refl, ap, arith, ◌==◌, if◌then◌else◌,
  Bool-cases, inl, inr, all,
}
use hackpadfs.FilePath.{slash}
use hackpadfs.Os.{trim_left, replace_all, from_separator, to_separator}

-- No byte of the text is the separator, or the separator is the slash.
abbrev pub no_separator : ℕ → Text → Bool
no_separator sep t = sep == slash || all (λ c. not (c == sep)) t

pub from_separator-append :
    (sep : ℕ) (s t : Text)
    → from_separator sep (s ++ t) ≡ from_separator sep s ++ from_separator sep t
unfolding from_separator replace_all
from_separator-append sep s t = elim (Bool-cases (sep == slash)) [
  | inl same ↦ rw same
  | inr other ↦ rw other (replaced s)
]
  where
    replaced :
        (s : Text)
        → replace_all slash sep (s ++ t) ≡ replace_all slash sep s ++ replace_all slash sep t
    replaced [] = refl
    replaced (c ∷ s) = ap (λ r. (if c == slash then sep else c) ∷ r) (replaced s)

from_separator-slash :
    (sep : ℕ) (t : Text) → from_separator sep (slash ∷ t) ≡ sep ∷ from_separator sep t
unfolding from_separator replace_all
from_separator-slash sep t = ground arith

replace_back :
    (sep : ℕ) (t : Text)
    → all (λ c. not (c == sep)) t ≡ true
    → replace_all sep slash (replace_all slash sep t) ≡ t
unfolding replace_all
replace_back sep [] h = refl
replace_back sep (c ∷ t) h = elim (Bool-cases (c == slash)) [
  | inl is ↦ rw is (ground (arith, replace_back sep t))
  | inr other ↦ rw other (ground (arith, replace_back sep t))
]

pub to_separator-from_separator :
    (sep : ℕ) (t : Text) → no_separator sep t ≡ true → to_separator sep (from_separator sep t) ≡ t
unfolding to_separator from_separator
to_separator-from_separator sep t h = elim (Bool-cases (sep == slash)) [
  | inl same ↦ rw same
  | inr other ↦ rw other (replace_back sep t (ground arith))
]

-- The leading separator goes, and no byte of a name behind it.
pub trim_left-slash :
    (sep c : ℕ) (t : Text)
    → (c == slash) ≡ false
    → no_separator sep (c ∷ t) ≡ true
    → trim_left sep (from_separator sep (slash ∷ c ∷ t)) ≡ from_separator sep (c ∷ t)
unfolding trim_left from_separator replace_all
trim_left-slash sep c t e h = ground arith

pub trim_left-slash_nil : (sep : ℕ) → trim_left sep (from_separator sep (slash ∷ [])) ≡ []
unfolding trim_left from_separator replace_all
trim_left-slash_nil sep = ground arith

replace_all_self : (sep : ℕ) (t : Text) → sep ≡ slash → replace_all sep slash t ≡ t
unfolding replace_all
replace_all_self sep [] e = refl
replace_all_self sep (c ∷ t) e = ground (arith, replace_all_self sep t)

-- strings.ReplaceAll(path, separator, "/") undoes from_separator.
pub replace_all-from_separator :
    (sep : ℕ) (t : Text)
    → no_separator sep t ≡ true
    → replace_all sep slash (from_separator sep t) ≡ t
unfolding from_separator
replace_all-from_separator sep t h = elim (Bool-cases (sep == slash)) [
  | inl same ↦ rw same (replace_all_self sep t (ground arith))
  | inr other ↦ rw other (replace_back sep t (ground arith))
]
