-- ===== src/Base/Strings.antt =====
-- Go strings: byte sequences, with the tests of package strings that the file systems use.
use Prim.Native.Nat.{ℕ}
use Prim.Native.Char.{code}
use Prim.Native.String.{String}
use mathlib.Core.Path.{◌≡◌, refl, ap}
use mathlib.Core.Logic.{◌↔◌, inl, inr}
use mathlib.Core.Bool.{Bool, true, false, ◌&&◌, ◌||◌}
use mathlib.Core.List.{List, [], ◌∷◌, ◌++◌}
use native.Mathlib.Omega.{arith}
use hackpadfs.Base.Tests.{◌==◌, if◌then◌else◌, ==_refl, Bool-cases}
use hackpadfs.Base.Lists.{length, length-append}

abbrev pub Text : Type 0
Text = List ℕ

-- The bytes of a literal, which is ASCII throughout.
abbrev pub codes : String → Text
codes String.[] = []
codes (String.◌∷◌ c s) = code c ∷ codes s

-- `a == b` on strings.
unfoldable pub text_eq : Text → Text → Bool
text_eq [] [] = true
text_eq [] (d ∷ t) = false
text_eq (c ∷ s) [] = false
text_eq (c ∷ s) (d ∷ t) = c == d && text_eq s t

-- strings.HasPrefix(s, p)
unfoldable pub has_prefix : Text → Text → Bool
has_prefix s [] = true
has_prefix [] (d ∷ p) = false
has_prefix (c ∷ s) (d ∷ p) = c == d && has_prefix s p

-- s[len(p):] where s begins with p, and s otherwise.
drop_prefix : Text → Text → Text → Text
drop_prefix whole s [] = s
drop_prefix whole [] (d ∷ p) = whole
drop_prefix whole (c ∷ s) (d ∷ p) =
    let rest = drop_prefix whole s p in if c == d then rest else whole

-- strings.TrimPrefix(s, p)
unfoldable pub trim_prefix : Text → Text → Text
unfolding drop_prefix
trim_prefix s p = drop_prefix s s p

pub text_eq_sound : (s t : Text) → text_eq s t ≡ true → s ≡ t
unfolding text_eq
text_eq_sound [] [] h = refl
text_eq_sound [] (d ∷ t) h = ground arith
text_eq_sound (c ∷ s) [] h = ground arith
text_eq_sound (c ∷ s) (d ∷ t) h = ground (arith, text_eq_sound s t)

pub text_eq_refl : (s : Text) → text_eq s s ≡ true
unfolding text_eq
text_eq_refl [] = refl
text_eq_refl (c ∷ s) = rw (==_refl c) (text_eq_refl s)

pub text_eq_iff : (s t : Text) → (text_eq s t ≡ true) ↔ (s ≡ t)
text_eq_iff s t = (text_eq_sound s t, λ e. rw e (text_eq_refl t))

pub has_prefix-append : (p s : Text) → has_prefix (p ++ s) p ≡ true
unfolding has_prefix
has_prefix-append [] s = refl
has_prefix-append (c ∷ p) s = rw (==_refl c) (has_prefix-append p s)

-- A prefix leaves a rest.
pub has_prefix-split : (s p : Text) → has_prefix s p ≡ true → (r : Text) × (s ≡ p ++ r)
unfolding has_prefix
has_prefix-split s [] h = (s, refl)
has_prefix-split [] (d ∷ p) h = absurd (cc)
has_prefix-split (c ∷ s) (d ∷ p) h =
    let (r, e) = has_prefix-split s p (ground arith) in (r, ground (arith, e))

drop_prefix-append : (whole p s : Text) → drop_prefix whole (p ++ s) p ≡ s
unfolding drop_prefix
drop_prefix-append whole [] s = refl
drop_prefix-append whole (c ∷ p) s = rw (==_refl c) (drop_prefix-append whole p s)

pub trim_prefix-append : (p s : Text) → trim_prefix (p ++ s) p ≡ s
unfolding trim_prefix
trim_prefix-append p s = drop_prefix-append (p ++ s) p s

-- strings.HasSuffix(s, p)
has_suffix : Text → Text → Bool
unfolding text_eq
has_suffix [] p = text_eq [] p
has_suffix (c ∷ s) p = text_eq (c ∷ s) p || has_suffix s p

-- s[:len(s)-len(p)] where s ends in p, and s otherwise.
unfoldable pub trim_suffix : Text → Text → Text
unfolding text_eq
trim_suffix [] p = []
trim_suffix (c ∷ s) p = if text_eq (c ∷ s) p then [] else c ∷ trim_suffix s p

text_eq-longer : (s t : Text) (c : ℕ) → text_eq (c ∷ (s ++ t)) t ≡ false
text_eq-longer s t c = elim (Bool-cases (text_eq (c ∷ (s ++ t)) t)) [
  | inr differs ↦ differs
  | inl same ↦
      absurd (omega (arith, ap length (text_eq_sound (c ∷ (s ++ t)) t same), length-append s t))
]

pub trim_suffix-append : (p s : Text) → trim_suffix (p ++ s) s ≡ p
unfolding trim_suffix
trim_suffix-append [] [] = refl
trim_suffix-append [] (c ∷ s) = rw (text_eq_refl (c ∷ s))
trim_suffix-append (c ∷ p) s = rw (text_eq-longer p s c, trim_suffix-append p s)
