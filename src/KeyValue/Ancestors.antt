-- ===== src/KeyValue/Ancestors.antt =====
-- The first loop of findMissingDirs in keyvalue/fs.go: path.Dir goes up one name at a time.
use hackpadfs.Base.{
  ℕ, zero, suc, ◌≤◌, ◌<◌, Text, text_eq, text_eq_refl, true, false, some, List, [], ◌∷◌, ◌≡◌, refl,
  ap, ◌∙◌, arith, Bool-cases, inl, inr, length, take, take_all, subst, ◌==◌,
}
use hackpadfs.FilePath.{slash, dot, valid_path, path_dir, elems, push}
use hackpadfs.FilePath.Elems.{elems-cons}
use hackpadfs.FilePath.Names.{AreNames, path_of, path_of-ne-dot, names, path_of-names}
use hackpadfs.FilePath.Join.{AreNames-names}
use hackpadfs.FilePath.Parent.{init, path_dir-init}
use hackpadfs.KeyValue.Fs.{ancestors}

-- The paths of the first k names, of the first k - 1, and so on without the root.
abbrev pub upwards : ℕ → List Text → List Text
upwards zero ns = []
upwards (suc k) ns = path_of (take (suc k) ns) ∷ upwards k ns

AreNames-take : (k : ℕ) (ns : List Text) → AreNames ns → AreNames (take k ns)
AreNames-take zero ns h = refl
AreNames-take (suc k) [] h = refl
AreNames-take (suc k) (n ∷ ns) h = ground (arith, AreNames-take k ns)

init-take : (k : ℕ) (ns : List Text) → suc k ≤ length ns → init (take (suc k) ns) ≡ take k ns
unfolding init
init-take k [] le = absurd (omega arith)
init-take zero (n ∷ ns) le = refl
init-take (suc k) (n ∷ []) le = absurd (omega arith)
init-take (suc k) (n ∷ m ∷ ms) le = ap (λ x. n ∷ x) (init-take k (m ∷ ms) (omega arith))

ancestors-dot : (fuel : ℕ) → ancestors (suc fuel) dot ≡ some []
unfolding ancestors
ancestors-dot fuel = rw (text_eq_refl dot)

ancestors-step :
    (fuel : ℕ) (p : Text) (ps : List Text)
    → text_eq p dot ≡ false
    → ancestors fuel (path_dir p) ≡ some ps
    → ancestors (suc fuel) p ≡ some (p ∷ ps)
unfolding ancestors
ancestors-step fuel p ps below rest = rw (below, rest)

below-root :
    (k : ℕ) (ns : List Text)
    → AreNames ns
    → suc k ≤ length ns
    → text_eq (path_of (take (suc k) ns)) dot ≡ false
below-root k [] h le = absurd (omega arith)
below-root k (n ∷ ns) h le = path_of-ne-dot n (take k ns) (AreNames-take (suc k) (n ∷ ns) h)

ancestors-upwards :
    (fuel k : ℕ) (ns : List Text)
    → AreNames ns
    → k ≤ length ns
    → k < fuel
    → ancestors fuel (path_of (take k ns)) ≡ some (upwards k ns)
ancestors-upwards zero k ns h le lt = absurd (omega arith)
ancestors-upwards (suc fuel) zero ns h le lt = unfold path_of in ancestors-dot fuel
ancestors-upwards (suc fuel) (suc k) ns h le lt = ancestors-step fuel _ _ (below-root k ns h le) (
    rw (path_dir-init (take (suc k) ns) (AreNames-take (suc k) ns h), init-take k ns le)
      (ancestors-upwards fuel k ns h (omega arith) (omega arith)))

-- A string has at most one element more than bytes.
length-elems : (s : Text) → length (elems s) ≤ suc (length s)
unfolding elems
length-elems [] = omega arith
length-elems (c ∷ s) = elim (Bool-cases (c == slash)) [
  | inl cut ↦ rw cut (omega (arith, length-elems s))
  | inr keep ↦
      let (e, es, q) = elems-cons s in
      rw (keep, q) (unfold push in (omega (arith, length-elems s, ap length q)))
]

length-names : (p : Text) → length (names p) ≤ suc (length p)
unfolding names
length-names p = elim (Bool-cases (text_eq p dot)) [
  | inl root ↦ rw root (omega arith)
  | inr other ↦ rw other (length-elems p)
]

-- With fuel for the length of the path and two, the loop over a valid path ends, with the path,
-- its parent, and so on up to the root, the root left out.
pub ancestors-enough :
    (p : Text)
    → valid_path p ≡ true
    → ancestors (suc (suc (length p))) p ≡ some (upwards (length (names p)) (names p))
ancestors-enough p h =
    let ns = names p in
    let whole = take_all (length ns) ns (omega arith) in
    subst (λ x. ancestors (suc (suc (length p))) x ≡ some (upwards (length ns) ns))
      (ap path_of whole ∙ path_of-names p)
      (ancestors-upwards (suc (suc (length p))) (length ns) ns (AreNames-names p h) (omega arith)
        (omega (arith, length-names p)))
