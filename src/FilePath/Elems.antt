-- ===== src/FilePath/Elems.antt =====
-- Splitting at slashes and joining again.
use hackpadfs.Base.{
  Text, Bool, true, ◌&&◌, not, List, [], ◌∷◌, ◌++◌, ◌≡◌, refl, ap, sym, arith, ◌==◌, Bool-cases,
  inl, inr, all, append_assoc,
}
use hackpadfs.FilePath.{slash, push, elems, join_elems}

unfoldable pub lacks_slash : Text → Bool
lacks_slash [] = true
lacks_slash (c ∷ s) = not (c == slash) && lacks_slash s

-- There is always a first element.
pub elems-cons : (s : Text) → (e : Text) × (es : List Text) × (elems s ≡ e ∷ es)
unfolding elems
elems-cons [] = ([], [], refl)
elems-cons (c ∷ s) = elim (Bool-cases (c == slash)) [
  | inl cut ↦ ([], elems s, rw cut)
  | inr keep ↦ let (e, es, p) = elems-cons s in (c ∷ e, es, rw (keep, p))
]

push-append :
    (c : _) (e : Text) (es fs : List Text) → push c ((e ∷ es) ++ fs) ≡ push c (e ∷ es) ++ fs
unfolding push
push-append c e es fs = refl

-- A slash between two texts separates their elements.
pub elems-append : (p q : Text) → elems (p ++ (slash ∷ q)) ≡ elems p ++ elems q
unfolding elems
elems-append [] q = refl
elems-append (c ∷ p) q = elim (Bool-cases (c == slash)) [
  | inl cut ↦ rw (cut, elems-append p q)
  | inr keep ↦
      let (e, es, eq) = elems-cons p in
      rw (keep, elems-append p q, eq) (push-append c e es (elems q))
]

pub elems-of-lacks_slash : (e : Text) → lacks_slash e ≡ true → elems e ≡ e ∷ []
unfolding elems lacks_slash
elems-of-lacks_slash [] h = refl
elems-of-lacks_slash (c ∷ e) h = elim (Bool-cases (c == slash)) [
  | inl cut ↦ absurd (ground arith)
  | inr keep ↦ rw (keep, elems-of-lacks_slash e (ground arith))
]

join_elems-push :
    (c : _) (e : Text) (es : List Text) → join_elems (push c (e ∷ es)) ≡ c ∷ join_elems (e ∷ es)
unfolding join_elems push
join_elems-push c e [] = refl
join_elems-push c e (f ∷ es) = refl

join_elems-nil :
    (es : List Text) (e : Text) → join_elems ([] ∷ e ∷ es) ≡ slash ∷ join_elems (e ∷ es)
unfolding join_elems
join_elems-nil es e = refl

pub join_elems-elems : (s : Text) → join_elems (elems s) ≡ s
unfolding elems
join_elems-elems [] = unfold join_elems in refl
join_elems-elems (c ∷ s) =
    let (e, es, p) = elems-cons s in
    let ih = join_elems-elems s in
    elim (Bool-cases (c == slash)) [
      | inl cut ↦ rw (cut, p, join_elems-nil es e, ← p, ih) (ground arith)
      | inr keep ↦ rw (keep, p, join_elems-push c e es, ← p, ih)
    ]

pub elems-join_elems :
    (e : Text) (es : List Text)
    → all lacks_slash (e ∷ es) ≡ true
    → elems (join_elems (e ∷ es)) ≡ e ∷ es
unfolding join_elems
elems-join_elems e [] h = elems-of-lacks_slash e (ground arith)
elems-join_elems e (f ∷ es) h =
    rw (elems-append, elems-of-lacks_slash e (ground arith), elems-join_elems f es (ground arith))

pub lacks_slash-elems : (s : Text) → all lacks_slash (elems s) ≡ true
unfolding elems lacks_slash
lacks_slash-elems [] = refl
lacks_slash-elems (c ∷ s) =
    let (e, es, p) = elems-cons s in
    let ih = lacks_slash-elems s in
    elim (Bool-cases (c == slash)) [
      | inl cut ↦ rw cut ih
      | inr keep ↦ rw (keep, p, push) (ground (arith, ap (all lacks_slash) p))
    ]

pub join_elems-append :
    (e f : Text) (es fs : List Text)
    → join_elems ((e ∷ es) ++ (f ∷ fs)) ≡ join_elems (e ∷ es) ++ (slash ∷ join_elems (f ∷ fs))
unfolding join_elems
join_elems-append e f [] fs = refl
join_elems-append e f (g ∷ es) fs =
    rw (join_elems-append g f es fs) (sym (append_assoc e (slash ∷ join_elems (g ∷ es)) _))
