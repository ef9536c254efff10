-- ===== src/FilePath/Names.antt =====
-- A valid path is a list of names. `path_of` writes one down, and path.Join, path.Dir and
-- path.Clean act on the lists.
use hackpadfs.Base.{
  Text, text_eq, text_eq_sound, Bool, true, false, ◌&&◌, List, [], ◌∷◌, ◌≡◌, refl, ap, sym, ◌∙◌,
  arith, if◌then◌else◌, Bool-cases, inl, inr, all,
}
use hackpadfs.FilePath.{dot, utf8_valid, elems, join_elems, valid_elem}
use hackpadfs.FilePath.Elems.{lacks_slash, elems-cons, join_elems-elems, elems-join_elems}

-- What may stand between two slashes.
unfoldable pub is_name : Text → Bool
is_name e = utf8_valid e && valid_elem e && lacks_slash e

abbrev pub AreNames : List Text → Type 0
AreNames ns = all is_name ns ≡ true

-- The path of a list of names; the empty list is the root.
unfoldable pub path_of : List Text → Text
path_of [] = dot
path_of (n ∷ ns) = join_elems (n ∷ ns)

-- The names of a path.
unfoldable pub names : Text → List Text
names p = if text_eq p dot then [] else elems p

pub AreNames-parts :
    (ns : List Text)
    → AreNames ns
    → (all utf8_valid ns ≡ true) × (all valid_elem ns ≡ true) × (all lacks_slash ns ≡ true)
unfolding is_name
AreNames-parts [] h = (refl, refl, refl)
AreNames-parts (n ∷ ns) h = ground (arith, AreNames-parts ns)

AreNames-of_parts :
    (ns : List Text)
    → all utf8_valid ns ≡ true
    → all valid_elem ns ≡ true
    → all lacks_slash ns ≡ true
    → AreNames ns
unfolding is_name
AreNames-of_parts [] u v l = refl
AreNames-of_parts (n ∷ ns) u v l = ground (arith, AreNames-of_parts ns)

pub elems-path_of :
    (n : Text) (ns : List Text) → AreNames (n ∷ ns) → elems (path_of (n ∷ ns)) ≡ n ∷ ns
unfolding path_of
elems-path_of n ns h = elems-join_elems n ns (AreNames-parts (n ∷ ns) h).2

-- The path of a name or more is not the root's.
pub path_of-ne-dot :
    (n : Text) (ns : List Text) → AreNames (n ∷ ns) → text_eq (path_of (n ∷ ns)) dot ≡ false
path_of-ne-dot n ns h = elim (Bool-cases (text_eq (path_of (n ∷ ns)) dot)) [
  | inr differs ↦ differs
  | inl same ↦
      let e = sym (elems-path_of n ns h) ∙ ap elems (text_eq_sound _ _ same) in
      let v = (AreNames-parts (n ∷ ns) h).1 in
      absurd (unfold elems valid_elem text_eq in (ground (arith, ap (all valid_elem) e)))
]

pub names-path_of : (ns : List Text) → AreNames ns → names (path_of ns) ≡ ns
unfolding names
names-path_of [] h = unfold path_of text_eq in refl
names-path_of (n ∷ ns) h = rw (path_of-ne-dot n ns h) (elems-path_of n ns h)

pub path_of-names : (p : Text) → path_of (names p) ≡ p
unfolding names path_of
path_of-names p = elim (Bool-cases (text_eq p dot)) [
  | inl root ↦ rw root (sym (text_eq_sound p dot root))
  | inr other ↦ rw other (let (e, es, eq) = elems-cons p in rw eq (rw (← eq) (join_elems-elems p)))
]
