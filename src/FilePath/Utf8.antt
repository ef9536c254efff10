-- ===== src/FilePath/Utf8.antt =====
-- A slash ends every encoded character, so a joined path is valid UTF-8 when its parts are.
use hackpadfs.Base.{
  Text, false, ◌&&◌, none, some, List, [], ◌∷◌, ◌++◌, ◌≡◌, refl, arith, all, Option-cases, inl, inr,
}
use hackpadfs.FilePath.{slash, Utf8State, start, utf8_step, utf8_from, utf8_valid, join_elems}

utf8_from-cons :
    (q : Utf8State) (c : _) (s : Text)
    → utf8_from q (c ∷ s) ≡ (elim (utf8_step q c) [ none ↦ false | some r ↦ utf8_from r s ])
unfolding utf8_from
utf8_from-cons start c s = refl
utf8_from-cons _ c s = refl

utf8_from-append :
    (q : Utf8State) (s t : Text)
    → utf8_from q (s ++ (slash ∷ t)) ≡ (utf8_from q s && utf8_from start t)
utf8_from-append q [] t = at_end q
  where
    at_end : (q : Utf8State) → utf8_from q (slash ∷ t) ≡ (utf8_from q [] && utf8_from start t)
    at_end start = unfold utf8_from utf8_step in refl
    at_end _ = unfold utf8_from utf8_step in refl
utf8_from-append q (c ∷ s) t = elim (Option-cases (utf8_step q c)) [
  | inl e ↦ rw (utf8_from-cons q c s, utf8_from-cons q c (s ++ (slash ∷ t)), e)
  | inr (r, e) ↦
      rw (utf8_from-cons q c s, utf8_from-cons q c (s ++ (slash ∷ t)), e) (utf8_from-append r s t)
]

pub utf8_valid-append :
    (s t : Text) → utf8_valid (s ++ (slash ∷ t)) ≡ (utf8_valid s && utf8_valid t)
unfolding utf8_valid
utf8_valid-append s t = utf8_from-append start s t

pub utf8_valid-join_elems :
    (e : Text) (es : List Text) → utf8_valid (join_elems (e ∷ es)) ≡ all utf8_valid (e ∷ es)
unfolding join_elems
utf8_valid-join_elems e [] = ground arith
utf8_valid-join_elems e (f ∷ es) = rw (utf8_valid-append, utf8_valid-join_elems f es)
