-- ===== src/FilePath/Join.antt =====
-- path.Join, path.Dir and path.Clean of valid paths, as operations on lists of names.
use mathlib.Core.List.{reverse_aux, reverse_aux-reverse_aux-nil, reverse_aux-append}
use hackpadfs.Base.{
  Text, text_eq, text_eq_sound, Bool, true, false, ◌&&◌, List, [], ◌∷◌, ◌++◌, ◌≡◌, ◌≢◌, refl, ap,
  sym, ◌∙◌, arith, ◌==◌, Bool-cases, inl, inr, all, append-nil, subst, all-append,
}
use hackpadfs.FilePath.{
  slash, dot, dotdot, utf8_valid, elems, join_elems, valid_elem, valid_path, clean_elem, clean_loop,
  clean_finish, is_rooted, or_dot, clean, path_join, split_path, split_step, path_dir,
}
use hackpadfs.FilePath.Elems.{
  lacks_slash, elems-cons, elems-append, join_elems-elems, lacks_slash-elems, join_elems-append,
}
use hackpadfs.FilePath.Utf8.{utf8_valid-join_elems}
use hackpadfs.FilePath.Names.{
  is_name, AreNames, AreNames-parts, path_of, names, names-path_of, path_of-names, elems-path_of,
}

utf8_valid-elems : (p : Text) → utf8_valid p ≡ all utf8_valid (elems p)
utf8_valid-elems p =
    let (e, es, eq) = elems-cons p in
    rw eq (
      sym (ap utf8_valid (ap join_elems (sym eq) ∙ join_elems-elems p))
      ∙ utf8_valid-join_elems e es)

all-is_name :
    (ns : List Text)
    → all is_name ns ≡ (all utf8_valid ns && all valid_elem ns && all lacks_slash ns)
unfolding is_name
all-is_name [] = refl
all-is_name (n ∷ ns) = rw (all-is_name ns) (ground arith)

-- A path is valid exactly when it is written from names.
valid_path-names : (p : Text) → valid_path p ≡ all is_name (names p)
unfolding valid_path names
valid_path-names p = elim (Bool-cases (text_eq p dot)) [
  | inl root ↦ rw root (ground (arith, ap utf8_valid (text_eq_sound p dot root)))
  | inr other ↦ ground (arith, all-is_name (elems p), utf8_valid-elems p, lacks_slash-elems p)
]

pub valid_path-path_of : (ns : List Text) → AreNames ns → valid_path (path_of ns) ≡ true
valid_path-path_of ns h = rw (valid_path-names (path_of ns), names-path_of ns h) h

pub AreNames-names : (p : Text) → valid_path p ≡ true → AreNames (names p)
AreNames-names p h = rw (← valid_path-names p) h

valid_elem-parts :
    (e : Text)
    → valid_elem e ≡ true
    → (text_eq e [] ≡ false) × (text_eq e dot ≡ false) × (text_eq e dotdot ≡ false)
unfolding valid_elem
valid_elem-parts e h = ground arith

clean_elem-of_valid :
    (rooted : Bool) (e : Text) (kept : List Text)
    → valid_elem e ≡ true
    → clean_elem rooted e kept ≡ e ∷ kept
unfolding clean_elem
clean_elem-of_valid rooted e kept h = ground (arith, valid_elem-parts e h)

clean_loop-cons :
    (rooted : Bool) (e : Text) (es kept : List Text)
    → valid_elem e ≡ true
    → clean_loop rooted (e ∷ es) kept ≡ clean_loop rooted es (e ∷ kept)
unfolding clean_loop
clean_loop-cons rooted e es kept h = ap (clean_loop rooted es) (clean_elem-of_valid rooted e kept h)

clean_loop-of_valid :
    (rooted : Bool) (es fs kept : List Text)
    → all valid_elem es ≡ true
    → clean_loop rooted (es ++ fs) kept ≡ clean_loop rooted fs (reverse_aux es kept)
clean_loop-of_valid rooted [] fs kept h = refl
clean_loop-of_valid rooted (e ∷ es) fs kept h =
    clean_loop-cons rooted e (es ++ fs) kept (ground arith)
    ∙ clean_loop-of_valid rooted es fs (e ∷ kept) (ground arith)

-- path.Clean's loop keeps the names of a path.
pub clean_loop-path_of :
    (rooted : Bool) (ns fs kept : List Text)
    → AreNames ns
    → clean_loop rooted (elems (path_of ns) ++ fs) kept ≡ clean_loop rooted fs (reverse_aux ns kept)
clean_loop-path_of rooted [] fs kept h = unfold path_of elems clean_loop clean_elem text_eq in refl
clean_loop-path_of rooted (n ∷ ns) fs kept h =
    rw (elems-path_of n ns h)
      (clean_loop-of_valid rooted (n ∷ ns) fs kept (AreNames-parts (n ∷ ns) h).1)

-- The path of names begins with a byte that is no slash.
pub path_of-head :
    (ns : List Text)
    → AreNames ns
    → (c : _) × (s : Text) × (path_of ns ≡ c ∷ s) × ((c == slash) ≡ false)
path_of-head [] h = unfold path_of in (b'.', [], refl, refl)
path_of-head ([] ∷ ns) h =
    absurd (unfold valid_elem text_eq in (ground (arith, (AreNames-parts ([] ∷ ns) h).1)))
path_of-head ((c ∷ s) ∷ []) h =
    unfold path_of join_elems is_name lacks_slash in (c, s, refl, ground arith)
path_of-head ((c ∷ s) ∷ n ∷ ns) h =
    unfold path_of join_elems is_name lacks_slash in (c, _, refl, ground arith)

pub clean_lem :
    (p : Text) → clean p ≡ clean_finish (is_rooted p) (clean_loop (is_rooted p) (elems p) [])
unfolding clean
clean_lem p = refl

clean_finish-names :
    (ns : List Text) → AreNames ns → clean_finish false (reverse_aux ns []) ≡ path_of ns
clean_finish-names [] h = unfold clean_finish path_of in refl
clean_finish-names (n ∷ ns) h =
    let (c, s, e, _) = path_of-head (n ∷ ns) h in
    unfold clean_finish in
    ap or_dot (ap join_elems (reverse_aux-reverse_aux-nil (n ∷ ns) []))
    ∙ unfold path_of in (ap or_dot e ∙ sym e)

-- A cleaned text whose loop keeps names is their path.
clean-of_kept :
    (c : _) (s : Text) (ns : List Text)
    → (c == slash) ≡ false
    → AreNames ns
    → clean_loop false (elems (c ∷ s)) [] ≡ reverse_aux ns []
    → clean (c ∷ s) ≡ path_of ns
clean-of_kept c s ns e h kept = rw (clean_lem, e, kept) (clean_finish-names ns h)

clean-path_of : (ns : List Text) → AreNames ns → clean (path_of ns) ≡ path_of ns
clean-path_of ns h =
    let (c, s, eq, e) = path_of-head ns h in
    ap clean eq
    ∙ clean-of_kept c s ns e h (
        ap (λ p. clean_loop false (elems p) []) (sym eq)
        ∙ ap (λ l. clean_loop false l []) (sym (append-nil (elems (path_of ns))))
        ∙ clean_loop-path_of false ns [] [] h
        ∙ unfold clean_loop in refl)

-- A valid path is clean.
pub clean-of_valid : (p : Text) → valid_path p ≡ true → clean p ≡ p
clean-of_valid p h =
    subst (λ q. clean q ≡ q) (path_of-names p) (clean-path_of (names p) (AreNames-names p h))

pub AreNames-append : (ns ms : List Text) → AreNames ns → AreNames ms → AreNames (ns ++ ms)
AreNames-append ns ms h k = rw (all-append is_name ns ms, h) k

-- path.Join of two paths has the names of the first and then those of the second.
pub path_join-path_of :
    (ns ms : List Text)
    → AreNames ns
    → AreNames ms
    → path_join (path_of ns ∷ path_of ms ∷ []) ≡ path_of (ns ++ ms)
path_join-path_of ns ms h k =
    let (c, s, eq, e) = path_of-head ns h in
    joined c s eq
    ∙ clean-of_kept c (s ++ (slash ∷ path_of ms)) (ns ++ ms) e (AreNames-append ns ms h k) (
        ap (λ p. clean_loop false (elems (p ++ (slash ∷ path_of ms))) []) (sym eq)
        ∙ ap (λ l. clean_loop false l []) (elems-append (path_of ns) (path_of ms))
        ∙ clean_loop-path_of false ns (elems (path_of ms)) [] h
        ∙ ap (λ l. clean_loop false l (reverse_aux ns [])) (sym (append-nil (elems (path_of ms))))
        ∙ clean_loop-path_of false ms [] (reverse_aux ns []) k
        ∙ unfold clean_loop in sym (reverse_aux-append ns ms []))
  where
    joined :
        (c : _) (s : Text)
        → path_of ns ≡ c ∷ s
        → path_join (path_of ns ∷ path_of ms ∷ []) ≡ clean (c ∷ (s ++ (slash ∷ path_of ms)))
    joined c s eq = ap (λ p. path_join (p ∷ path_of ms ∷ [])) eq ∙ unfold path_join in refl

split_path-of_lacks_slash : (m : Text) → lacks_slash m ≡ true → split_path m ≡ ([], m)
unfolding split_path lacks_slash
split_path-of_lacks_slash [] h = refl
split_path-of_lacks_slash (c ∷ m) h =
    ap (split_step c) (split_path-of_lacks_slash m (ground arith)) ∙ ground arith

-- path.Split at the last slash.
split_path-append :
    (p m : Text) → lacks_slash m ≡ true → split_path (p ++ (slash ∷ m)) ≡ (p ++ (slash ∷ []), m)
unfolding split_path
split_path-append [] m h = ap (split_step slash) (split_path-of_lacks_slash m h)
split_path-append (c ∷ []) m h = ap (split_step c) (split_path-append [] m h)
split_path-append (c ∷ d ∷ p) m h = ap (split_step c) (split_path-append (d ∷ p) m h)

path_of-snoc :
    (n : Text) (ns : List Text) (m : Text)
    → path_of (n ∷ (ns ++ (m ∷ []))) ≡ path_of (n ∷ ns) ++ (slash ∷ m)
unfolding path_of
path_of-snoc n ns m = join_elems-append n m ns [] ∙ unfold join_elems in refl

-- A slash behind a path is cleaned away.
clean-path_of-slash :
    (ns : List Text) → AreNames ns → clean (path_of ns ++ (slash ∷ [])) ≡ path_of ns
clean-path_of-slash ns h =
    let (c, s, eq, e) = path_of-head ns h in
    ap (λ p. clean (p ++ (slash ∷ []))) eq
    ∙ clean-of_kept c (s ++ (slash ∷ [])) ns e h (
        ap (λ p. clean_loop false (elems (p ++ (slash ∷ []))) []) (sym eq)
        ∙ ap (λ l. clean_loop false l []) (elems-append (path_of ns) [])
        ∙ clean_loop-path_of false ns (elems []) [] h
        ∙ unfold clean_loop clean_elem elems text_eq in refl)

AreNames-of_append : (ns ms : List Text) → AreNames (ns ++ ms) → (AreNames ns) × (AreNames ms)
AreNames-of_append ns ms h = ground (arith, all-append is_name ns ms)

-- path.Dir drops the last name.
pub path_dir-path_of :
    (ns : List Text) (m : Text)
    → AreNames (ns ++ (m ∷ []))
    → path_dir (path_of (ns ++ (m ∷ []))) ≡ path_of ns
path_dir-path_of [] m h =
    unfold path_of join_elems path_dir in
    ap (λ (q : Text × Text). clean q.0)
      (split_path-of_lacks_slash m (ground (arith, (AreNames-parts (m ∷ []) h).2)))
    ∙ unfold clean in refl
path_dir-path_of (n ∷ ns) m h =
    ap path_dir (path_of-snoc n ns m)
    ∙ unfold path_dir in
      ap (λ (q : Text × Text). clean q.0)
        (split_path-append (path_of (n ∷ ns)) m
          (ground (arith, (AreNames-parts (m ∷ []) (AreNames-of_append (n ∷ ns) (m ∷ []) h).1).2)))
      ∙ clean-path_of-slash (n ∷ ns) (AreNames-of_append (n ∷ ns) (m ∷ []) h).0

-- The path of two lists that are not empty, one behind the other.
pub path_of-append :
    (ns ms : List Text)
    → ns ≢ []
    → ms ≢ []
    → path_of (ns ++ ms) ≡ path_of ns ++ (slash ∷ path_of ms)
unfolding path_of
path_of-append [] ms h k = absurd (h refl)
path_of-append (n ∷ ns) [] h k = absurd (k refl)
path_of-append (n ∷ ns) (m ∷ ms) h k = join_elems-append n m ns ms
