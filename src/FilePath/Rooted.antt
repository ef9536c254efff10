-- ===== src/FilePath/Rooted.antt =====
-- path.Join below the root of a file system: the names of the root and then those of the path.
use mathlib.Core.List.{reverse_aux, reverse_aux-reverse_aux-nil, reverse_aux-append}
use hackpadfs.Base.{
  Text, text_eq, true, List, [], ◌∷◌, ◌++◌, ◌≡◌, ◌⊎◌, refl, ap, sym, ◌∙◌, inl, inr, append-nil,
}
use hackpadfs.FilePath.{
  valid_path, slash, elems, join_elems, clean_elem, clean_loop, clean_finish, path_join,
}
use hackpadfs.FilePath.Elems.{elems-append}
use hackpadfs.FilePath.Names.{AreNames, path_of, names, path_of-names, names-path_of}
use hackpadfs.FilePath.Below.{ne-nil_of_valid}
use hackpadfs.FilePath.Join.{
  AreNames-names, path_join-path_of, clean-of_valid, valid_path-path_of, AreNames-append, clean_lem,
  clean_loop-path_of,
}

-- path.Join("/", ...) of two paths is the slash and all their names.
join-elems :
    (r : Text) (ns ms : List Text)
    → ((kept fs : List Text)
        → clean_loop true (elems r ++ fs) kept ≡ clean_loop true fs (reverse_aux ns kept))
    → AreNames ms
    → path_join ((slash ∷ []) ∷ r ∷ path_of ms ∷ []) ≡ slash ∷ join_elems (ns ++ ms)
join-elems r ns ms h k =
    unfold path_join in
    clean_lem ((slash ∷ slash ∷ r) ++ (slash ∷ path_of ms))
    ∙ ap (clean_finish true) (
        ap (λ l. clean_loop true l []) (elems-append (slash ∷ slash ∷ r) (path_of ms))
        ∙ unfold elems clean_loop clean_elem text_eq in
          h [] (elems (path_of ms))
          ∙ ap (λ l. clean_loop true l (reverse_aux ns [])) (sym (append-nil (elems (path_of ms))))
          ∙ clean_loop-path_of true ms [] (reverse_aux ns []) k
          ∙ unfold clean_loop in sym (reverse_aux-append ns ms []))
    ∙ unfold clean_finish in
      ap (λ l. slash ∷ join_elems l) (reverse_aux-reverse_aux-nil (ns ++ ms) [])

-- The names of a root, which is a valid path, or empty at the top.
unfoldable pub root_names : Text → List Text
root_names [] = []
root_names (c ∷ s) = names (c ∷ s)

abbrev pub IsRoot : Text → Type 0
IsRoot r = (r ≡ []) ⊎ (valid_path r ≡ true)

pub root_names-of_valid : (r : Text) → valid_path r ≡ true → root_names r ≡ names r
root_names-of_valid [] h = absurd (ne-nil_of_valid [] h refl)
root_names-of_valid (c ∷ s) h = unfold root_names in refl

pub AreNames-root_names : (r : Text) → IsRoot r → AreNames (root_names r)
AreNames-root_names r (inl e) = rw e (unfold root_names in refl)
AreNames-root_names r (inr v) = rw (root_names-of_valid r v) (AreNames-names r v)

clean_loop-root :
    (r : Text)
    → IsRoot r
    → (kept fs : List Text)
    → clean_loop true (elems r ++ fs) kept ≡ clean_loop true fs (reverse_aux (root_names r) kept)
clean_loop-root r (inl e) kept fs =
    rw e (unfold elems clean_loop clean_elem text_eq root_names in refl)
clean_loop-root r (inr v) kept fs = rw (root_names-of_valid r v) (
    ap (λ p. clean_loop true (elems p ++ fs) kept) (sym (path_of-names r))
    ∙ clean_loop-path_of true (names r) fs kept (AreNames-names r v))

pub path_join-root :
    (r p : Text)
    → IsRoot r
    → valid_path p ≡ true
    → path_join ((slash ∷ []) ∷ r ∷ p ∷ []) ≡ slash ∷ join_elems (root_names r ++ names p)
path_join-root r p h v =
    ap (λ q. path_join ((slash ∷ []) ∷ r ∷ q ∷ [])) (sym (path_of-names p))
    ∙ join-elems r (root_names r) (names p) (clean_loop-root r h) (AreNames-names p v)

path_join-nil : (p : Text) → valid_path p ≡ true → path_join ([] ∷ p ∷ []) ≡ p
path_join-nil [] v = absurd (ne-nil_of_valid [] v refl)
path_join-nil (c ∷ s) v = unfold path_join in clean-of_valid (c ∷ s) v

-- A path joined to a root is a root again, with the names of both.
pub root_names-path_join :
    (r p : Text)
    → IsRoot r
    → valid_path p ≡ true
    → (valid_path (path_join (r ∷ p ∷ [])) ≡ true)
      × (root_names (path_join (r ∷ p ∷ [])) ≡ root_names r ++ names p)
root_names-path_join r p (inl e) v =
    rw (e, path_join-nil p v) (v, root_names-of_valid p v ∙ unfold root_names in refl)
root_names-path_join r p (inr u) v =
    let join =
      ap (λ q. path_join (q ∷ p ∷ [])) (sym (path_of-names r))
      ∙ ap (λ q. path_join (path_of (names r) ∷ q ∷ [])) (sym (path_of-names p))
      ∙ path_join-path_of (names r) (names p) (AreNames-names r u) (AreNames-names p v) in
    let both : AreNames (names r ++ names p) =
      AreNames-append (names r) (names p) (AreNames-names r u) (AreNames-names p v) in
    let valid = valid_path-path_of (names r ++ names p) both in
    rw (join, root_names-of_valid r u)
      (valid, root_names-of_valid _ valid ∙ names-path_of (names r ++ names p) both)
