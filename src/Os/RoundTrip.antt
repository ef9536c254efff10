-- ===== src/Os/RoundTrip.antt =====
-- ToOSPath and FromOSPath, one after the other.
use hackpadfs.Base.{
  Text, text_eq, text_eq_sound, text_eq_refl, has_prefix, has_prefix-split, trim_prefix,
  trim_prefix-append, true, false, [], ◌∷◌, ◌++◌, ◌≡◌, refl, ap, sym, ◌∙◌, arith, Bool-cases, inl,
  inr,
}
use hackpadfs.Errors.{Error, sentinel, path_error, err_invalid, ok, err, ◌>>=◌}
use mathlib.Core.Bool.{false≢true}
use hackpadfs.FilePath.Elems.{join_elems-elems}
use hackpadfs.FilePath.{elems, push, valid_elem, utf8_valid, slash, dot, join_elems, valid_path}
use hackpadfs.FilePath.Names.{names}
use hackpadfs.FilePath.Rooted.{root_names}
use hackpadfs.Os.{
  OsFs, Platform, to_separator, get_volume_name, to_os_path, os_path_op, below_root,
  from_rooted_path, from_os_path,
}
use hackpadfs.Os.Paths.{no_separator, to_separator-from_separator}
use hackpadfs.Os.Names.{
  IsPlaced, os_text, plain_names, file_names, rooted_path-names, below_root_lem,
}

not-valid_path-dot-slash : (r : Text) → valid_path (dot ++ (slash ∷ r)) ≡ false
not-valid_path-dot-slash r =
    unfold valid_path elems push valid_elem text_eq utf8_valid in ground arith

has_prefix-dot-slash : (p : Text) → valid_path p ≡ true → has_prefix p (dot ++ (slash ∷ [])) ≡ false
has_prefix-dot-slash p v = elim (Bool-cases (has_prefix p (dot ++ (slash ∷ [])))) [
  | inr h ↦ h
  | inl h ↦
      let (r, e) = has_prefix-split p (dot ++ (slash ∷ [])) h in
      absurd (false≢true (sym (not-valid_path-dot-slash r) ∙ ap valid_path (sym e) ∙ v))
]

below_root-refused :
    (fs : OsFs) (t : Text) (e : Error)
    → fs.root ≡ dot
    → text_eq t dot ≡ false
    → has_prefix t (dot ++ (slash ∷ [])) ≡ false
    → below_root fs t e ≡ err e
below_root-refused fs t e at_dot ne np =
    unfold below_root in rw (at_dot, ne, np) (unfold text_eq in refl)

pub names-dot : names dot ≡ []
unfolding names text_eq
names-dot = refl

root_names-dot : root_names dot ≡ []
unfolding root_names
root_names-dot = names-dot

pub join_elems-not_dot : (p : Text) → text_eq p dot ≡ false → join_elems (names p) ≡ p
unfolding names
join_elems-not_dot p h = rw h (join_elems-elems p)

below_root-dot_root :
    (fs : OsFs) (p : Text) (e : Error)
    → fs.root ≡ dot
    → valid_path p ≡ true
    → below_root fs (join_elems (root_names fs.root ++ names p)) e ≡ err e
below_root-dot_root fs p e at_dot v =
    ap (λ r. below_root fs (join_elems (root_names r ++ names p)) e) at_dot
    ∙ ap (λ ns. below_root fs (join_elems (ns ++ names p)) e) root_names-dot
    ∙ (elim (Bool-cases (text_eq p dot)) [
      | inl same ↦
          ap (λ q. below_root fs (join_elems (names q)) e) (text_eq_sound p dot same)
          ∙ ap (λ ns. below_root fs (join_elems ns) e) names-dot
          ∙ unfold join_elems in
            below_root-refused fs [] e at_dot (unfold text_eq in refl) (unfold has_prefix in refl)
      | inr other ↦
          ap (λ t. below_root fs t e) (join_elems-not_dot p other)
          ∙ below_root-refused fs p e at_dot other (has_prefix-dot-slash p v)
    ])

module _ {platform : Platform} {fs : OsFs} (placed : IsPlaced platform fs)
    (resolved : (t : Text)
      → platform.get_volume (get_volume_name platform fs ++ (platform.separator ∷ t))
        ≡ get_volume_name platform fs)
    (absolute : (t : Text)
      → platform.is_abs (get_volume_name platform fs ++ (platform.separator ∷ t)) ≡ true)
    (p : Text) (valid : valid_path p ≡ true)
    (plain : no_separator platform.separator p ≡ true) where
  -- What FromOSPath leaves of a path that ToOSPath made.
  from_os_path-below :
      (to_os_path platform fs p >>= from_os_path platform fs)
      ≡ below_root fs
          (join_elems (file_names fs p))
          (path_error os_path_op (os_text platform fs (file_names fs p)) (sentinel err_invalid))
  from_os_path-below =
      unfold to_os_path in
      rw (rooted_path-names placed p valid plain os_path_op) (
        unfold from_os_path from_rooted_path os_text in
        (rw (absolute _, resolved _)
          (rw (text_eq_refl (get_volume_name platform fs)) (
            ap
              (λ t. below_root fs t (
                path_error os_path_op (os_text platform fs (file_names fs p))
                  (sentinel err_invalid)))
              (ap (λ t. to_separator platform.separator (trim_prefix t (platform.separator ∷ [])))
                  (trim_prefix-append (get_volume_name platform fs) _)
                ∙ ap (to_separator platform.separator)
                    (trim_prefix-append (platform.separator ∷ []) _)
                ∙ to_separator-from_separator platform.separator (join_elems (file_names fs p))
                    (plain_names placed p valid plain))))))

  -- Where the root is not ".", FromOSPath takes the path that ToOSPath makes of a valid path back to it.
  pub from_os_path-to_os_path :
      text_eq fs.root dot ≡ false → (to_os_path platform fs p >>= from_os_path platform fs) ≡ ok p
  from_os_path-to_os_path not_dot =
      from_os_path-below ∙ below_root_lem fs p _ placed.root not_dot valid

  -- Where the root is ".", as Sub of "." leaves it, FromOSPath refuses every path that ToOSPath
  -- makes of a valid path.
  pub from_os_path-dot_root :
      fs.root ≡ dot
      → (to_os_path platform fs p >>= from_os_path platform fs)
        ≡ err (path_error os_path_op (os_text platform fs (file_names fs p)) (sentinel err_invalid))
  from_os_path-dot_root at_dot = from_os_path-below ∙ below_root-dot_root fs p _ at_dot valid
