-- ===== src/Os/Below.antt =====
-- Sub, and the paths of errors.
use hackpadfs.Base.{
  ℕ, Text, text_eq, String, trim_prefix, trim_prefix-append, true, false, List, [], ◌∷◌, ◌++◌, ◌≡◌,
  ◌≢◌, ◌⊎◌, refl, ap, sym, ◌∙◌, arith, Bool-cases, inl, inr, append-nil, append_assoc,
}
use hackpadfs.Errors.{Error, Sentinel, is_error, path_error, ok, ◌>>=◌}
use mathlib.Core.Bool.{false≢true}
use hackpadfs.FilePath.{slash, dot, join_elems, valid_path, path_join}
use hackpadfs.FilePath.Names.{path_of, names, path_of-names}
use hackpadfs.FilePath.Below.{trim_slash-of_valid}
use hackpadfs.FilePath.Rooted.{root_names, root_names-of_valid, root_names-path_join}
use hackpadfs.Os.{replace_all, OsFs, Platform, from_separator, get_volume_name, rooted_path, sub}
use hackpadfs.Os.Wrap.{
  map_non_standard_error, wrap_non_standard_errors, map_non_standard_error-is_error, rel_path,
  root_path, wrap_rel_path_err, wrap_err,
}
use hackpadfs.Os.Paths.{no_separator, from_separator-append, replace_all-from_separator}
use hackpadfs.Os.RoundTrip.{join_elems-not_dot, names-dot}
use hackpadfs.Os.Names.{
  join-append, IsPlaced, os_text, no_separator-path_join, file_names, rooted_path-names,
}

module _ {platform : Platform} {fs : OsFs} (placed : IsPlaced platform fs) (dir p : Text)
    (valid_dir : valid_path dir ≡ true) (plain_dir : no_separator platform.separator dir ≡ true)
    (valid : valid_path p ≡ true) (plain : no_separator platform.separator p ≡ true) where
  -- The path of a name below Sub of a directory is that of the directory joined with the name.
  rooted_path-sub :
      (op : String)
      → (sub fs dir >>= λ s. rooted_path platform op s p)
        ≡ rooted_path platform op fs (path_join (dir ∷ p ∷ []))
  unfolding os_text
  rooted_path-sub op =
      unfold sub in
      rw valid_dir (
        unfold get_volume_name in
        rooted_path-names placed_sub p valid plain op
        ∙ ap (λ ns. ok (os_text platform fs ns)) same_names
        ∙ sym (
            rooted_path-names placed _ (root_names-path_join dir p (inr valid_dir) valid).0
              (no_separator-path_join platform.separator dir p placed.dot_is_plain (inr valid_dir)
                valid plain_dir plain)
              op))
    where
      same_names :
          root_names (path_join (fs.root ∷ dir ∷ [])) ++ names p
          ≡ file_names fs (path_join (dir ∷ p ∷ []))
      same_names =
          let j = path_join (dir ∷ p ∷ []) in
          let (v, e) = root_names-path_join dir p (inr valid_dir) valid in
          ap (λ ns. ns ++ names p) ((root_names-path_join fs.root dir placed.root valid_dir).1)
          ∙ append_assoc (root_names fs.root) (names dir) (names p)
          ∙ ap (λ ns. root_names fs.root ++ ns)
              (ap (λ ns. ns ++ names p) (sym (root_names-of_valid dir valid_dir))
                ∙ sym e
                ∙ root_names-of_valid j v)

      placed_sub :
          IsPlaced platform
            (record { root = path_join (fs.root ∷ dir ∷ []); volume_name = fs.volume_name })
      placed_sub = record {
        root = inr (root_names-path_join fs.root dir placed.root valid_dir).0;
        plain_root =
            no_separator-path_join platform.separator fs.root dir placed.dot_is_plain placed.root
              valid_dir placed.plain_root plain_dir;
        dot_is_plain = placed.dot_is_plain;
        volume = unfold get_volume_name in placed.volume;
      }

-- The path of the root.
root_path-names :
    {platform : Platform} {fs : OsFs}
    → IsPlaced platform fs
    → root_path platform fs ≡ os_text platform fs (root_names fs.root)
root_path-names {platform} {fs} placed =
    unfold root_path in
    rw (rooted_path-names placed dot (unfold valid_path text_eq in refl) placed.dot_is_plain "") (
      ap (os_text platform fs)
        (ap (λ ns. root_names fs.root ++ ns) names-dot ∙ append-nil (root_names fs.root)))

-- What is left of a path behind the root's path: the path, or a separator and the path.
from_separator-nil : (sep : ℕ) → from_separator sep (join_elems []) ≡ []
unfolding from_separator join_elems
from_separator-nil sep = ground arith

trim_prefix-middle : (v a b : Text) (c : ℕ) → trim_prefix (v ++ (c ∷ (a ++ b))) (v ++ (c ∷ a)) ≡ b
trim_prefix-middle v a b c =
    ap (λ t. trim_prefix t (v ++ (c ∷ a))) (sym (append_assoc v (c ∷ a) b))
    ∙ trim_prefix-append (v ++ (c ∷ a)) b

trim_prefix-os_text :
    (platform : Platform) (fs : OsFs) (ns ms : List Text)
    → ms ≢ []
    → (trim_prefix (os_text platform fs (ns ++ ms)) (os_text platform fs ns)
        ≡ from_separator platform.separator (join_elems ms))
      ⊎ (trim_prefix (os_text platform fs (ns ++ ms)) (os_text platform fs ns)
          ≡ from_separator platform.separator (slash ∷ join_elems ms))
trim_prefix-os_text platform fs [] ms h = inl (
    unfold os_text in
    (ap
        (λ a.
          trim_prefix
            (get_volume_name platform fs
              ++ (platform.separator ∷ from_separator platform.separator (join_elems ms)))
            (get_volume_name platform fs ++ (platform.separator ∷ a)))
        (from_separator-nil platform.separator)
      ∙ trim_prefix-middle _ [] _ platform.separator))
trim_prefix-os_text platform fs (n ∷ ns) ms h = inr (
    unfold os_text in
    (ap
        (λ t. trim_prefix (get_volume_name platform fs ++ (platform.separator ∷ t)) (
          get_volume_name platform fs
          ++ (platform.separator ∷ from_separator platform.separator (join_elems (n ∷ ns)))))
        (ap (from_separator platform.separator) (join-append (n ∷ ns) ms (λ e. absurd (cc)) h)
          ∙ from_separator-append platform.separator (join_elems (n ∷ ns)) (slash ∷ join_elems ms))
      ∙ trim_prefix-middle _ (from_separator platform.separator (join_elems (n ∷ ns))) _
          platform.separator))

module _ {platform : Platform} {fs : OsFs} (placed : IsPlaced platform fs) (p : Text)
    (valid : valid_path p ≡ true) (plain : no_separator platform.separator p ≡ true)
    (not_root : text_eq p dot ≡ false) where
  rel_path-names :
      rel_path platform.separator (root_path platform fs) (os_text platform fs (file_names fs p))
      ≡ p
  rel_path-names =
      unfold rel_path in
      rw (root_path-names placed)
        (elim (trim_prefix-os_text platform fs (root_names fs.root) (names p) (λ e. absurd (
          false≢true (
            sym not_root
            ∙ ap (λ q. text_eq q dot) (sym (path_of-names p) ∙ ap path_of e)
            ∙ (unfold path_of text_eq in refl))))) [
              | inl e ↦ rw e (
                  ap
                    (λ t.
                      trim_prefix
                        (replace_all platform.separator slash (from_separator platform.separator t))
                        (slash ∷ []))
                    (join_elems-not_dot p not_root)
                  ∙ ap (λ t. trim_prefix t (slash ∷ []))
                      (replace_all-from_separator platform.separator p plain)
                  ∙ trim_slash-of_valid p valid)
              | inr e ↦ rw e (
                  ap
                    (λ t.
                      trim_prefix
                        (replace_all platform.separator slash
                          (from_separator platform.separator (slash ∷ t)))
                        (slash ∷ []))
                    (join_elems-not_dot p not_root)
                  ∙ ap (λ t. trim_prefix t (slash ∷ []))
                      (replace_all-from_separator platform.separator (slash ∷ p) (ground arith))
                  ∙ trim_prefix-append (slash ∷ []) p)
            ])

  -- An error
  pub wrap_err-names :
      (op : String) (e : Error) (s : Sentinel)
      → is_error e s ≡ true
      → {path : Text} → rooted_path platform op fs p ≡ ok path
      → (e' : Error) × (wrap_err platform fs (path_error op path e) ≡ path_error op p e')
        × (is_error e' s ≡ true)
  wrap_err-names op e s h {path} r =
      let at : path ≡ os_text platform fs (file_names fs p) =
        cc (rooted_path-names placed p valid plain op) in
      rw at (
        unfold wrap_err wrap_rel_path_err wrap_non_standard_errors in
        rw rel_path-names (elim (Bool-cases platform.is_windows) [
          | inl windows ↦
              rw windows (map_non_standard_error e, refl, map_non_standard_error-is_error e s h)
          | inr other ↦ rw other (e, refl, h)
        ]))
