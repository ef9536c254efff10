-- ===== src/Os/Tests.antt =====
-- Tests of os.FS on Unix and on Windows, and the theorems at concrete inputs.
use hackpadfs.Base.{
  Text, codes, take, text_eq, has_prefix, trim_prefix, true, false, [], ◌∷◌, ◌++◌, ◌≡◌, refl, inr,
}
use hackpadfs.Errors.{
  Error, err, sentinel, err_invalid, errno, path_error, mapped_error, err_exist, err_not_empty,
  is_error, ok, ◌>>=◌,
}
use hackpadfs.FilePath.{slash, dot, valid_path, path_join}
use hackpadfs.Os.{
  os_path_op, OsFs, Platform, to_os_path, from_os_path, rooted_path, join_sep_path, from_separator,
  get_volume_name, trim_left, trim_right, replace_all,
}
use hackpadfs.Os.Wrap.{
  wrap_err, wrap_rel_path_err, wrap_non_standard_errors, map_non_standard_error, rel_path,
  root_path,
}
use hackpadfs.FilePath.Rooted.{root_names}
use hackpadfs.FilePath.Names.{names}
use hackpadfs.Os.Names.{IsPlaced, os_text, file_names}
use hackpadfs.Os.RoundTrip.{from_os_path-to_os_path, from_os_path-dot_root}
use hackpadfs.Os.Below.{wrap_err-names}

abbrev backslash : Text
backslash = 92 ∷ []

abbrev unix : Platform
unix = record {
  is_windows = false;
  separator = slash;
  get_volume = λ p. [];
  is_abs = λ p. has_prefix p (slash ∷ []);
}

abbrev windows : Platform
windows = record {
  is_windows = true;
  separator = 92;
  get_volume = λ p. take 2 p;
  is_abs = λ p. has_prefix p (codes "C:" ++ backslash);
}

abbrev home : OsFs
home = record { root = codes "home/me"; volume_name = [] }

to_os_path-unix : to_os_path unix home (codes "a/b") ≡ ok (codes "/home/me/a/b")
unfolding to_os_path rooted_path join_sep_path from_separator get_volume_name path_join valid_path
    trim_left trim_right
to_os_path-unix = refl

to_os_path-windows :
    to_os_path windows home (codes "a/b")
    ≡ ok (
        codes "C:"
        ++ backslash
        ++ codes "home"
        ++ backslash
        ++ codes "me"
        ++ backslash
        ++ codes "a"
        ++ backslash
        ++ codes "b")
unfolding to_os_path rooted_path join_sep_path from_separator get_volume_name path_join valid_path
    trim_left trim_right
to_os_path-windows = refl

-- A valid path may hold a backslash: on Windows it leaves the root of a Sub.
abbrev escaping : Text
escaping = codes ".." ++ backslash ++ codes "x"

to_os_path_escapes :
    to_os_path windows (record { root = codes "r"; volume_name = [] }) escaping
    ≡ ok (codes "C:" ++ backslash ++ codes "r" ++ backslash ++ codes ".." ++ backslash ++ codes "x")
unfolding to_os_path rooted_path join_sep_path from_separator get_volume_name path_join valid_path
    trim_left trim_right
to_os_path_escapes = refl

home-IsPlaced : IsPlaced windows home
unfolding get_volume_name trim_right valid_path
home-IsPlaced = record { root = inr refl; plain_root = refl; dot_is_plain = refl; volume = refl }

from_os_path-to_os_path_example :
    (to_os_path windows home (codes "a/b") >>= from_os_path windows home) ≡ ok (codes "a/b")
unfolding get_volume_name valid_path text_eq has_prefix
from_os_path-to_os_path_example =
    from_os_path-to_os_path home-IsPlaced (λ t. refl) (λ t. refl) (codes "a/b") refl refl refl

abbrev at_dot : OsFs
at_dot = record { root = dot; volume_name = [] }

at_dot-IsPlaced : IsPlaced unix at_dot
unfolding get_volume_name trim_right valid_path
at_dot-IsPlaced = record { root = inr refl; plain_root = refl; dot_is_plain = refl; volume = refl }

refused_at_dot :
    (to_os_path unix at_dot (codes "a") >>= from_os_path unix at_dot)
    ≡ err (
        path_error os_path_op
          (os_text unix at_dot (file_names at_dot (codes "a")))
          (sentinel err_invalid))
unfolding get_volume_name valid_path has_prefix
refused_at_dot =
    from_os_path-dot_root at_dot-IsPlaced (λ t. refl) (λ t. refl) (codes "a") refl refl refl

-- ERROR_DIR_NOT_EMPTY of the removal of a directory, which is fs.ErrExist before and after.
wrap_err-names_example :
    (e' : Error) × (wrap_err windows home
        (path_error "remove" (os_text windows home (file_names home (codes "a"))) (errno 0x91))
      ≡ path_error "remove" (codes "a") e')
    × (is_error e' err_exist ≡ true)
unfolding valid_path rooted_path join_sep_path from_separator get_volume_name path_join trim_left
    trim_right os_text is_error text_eq root_names names
wrap_err-names_example =
    wrap_err-names home-IsPlaced (codes "a") refl refl refl "remove" (errno 0x91) err_exist refl
      refl

wrap_err-windows :
    wrap_err windows home (
      path_error "remove"
        (codes "C:"
          ++ backslash
          ++ codes "home"
          ++ backslash
          ++ codes "me"
          ++ backslash
          ++ codes "a")
        (errno 0x91))
    ≡ path_error "remove" (codes "a") (mapped_error err_not_empty (errno 0x91))
unfolding wrap_err wrap_rel_path_err wrap_non_standard_errors map_non_standard_error rel_path
    root_path rooted_path join_sep_path from_separator get_volume_name path_join valid_path
    trim_left trim_right trim_prefix replace_all
wrap_err-windows = refl
