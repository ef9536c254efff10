-- ===== src/Errors/Strip.antt =====
-- stripErrPathPrefix of mount.go: a path error of a mounted file system names the path inside
-- it, and is given back the name that the caller used.
use hackpadfs.Base.{Text, String, ◌≡◌, refl, trim_prefix, trim_suffix}
use hackpadfs.Errors.{Error, path_error, link_error, Result, ok, err}

strip_prefix : Text → Error → Error
strip_prefix prefix (path_error op path e) = path_error op (trim_prefix path prefix) e
strip_prefix prefix (link_error op old new e) =
    link_error op (trim_prefix old prefix) (trim_prefix new prefix) e
strip_prefix prefix e = e

-- stripErrPathPrefix(err, name, mountSubPath) of an error that is not nil.
unfoldable pub strip_err_path_prefix : Error → Text → Text → Error
unfolding strip_prefix trim_prefix trim_suffix
strip_err_path_prefix e name mount_sub_path = strip_prefix (trim_suffix mount_sub_path name) e

abbrev pub strip_result : {A : Type 0} → Text → Text → Result A → Result A
strip_result name sub_path (ok a) = ok a
strip_result name sub_path (err e) = err (strip_err_path_prefix e name sub_path)

pub strip-path_error :
    (op : String) (path : Text) (e : Error) (name sub_path : Text)
    → strip_err_path_prefix (path_error op path e) name sub_path
      ≡ path_error op (trim_prefix path (trim_suffix sub_path name)) e
unfolding strip_err_path_prefix
strip-path_error op path e name sub_path = refl
