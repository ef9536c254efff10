-- ===== src/Os/Wrap.antt =====
-- The errors that os.FS gives back: wrapErr of os/fs.go, and os/errors_windows.go or
-- os/errors_other.go by the platform.
use hackpadfs.Base.{ℕ, Text, trim_prefix, [], ◌∷◌, true, ◌≡◌, arith, ◌==◌, if◌then◌else◌}
use hackpadfs.Errors.{
  Result, ok, err, Error, Sentinel, sentinel, is_error, path_error, link_error, errno, mapped_error,
  err_invalid, err_not_empty, ok, err,
}
use hackpadfs.FilePath.{slash, dot}
use hackpadfs.Os.{OsFs, Platform, replace_all, rooted_path}

-- mapNonStandardError: ERROR_NEGATIVE_SEEK is 0x83, and ERROR_DIR_NOT_EMPTY is 0x91.
unfoldable pub map_non_standard_error : Error → Error
map_non_standard_error (errno n) =
    if n == 0x83
    then mapped_error err_invalid (errno n)
    else if n == 0x91
    then mapped_error err_not_empty (errno n)
    else errno n
map_non_standard_error e = e

-- What an error is stays when it is mapped.
pub map_non_standard_error-is_error :
    (e : Error) (s : Sentinel) → is_error e s ≡ true → is_error (map_non_standard_error e) s ≡ true
unfolding map_non_standard_error is_error
map_non_standard_error-is_error (errno n) s h = ground arith
map_non_standard_error-is_error (sentinel t) s h = h
map_non_standard_error-is_error e s h = h

-- wrapNonStandardErrors on Windows.
unfoldable pub wrap_non_standard_errors : Error → Error
wrap_non_standard_errors (path_error op path e) = path_error op path (map_non_standard_error e)
wrap_non_standard_errors (link_error op old new e) =
    link_error op old new (map_non_standard_error e)
wrap_non_standard_errors e = map_non_standard_error e

-- A path of an error, without the root's path and with slashes.
unfoldable pub rel_path : ℕ → Text → Text → Text
rel_path separator rooted path =
    trim_prefix (replace_all separator slash (trim_prefix path rooted)) (slash ∷ [])

-- wrapRelPathErr panics where rootedPath fails, which it never does of ".": the text is then empty.
abbrev root_of : Result Text → Text
root_of (ok p) = p
root_of (err e) = []

module _ (platform : Platform) where
  -- The path of the root, which is always valid.
  unfoldable pub root_path : OsFs → Text
  root_path fs = root_of (rooted_path platform "" fs dot)

  -- wrapRelPathErr
  unfoldable pub wrap_rel_path_err : OsFs → Error → Error
  wrap_rel_path_err fs (path_error op path e) =
      path_error op (rel_path platform.separator (root_path fs) path) e
  wrap_rel_path_err fs (link_error op old new e) =
      link_error op (rel_path platform.separator (root_path fs) old)
        (rel_path platform.separator (root_path fs) new) e
  wrap_rel_path_err fs e = e

  -- wrapErr of an error that is not nil.
  unfoldable pub wrap_err : OsFs → Error → Error
  wrap_err fs e =
      let rel = wrap_rel_path_err fs e in
      if platform.is_windows then wrap_non_standard_errors rel else rel
