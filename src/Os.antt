-- ===== src/Os.antt =====
-- Package os: the file system os.FS with the paths of os/path.go. What the operating system
-- decides is a Platform; its calls are taken as a record in Os/Calls.
mod Tests
pub mod Wrap
pub mod Calls
pub mod Paths
pub mod Names
pub mod RoundTrip
pub mod Below
use hackpadfs.Base.{
  ℕ, Text, text_eq, String, has_prefix, trim_prefix, Bool, true, false, ◌&&◌, ◌||◌, not, List, [],
  ◌∷◌, ◌++◌, map, ◌==◌, if◌then◌else◌, codes,
}
use hackpadfs.Errors.{Error, sentinel, path_error, text_error, err_invalid, Result, ok, err}
use hackpadfs.FilePath.{slash, dot, valid_path, path_join, or_dot}

-- FS of os/fs.go.
pub record OsFs : Type 0 where
  pub root : Text
  pub volume_name : Text

-- runtime.GOOS, filepath.Separator, filepath.VolumeName and filepath.IsAbs.
pub record Platform : Type 0 where
  pub is_windows : Bool
  pub separator : ℕ
  pub get_volume : Text → Text
  pub is_abs : Text → Bool

abbrev pub os_path_op : String
os_path_op = "ospath"

-- NewFS
abbrev new_os_fs : OsFs
new_os_fs = record { root = []; volume_name = [] }

-- strings.TrimLeft and strings.TrimRight of one byte.
unfoldable pub trim_left : ℕ → Text → Text
trim_left sep [] = []
trim_left sep (c ∷ s) = let rest = trim_left sep s in if c == sep then rest else c ∷ s

abbrev trim_back : ℕ → ℕ → Text → Text
trim_back sep c [] = if c == sep then [] else c ∷ []
trim_back sep c (d ∷ s) = c ∷ d ∷ s

unfoldable pub trim_right : ℕ → Text → Text
trim_right sep [] = []
trim_right sep (c ∷ s) = trim_back sep c (trim_right sep s)

-- strings.ReplaceAll of one byte.
unfoldable pub replace_all : ℕ → ℕ → Text → Text
replace_all old new s = map (λ c. if c == old then new else c) s

-- joinSepPath
unfoldable pub join_sep_path : ℕ → Text → Text → Text
join_sep_path sep elem1 elem2 = trim_right sep elem1 ++ (sep ∷ trim_left sep elem2)

-- fromSeparator
unfoldable pub from_separator : ℕ → Text → Text
unfolding replace_all
from_separator sep path = if sep == slash then path else replace_all slash sep path

-- toSeparator
unfoldable pub to_separator : ℕ → Text → Text
unfolding replace_all
to_separator sep path = if sep == slash then path else replace_all sep slash path

-- The path below the root of the file system, once the volume is off.
unfoldable pub below_root : OsFs → Text → Error → Result Text
below_root fs path invalid =
    if not (text_eq fs.root [])
      && not (text_eq path fs.root)
      && not (has_prefix path (fs.root ++ (slash ∷ [])))
    then err invalid
    else ok (or_dot (trim_prefix (trim_prefix path fs.root) (slash ∷ [])))

module _ (platform : Platform) where
  open platform use {is_windows, separator, get_volume, is_abs}

  -- getVolumeName
  unfoldable pub get_volume_name : OsFs → Text
  unfolding text_eq
  get_volume_name fs =
      if is_windows && text_eq fs.volume_name [] then codes "C:" else fs.volume_name

  -- rootedPath and toOSPath; the error is always a path error.
  unfoldable pub rooted_path : String → OsFs → Text → Result Text
  rooted_path op fs path =
      if not (valid_path path)
      then err (path_error op path (sentinel err_invalid))
      else ok (
          join_sep_path separator (get_volume_name fs)
            (from_separator separator (path_join ((slash ∷ []) ∷ fs.root ∷ path ∷ []))))

  -- ToOSPath
  unfoldable pub to_os_path : OsFs → Text → Result Text
  to_os_path fs path = rooted_path os_path_op fs path

  -- fromOSPath
  unfoldable pub from_rooted_path : String → OsFs → Text → Result Text
  from_rooted_path op fs path =
      let invalid : Error = path_error op path (sentinel err_invalid) in
      let volume = get_volume_name fs in
      if not (text_eq (get_volume path) volume)
      then err invalid
      else below_root fs
          (to_separator separator (trim_prefix (trim_prefix path volume) (separator ∷ []))) invalid

  -- FromOSPath
  unfoldable pub from_os_path : OsFs → Text → Result Text
  from_os_path fs path =
      if not (is_abs path)
      then err (path_error os_path_op path (sentinel err_invalid))
      else from_rooted_path os_path_op fs path

  -- SubVolume. The message of the last error also quotes the two volumes.
  unfoldable sub_volume : OsFs → Text → Result OsFs
  unfolding text_eq
  sub_volume fs name =
      if not (text_eq fs.root [])
      then err (path_error "subvolume" name (text_error "subvolume not supported on a SubFS"))
      else if not (text_eq fs.volume_name [])
      then err
          (path_error "subvolume" name (text_error "subvolume can only be called once per os.FS"))
      else if not (text_eq (get_volume name) name)
      then err
          (path_error "subvolume" name (text_error "sub volume must be equal to resolved volume"))
      else ok (record { root = []; volume_name = name })

-- Sub
unfoldable pub sub : OsFs → Text → Result OsFs
sub fs dir =
    if not (valid_path dir)
    then err (path_error "sub" dir (sentinel err_invalid))
    else ok (record { root = path_join (fs.root ∷ dir ∷ []); volume_name = fs.volume_name })
