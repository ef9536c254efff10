-- ===== src/Mount.antt =====
-- The FS of mount/fs.go: file systems mounted at paths of a root file system. The mounts are a
-- list of paths with their file systems; a sync.Map visits them in any order, so they are never
-- assumed to be in one.
mod Tests
pub mod Resolve
pub mod Laws
pub mod Add
use hackpadfs.Base.{
  ℕ, ◌+◌, Text, text_eq, has_prefix, trim_prefix, Bool, true, false, ◌||◌, not, Option, none, some,
  List, [], ◌∷◌, ◌++◌, ltb, if◌then◌else◌, length, map,
}
use hackpadfs.Errors.{
  Error, sentinel, path_error, link_error, err_invalid, err_exist, err_not_dir, err_not_implemented,
  err_permission, Result, ok, err,
}
use hackpadfs.FilePath.{slash, dot, valid_path, path_join, split_path}
use hackpadfs.Modes.{is_dir, flag_write_only, flag_create, flag_truncate}
use hackpadfs.Fs.{FileInfo, Action, pure, fail, ◌>>=◌, ◌>>◌, File, Ops, Fs, plain, mounted}
use hackpadfs.Fs.Dispatch.{open_name, open_file, closing, stat, rename, remove}
use hackpadfs.Fs.Copy.{copy}

abbrev pub Mounts : Type 0 → Type 0
Mounts W = List (Text × Fs W)

-- The path is the mount's own or lies below it.
abbrev pub below : Text → Text → Bool
below path mount_path = has_prefix path (mount_path ++ (slash ∷ []))

-- `if subPath == ""`, and the same test on the mount point.
abbrev pub or_root : Text → Text
or_root [] = dot
or_root (c ∷ s) = c ∷ s

module _ {W : Type 0} where
  -- The function that mountPoint hands to Range, from mount to mount until an exact match.
  pub range_mounts : Text → Mounts W → Text × Fs W → Text × Fs W
  range_mounts path [] best = best
  range_mounts path ((mount_path, fs) ∷ mounts) best = elim (below path mount_path) [
    | true ↦
        range_mounts path mounts
          (if ltb (length best.0) (length mount_path) then (mount_path, fs) else best)
    | false ↦ elim (text_eq mount_path path) [
      | true ↦ (mount_path, fs)
      | false ↦ range_mounts path mounts best
    ]
  ]

  -- FS.mountPoint: the file system, its mount point, and the path below that.
  unfoldable pub mount_point : Fs W → Mounts W → Text → Fs W × Text × Text
  unfolding range_mounts trim_prefix
  mount_point root mounts path =
      let (result_path, result_fs) = range_mounts path mounts ([], root) in
      (
        result_fs,
        or_root result_path,
        or_root (trim_prefix (trim_prefix path result_path) (slash ∷ [])),
      )

  -- FS.Mount
  unfoldable pub mount : Fs W → Mounts W → Text → Fs W × Text
  unfolding mount_point text_eq
  mount root mounts path =
      let (fs, point, sub) = mount_point root mounts path in
      if text_eq point dot then (fs, path) else (fs, sub)

  -- fs.mounts.Load(p), as the caller tests it.
  unfoldable pub is_mounted : Text → Mounts W → Bool
  unfolding text_eq
  is_mounted p [] = false
  is_mounted p ((mount_path, fs) ∷ mounts) = text_eq mount_path p || is_mounted p mounts

  -- The open of a mount point in its parent, and the test that it is a directory.
  unfoldable pub check_dir : Fs W → Text → Action W (Unit {0})
  unfolding open_name closing is_dir
  check_dir fs path = do
    f ← open_name fs path
    info ← closing f f.stat
    if is_dir info.mode then pure tt else fail (sentinel err_not_dir)

  -- FS.addMount: the new mounts, or the error.
  unfoldable pub add_mount_err : Fs W → Text → Fs W → Mounts W → W → Result (Mounts W) × W
  add_mount_err root p mount_fs mounts w =
      if not (valid_path p) || text_eq p dot
      then (err (sentinel err_invalid), w)
      else if is_mounted p mounts
      then (err (sentinel err_exist), w)
      else let (dir, base) = split_path p in
        let (parent_fs, sub_path) = mount root mounts dir in
        let (r, w') = check_dir parent_fs (path_join (sub_path ∷ base ∷ [])) w in
        elim r [ ok _ ↦ (ok ((p, mount_fs) ∷ mounts), w') | err e ↦ (err e, w') ]

  -- FS.AddMount
  unfoldable pub add_mount : Fs W → Text → Fs W → Mounts W → W → Result (Unit {0}) × Mounts W × W
  add_mount root p mount_fs mounts w =
      let (r, w') = add_mount_err root p mount_fs mounts w in
      elim r [
        | ok mounts' ↦ (ok tt, mounts', w')
        | err e ↦ (err (path_error "mount" p e), mounts, w')
      ]

  -- FS.MountPoints
  unfoldable mount_points : Mounts W → List Text
  mount_points mounts = map (λ m. m.0) mounts

  -- FS.Open
  unfoldable mount_open : Fs W → Mounts W → Text → Action W (File W)
  unfolding mount open_name
  mount_open root mounts name = let (fs, sub_path) = mount root mounts name in open_name fs sub_path

  -- The source goes if it was copied whole, and the copy if it was not.
  after_copy : Fs W → Fs W → Text → Text → Result (Unit {0}) → W → Result (Unit {0}) × W
  unfolding remove
  after_copy old_mount new_mount old_sub new_sub (ok _) w = remove old_mount old_sub w
  after_copy old_mount new_mount old_sub new_sub (err e) w = (err e, (remove new_mount new_sub w).1)

  -- The end of Rename between two mounts: copy the contents, then remove one of the two.
  copy_across :
      ℕ → Fs W → Fs W → Text → Text → Text → Text → File W → ℕ → W → Option (Result (Unit {0}) × W)
  unfolding copy open_file after_copy
  copy_across fuel old_mount new_mount old_sub new_sub old new old_file mode w =
      let (opened, w1) =
        open_file new_mount new_sub (flag_write_only + flag_create + flag_truncate) mode w in
      elim opened [
        | err e ↦ some (err e, (old_file.close w1).1)
        | ok new_file ↦ elim new_file.write [
          | none ↦
              some
                (err (link_error "rename" old new (sentinel err_permission)), (old_file.close w1).1)
          | some write ↦ elim (copy write fuel 0x8000 old_file.read w1) [
            | none ↦ none
            | some (r, w2) ↦
                let (result, w3) = after_copy old_mount new_mount old_sub new_sub r w2 in
                some (result, (old_file.close (new_file.close w3).1).1)
          ]
        ]
      ]

  -- FS.Rename: `none` means that the copy did not end within the fuel.
  unfoldable mount_rename : ℕ → Fs W → Mounts W → Text → Text → W → Option (Result (Unit {0}) × W)
  unfolding mount_point stat rename open_name copy_across is_dir text_eq
  mount_rename fuel root mounts old new w =
      let (old_mount, old_point, old_sub) = mount_point root mounts old in
      let (new_mount, new_point, new_sub) = mount_point root mounts new in
      let (found, w1) = stat old_mount old_sub w in
      elim found [
        | err e ↦ some (err (link_error "rename" old new e), w1)
        | ok old_info ↦
            if text_eq old new
            then some (
              if is_dir old_info.mode
                  then err (link_error "rename" old new (sentinel err_exist))
                  else ok tt,
              w1,
            )
            else if text_eq old_point new_point
            then some (rename old_mount old_sub new_sub w1)
            else if is_dir old_info.mode
            then some (err (link_error "rename" old new (sentinel err_not_implemented)), w1)
            else let (opened, w2) = open_name old_mount old_sub w1 in
              elim opened [
                | err e ↦ some (err e, w2)
                | ok old_file ↦
                    copy_across fuel old_mount new_mount old_sub new_sub old new old_file
                      old_info.mode w2
              ]
      ]
