-- ===== src/Fs/Sub.antt =====
-- Sub of fs.go, and subFS of sub.go. An FS with a Sub method of its own is not modelled.
use hackpadfs.Base.{Text, [], ◌∷◌, none, if◌then◌else◌}
use hackpadfs.Errors.{sentinel, path_error, err_invalid, Result, ok, err}
use hackpadfs.Errors.Strip.{strip_result}
use hackpadfs.FilePath.{valid_path, path_join}
use hackpadfs.Fs.{Action, fail, File, Fs, plain, mounted}
use hackpadfs.Fs.Dispatch.{open_name, inside}

-- The path that subFS.Mount returns; its file system is always the root.
unfoldable pub sub_path : Text → Text → Text
unfolding valid_path path_join
sub_path base p = if valid_path p then path_join (base ∷ p ∷ []) else p

module _ {W : Type 0} where
  -- subFS.Open
  sub_open : Fs W → Text → Text → Action W (File W)
  sub_open root base name w =
      if valid_path name
      then inside name (sub_path base name) (open_name root (sub_path base name) w)
      else fail (path_error "open" name (sentinel err_invalid)) w

  -- subFS has Open and Mount, and no other method.
  unfoldable pub sub_fs : Fs W → Text → Fs W
  unfolding sub_open
  sub_fs root base =
      mounted
        (record {
          open_name = sub_open root base;
          open_file = none;
          create = none;
          mkdir = none;
          mkdir_all = none;
          remove = none;
          remove_all = none;
          rename = none;
          stat = none;
          lstat = none;
          chmod = none;
          chown = none;
          chtimes = none;
          read_dir = none;
          read_file = none;
          write_file = none;
          symlink = none;
        })
        (λ w p. root) (λ w p. sub_path base p)

  -- newSubFS
  unfoldable pub new_sub_fs : Fs W → Text → Result (Fs W)
  unfolding sub_fs
  new_sub_fs fs dir =
      if valid_path dir
      then ok (sub_fs fs dir)
      else err (path_error "sub" dir (sentinel err_invalid))

  -- Sub
  unfoldable pub sub : Fs W → Text → W → Result (Fs W)
  unfolding new_sub_fs
  sub (plain o) dir w = new_sub_fs (plain o) dir
  sub (mounted o mount inner) dir w =
      strip_result dir (inner w dir) (sub (mount w dir) (inner w dir) w)
