-- ===== src/Fs/Samples.antt =====
-- A file system whose every path is a directory, for tests.
use hackpadfs.Base.{Text, none, some, []}
use hackpadfs.Errors.{sentinel, path_error, err_exist, eof, ok, err}
use hackpadfs.Modes.{mode_dir}
use hackpadfs.Fs.{FileInfo, File, Ops, Fs, plain}

abbrev pub World : Type 0
World = Unit {0}

-- A directory, whose name tells the file system it is of.
abbrev pub dir_info : Text → FileInfo
dir_info name = record { name = name; size = 0; mode = mode_dir; mod_time = 0 }

abbrev pub dir_file : {W : Type 0} → Text → File W
dir_file name = record {
  close = λ w. (ok tt, w);
  stat = λ w. (ok (dir_info name), w);
  read = λ n w. (([], some (sentinel eof)), w);
  write = none;
  read_at = none;
  write_at = none;
  seek = none;
  read_dir = none;
  chmod = none;
  chown = none;
  chtimes = none;
  sync = none;
  truncate = none;
}

abbrev pub all_dirs_ops : {W : Type 0} → Text → Ops W
all_dirs_ops name = record {
  open_name = λ p w. (ok (dir_file name), w);
  open_file = none;
  create = none;
  mkdir = some (λ p perm w. (err (path_error "mkdir" p (sentinel err_exist)), w));
  mkdir_all = none;
  remove = none;
  remove_all = none;
  rename = none;
  stat = none;
  lstat = none;
  chmod = none;
  chown = none;
  chtimes = none;
  read_dir = none;
  read_file = none;
  write_file = none;
  symlink = none;
}

abbrev pub all_dirs : Text → Fs World
all_dirs name = plain (all_dirs_ops name)
