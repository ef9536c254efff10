-- ===== src/Os/Calls.antt =====
-- The operations of os/fs.go, over the calls of Go's package os.
use hackpadfs.Base.{ℕ, Text, String, Option, none, some, List, []}
use hackpadfs.Base.Int.{ℤ}
use hackpadfs.Errors.{Error, path_error, link_error, Result, ok, err}
use hackpadfs.Fs.{FileInfo, DirEntry, Action, fail, pure, ◌>>=◌, File, Ops}
use hackpadfs.Os.{OsFs, Platform, rooted_path}
use hackpadfs.Os.Wrap.{wrap_err}

-- A file of package os.
record OsFile (W : Type 0) : Type 0 where
  pub name : Text
  pub chmod : ℕ → Action W (Unit {0})
  pub chown : ℕ → ℕ → Action W (Unit {0})
  pub close : Action W (Unit {0})
  pub read : ℕ → W → (Text × Option Error) × W
  pub read_at : ℕ → ℤ → W → (Text × Option Error) × W
  pub read_dir : ℤ → W → (List DirEntry × Option Error) × W
  read_from : File W → W → (ℕ × Option Error) × W
  pub seek : ℤ → ℕ → Action W ℤ
  set_deadline : ℕ → Action W (Unit {0})
  set_read_deadline : ℕ → Action W (Unit {0})
  set_write_deadline : ℕ → Action W (Unit {0})
  pub stat : Action W FileInfo
  pub sync : Action W (Unit {0})
  pub truncate : ℤ → Action W (Unit {0})
  pub write : Text → W → (ℕ × Option Error) × W
  pub write_at : Text → ℤ → W → (ℕ × Option Error) × W
  write_string : Text → W → (ℕ × Option Error) × W

-- The functions of package os that os.FS calls.
record OsCalls (W : Type 0) : Type 0 where
  pub open_name : Text → Action W (OsFile W)
  pub open_file : Text → ℕ → ℕ → Action W (OsFile W)
  pub create : Text → Action W (OsFile W)
  pub mkdir : Text → ℕ → Action W (Unit {0})
  pub mkdir_all : Text → ℕ → Action W (Unit {0})
  pub remove : Text → Action W (Unit {0})
  pub remove_all : Text → Action W (Unit {0})
  pub rename : Text → Text → Action W (Unit {0})
  pub stat : Text → Action W FileInfo
  pub lstat : Text → Action W FileInfo
  pub chmod : Text → ℕ → Action W (Unit {0})
  pub chown : Text → ℕ → ℕ → Action W (Unit {0})
  pub chtimes : Text → ℕ → ℕ → Action W (Unit {0})
  pub read_dir : Text → W → (List DirEntry × Option Error) × W
  read_file : Text → W → (Text × Option Error) × W
  pub write_file : Text → Text → ℕ → Action W (Unit {0})
  pub symlink : Text → Text → Action W (Unit {0})

-- The field Err of a path error.
abbrev inner_error : Error → Error
inner_error (path_error op path e) = e
inner_error e = e

module _ (platform : Platform) (fs : OsFs) where
  -- A result with its error wrapped.
  abbrev wrap_result : {A : Type 0} → Result A → Result A
  wrap_result (ok a) = ok a
  wrap_result (err e) = err (wrap_err platform fs e)

  -- A value that comes beside an error.
  abbrev wrap_error : Option Error → Option Error
  wrap_error none = none
  wrap_error (some e) = some (wrap_err platform fs e)

module _ {W : Type 0} (platform : Platform) (fs : OsFs) where
  abbrev pub wrapped : {A : Type 0} → Action W A → Action W A
  wrapped m w = let (r, w') = m w in (wrap_result platform fs r, w')

  abbrev wrapped_both : {A : Type 0} → (W → (A × Option Error) × W) → W → (A × Option Error) × W
  wrapped_both m w = let ((a, e), w') = m w in ((a, wrap_error platform fs e), w')

  -- wrapFile and the methods of its file.
  wrap_file : OsFile W → OsFile W
  unfolding wrap_err
  wrap_file f = record {
    name = f.name;
    chmod = λ mode. wrapped (f.chmod mode);
    chown = λ uid gid. wrapped (f.chown uid gid);
    close = wrapped f.close;
    read = λ n. wrapped_both (f.read n);
    read_at = λ n off. wrapped_both (f.read_at n off);
    read_dir = λ n. wrapped_both (f.read_dir n);
    read_from = λ r. wrapped_both (f.read_from r);
    seek = λ offset whence. wrapped (f.seek offset whence);
    set_deadline = λ t. wrapped (f.set_deadline t);
    set_read_deadline = λ t. wrapped (f.set_read_deadline t);
    set_write_deadline = λ t. wrapped (f.set_write_deadline t);
    stat = wrapped f.stat;
    sync = wrapped f.sync;
    truncate = λ size. wrapped (f.truncate size);
    write = λ b. wrapped_both (f.write b);
    write_at = λ b off. wrapped_both (f.write_at b off);
    write_string = λ s. wrapped_both (f.write_string s);
  }

  -- The file as the interfaces of file.go see it.
  file_of : OsFile W → File W
  file_of f = record {
    close = f.close;
    stat = f.stat;
    read = f.read;
    write = some f.write;
    read_at = some f.read_at;
    write_at = some f.write_at;
    seek = some f.seek;
    read_dir = some f.read_dir;
    chmod = some f.chmod;
    chown = some f.chown;
    chtimes = none;
    sync = some f.sync;
    truncate = some f.truncate;
  }

  -- A call on the rooted path of a name, or the error of rootedPath as it is.
  at_path : {A : Type 0} → String → Text → (Text → Action W A) → Action W A
  unfolding rooted_path wrap_err
  at_path op name call = elim (rooted_path platform op fs name) [
    | err e ↦ fail e
    | ok path ↦ wrapped (call path)
  ]

  at_file : String → Text → (Text → Action W (OsFile W)) → Action W (File W)
  unfolding at_path wrap_file file_of
  at_file op name call = at_path op name call >>= λ f. pure (file_of (wrap_file f))

  at_path_both :
      {A : Type 0}
      → String
      → Text
      → A
      → (Text → W → (A × Option Error) × W)
      → W
      → (A × Option Error) × W
  unfolding rooted_path wrap_err
  at_path_both op name nothing call = elim (rooted_path platform op fs name) [
    | err e ↦ λ w. ((nothing, some e), w)
    | ok path ↦ wrapped_both (call path)
  ]

  -- Rename and Symlink. The source assigns rootedPath's result to the name it was given, so the
  -- error of a name that is not valid shows an empty text for it, and the rooted old path where
  -- it is the new name that is not valid.
  at_paths :
      String → String → Text → Text → (Text → Text → Action W (Unit {0})) → Action W (Unit {0})
  unfolding rooted_path wrap_err
  at_paths op path_op old new call = elim (rooted_path platform path_op fs old) [
    | err e ↦ fail (link_error op [] new (inner_error e))
    | ok old_path ↦ elim (rooted_path platform path_op fs new) [
      | err e ↦ fail (link_error op old_path [] (inner_error e))
      | ok new_path ↦ wrapped (call old_path new_path)
    ]
  ]

  module _ (os : OsCalls W) where
    -- FS with its methods.
    unfoldable os_fs : Ops W
    unfolding at_path at_file at_path_both at_paths
    os_fs = record {
      open_name = λ name. at_file "open" name os.open_name;
      open_file = some (λ name flag perm. at_file "open" name (λ p. os.open_file p flag perm));
      create = some (λ name. at_file "create" name os.create);
      mkdir = some (λ name perm. at_path "mkdir" name (λ p. os.mkdir p perm));
      mkdir_all = some (λ name perm. at_path "mkdirall" name (λ p. os.mkdir_all p perm));
      remove = some (λ name. at_path "remove" name os.remove);
      remove_all = some (λ name. at_path "removeall" name os.remove_all);
      rename = some (λ old new. at_paths "rename" "" old new os.rename);
      stat = some (λ name. at_path "stat" name os.stat);
      lstat = some (λ name. at_path "lstat" name os.lstat);
      chmod = some (λ name mode. at_path "chmod" name (λ p. os.chmod p mode));
      chown = some (λ name uid gid. at_path "chown" name (λ p. os.chown p uid gid));
      chtimes = some (λ name atime mtime. at_path "chtimes" name (λ p. os.chtimes p atime mtime));
      read_dir = some (λ name. at_path_both "readdir" name [] os.read_dir);
      read_file = some (λ name. at_path_both "readfile" name [] os.read_file);
      write_file =
          some
            (λ name contents perm. at_path "writefile" name (λ p. os.write_file p contents perm));
      symlink = some (λ old new. at_paths "symlink" "symlink" old new os.symlink);
    }
