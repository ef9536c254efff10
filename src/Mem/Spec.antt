-- ===== src/Mem/Spec.antt =====
-- What Mkdir, Remove, Chmod, Chtimes and Stat of keyvalue/fs.go promise over the records of an
-- in-memory store: an independent description by one lookup and one Store or Delete.
use hackpadfs.Base.{
  ℕ, Text, text_eq, Bool, true, false, ◌&&◌, ◌||◌, not, Option, none, some, List, [], ◌∷◌, ◌==◌,
  if◌then◌else◌, String,
}
use hackpadfs.Errors.{
  Error, sentinel, path_error, err_invalid, err_exist, err_not_exist, err_not_empty, Result, ok,
  err,
}
use hackpadfs.FilePath.{dot, valid_path, path_base}
use hackpadfs.FilePath.Parent.{parent}
use hackpadfs.Modes.{is_dir, dir_mode, chmod_mode}
use hackpadfs.Fs.{FileInfo}
use hackpadfs.Blob.{Heap, blob_len, new_bytes_of}
use hackpadfs.Mem.{Entry, Mem, load, delete, put, child_names}
use hackpadfs.Mem.Calls.{idle, lookup}

abbrev is_some : Option Entry → Bool
is_some none = false
is_some (some e) = true

abbrev is_there : Text → List (Text × Entry) → Bool
is_there path records = is_some (load path records)

abbrev pub is_empty : List Text → Bool
is_empty [] = true
is_empty (n ∷ ns) = false

-- A new directory, with an empty blob, in a store.
abbrev pub add_dir : Text → ℕ → List (Text × Entry) → Heap → ℕ → Mem
add_dir name perm records heap clock =
    let (r, heap') = new_bytes_of [] heap in
    let e : Entry = record { contents = r; mode = dir_mode perm; mod_time = clock } in
    idle (put name e records) heap' clock

module _ (records : List (Text × Entry)) (heap : Heap) (clock : ℕ) where
  abbrev pub refuse : {A : Type 0} → String → Text → Error → Result A × Mem
  refuse op name e = (err (path_error op name e), idle records heap clock)

  abbrev pub stat_entry : Text → Result Entry → Result FileInfo × Mem
  stat_entry name (err e) = refuse "stat" name e
  stat_entry name (ok e) = (
    ok (record {
      name = path_base name;
      size = blob_len heap e.contents;
      mode = e.mode;
      mod_time = e.mod_time;
    }),
    idle records heap clock,
  )

  abbrev pub stat_spec : Text → Result FileInfo × Mem
  stat_spec name = stat_entry name (lookup name records)

  abbrev pub mkdir_spec : Text → ℕ → Result (Unit {0}) × Mem
  mkdir_spec name perm =
      if not (valid_path name)
      then refuse "stat" name (sentinel err_invalid)
      else if is_there name records
      then refuse "mkdir" name (sentinel err_exist)
      else if text_eq name dot || is_there (parent name) records
      then (ok tt, add_dir name perm records heap clock)
      else refuse "mkdir" name (path_error "stat" (parent name) (sentinel err_not_exist))

  abbrev pub remove_entry : Text → Result Entry → Result (Unit {0}) × Mem
  remove_entry name (err e) = refuse "remove" name e
  remove_entry name (ok e) =
      if is_dir e.mode && not (is_empty (child_names name records))
      then refuse "remove" name (sentinel err_not_empty)
      else (ok tt, idle (delete name records) heap clock)

  abbrev pub remove_spec : Text → Result (Unit {0}) × Mem
  remove_spec name = remove_entry name (lookup name records)

  abbrev pub chmod_entry : Text → Result Entry → ℕ → Result (Unit {0}) × Mem
  chmod_entry name (err e) mode = refuse "chmod" name e
  chmod_entry name (ok e) mode =
      let e' : Entry = record e { mode = chmod_mode e.mode mode } in
      (ok tt, idle (put name e' records) heap clock)

  abbrev pub chmod_spec : Text → ℕ → Result (Unit {0}) × Mem
  chmod_spec name mode = chmod_entry name (lookup name records) mode

  -- The zero time changes nothing.
  abbrev pub chtimes_entry : Text → Result Entry → ℕ → Result (Unit {0}) × Mem
  chtimes_entry name (err e) mtime = refuse "chtimes" name e
  chtimes_entry name (ok e) mtime =
      let e' : Entry = record e { mod_time = if mtime == 0 then e.mod_time else mtime } in
      (ok tt, idle (put name e' records) heap clock)

  abbrev pub chtimes_spec : Text → ℕ → Result (Unit {0}) × Mem
  chtimes_spec name mtime = chtimes_entry name (lookup name records) mtime
