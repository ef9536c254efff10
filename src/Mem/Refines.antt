-- ===== src/Mem/Refines.antt =====
-- The operations of keyvalue/fs.go on an idle in-memory store, against Mem/Spec.antt.
use hackpadfs.Base.{
  ℕ, Text, text_eq, Bool, true, false, not, none, some, List, [], ◌∷◌, ◌≡◌, refl, ◌∙◌,
  if◌then◌else◌, Bool-cases, Option-cases, inl, inr, String,
}
use hackpadfs.Errors.{Error, sentinel, path_error, err_not_empty, Result, ok, err, is_error}
use hackpadfs.FilePath.{dot, valid_path}
use hackpadfs.FilePath.Parent.{parent, path_dir-parent, valid_path-parent}
use hackpadfs.Modes.{is_dir, chmod_mode}
use hackpadfs.Blob.{Heap, returns}
use hackpadfs.KeyValue.Files.{FileData, mode_of, get_file, new_dir, save, info_of}
use hackpadfs.KeyValue.Call.{Call, ◌>>=◌}
use hackpadfs.KeyValue.Fs.{wrapped, stat, mkdir, remove_dir, remove, chmod, chtimes}
use hackpadfs.Mem.{Entry, Mem, load, delete, file_record, child_names, read_dir_names, mem_store}
use hackpadfs.Mem.Calls.{held, idle, stored, get_file_lem, set_file_lem, set_file_nil_lem, lookup}
use hackpadfs.Mem.Lookup.{
  Result-cases, lookup-of_invalid, lookup-of_none, lookup-of_some, lookup-ok-valid,
}
use hackpadfs.Mem.Spec.{
  refuse, is_empty, add_dir, stat_entry, stat_spec, mkdir_spec, remove_entry, remove_spec,
  chmod_entry, chmod_spec, chtimes_entry, chtimes_spec,
}

-- Data of a stored record is its blob.
pub stored-GivesData :
    (path : Text) (e : Entry) (records : List (Text × Entry)) (heap : Heap) (clock : ℕ)
    → (locked : Bool)
    → (file_record path e).data_of (held locked records heap clock)
      ≡ (ok e.contents, held locked records heap clock)
unfolding file_record
stored-GivesData path e records heap clock locked = refl

pub stored-mode : (path : Text) (e : Entry) → (file_record path e).mode ≡ e.mode
unfolding file_record
stored-mode path e = refl

read_dir_names_lem :
    (path : Text) (e : Entry) (records : List (Text × Entry)) (heap : Heap) (clock : ℕ)
    → is_dir e.mode ≡ true
    → (file_record path e).dir_names (idle records heap clock) ≡ ok (child_names path records)
unfolding file_record read_dir_names
read_dir_names_lem path e records heap clock h = rw h

module _ (records : List (Text × Entry)) (heap : Heap) (clock : ℕ) where
  abbrev here : Mem
  here = idle records heap clock

  -- An operation that begins with getFile, with its name put on the error.
  after_get_file :
      {A : Type 0} (op : String) (name : Text) (k : FileData Mem → Call Mem A)
      (spec : Result Entry → Result A × Mem)
      → ((e : Error) → spec (err e) ≡ (err (path_error op name e), here))
      → ((e : Entry) → valid_path name ≡ true → k (stored name e) here ≡ returns (spec (ok e)))
      → (wrapped mem_store op name (get_file mem_store name) >>= k) here
        ≡ returns (spec (lookup name records))
  after_get_file op name k spec fails goes =
      rw (get_file_lem name records heap clock) (elim (Result-cases (lookup name records)) [
        | inl (e, failed) ↦ rw (failed, fails e)
        | inr (e, there) ↦ rw there (goes e (lookup-ok-valid name records e there))
      ])

  -- Stat on an idle in-memory store, for every name: the error of the lookup, or the info of the
  -- record. The store does not change, and its mutex is given back.
  stat-refines :
      (name : Text) → stat mem_store name here ≡ returns (stat_spec records heap clock name)
  unfolding stat info_of file_record
  stat-refines name =
      after_get_file _ name _ (stat_entry records heap clock name) (λ e. refl) (λ e h. refl)

  -- Chmod on an idle in-memory store, for every name and mode: the error of the lookup, or the
  -- record is stored again with the mode's chmod bits and nothing else changed.
  pub chmod-refines :
      (name : Text) (mode : ℕ)
      → chmod mem_store name mode here ≡ returns (chmod_spec records heap clock name mode)
  unfolding chmod save
  chmod-refines name mode =
      after_get_file _ name _ (λ r. chmod_entry records heap clock name r mode) (λ e. refl)
        (λ e h.
          let f : FileData Mem = record (stored name e) {
            mode_override = some (chmod_mode (mode_of mem_store (stored name e)) mode);
          } in
          set_file_lem name f e.contents records heap heap clock h refl
            (stored-GivesData name e records heap clock)
          ∙ (unfold file_record in refl))

  -- Chtimes on an idle in-memory store, for every name: the error of the lookup, or the record is
  -- stored again with the new time, and with its old one where the new one is the zero time.
  pub chtimes-refines :
      (name : Text) (atime mtime : ℕ)
      → chtimes mem_store name atime mtime here
        ≡ returns (chtimes_spec records heap clock name mtime)
  unfolding chtimes save
  chtimes-refines name atime mtime =
      after_get_file _ name _ (λ r. chtimes_entry records heap clock name r mtime) (λ e. refl)
        (λ e h.
          let f : FileData Mem = record (stored name e) { mod_time_override = mtime } in
          set_file_lem name f e.contents records heap heap clock h refl
            (stored-GivesData name e records heap clock)
          ∙ (unfold file_record in refl))

  remove_dir_lem :
      (name : Text) (ns : List Text)
      → valid_path name ≡ true
      → remove_dir mem_store name (ok ns) here
        ≡ returns (
            if not (is_empty ns)
            then refuse records heap clock "remove" name (sentinel err_not_empty)
            else (ok tt, idle (delete name records) heap clock))
  unfolding remove_dir
  remove_dir_lem name [] h = set_file_nil_lem name records heap clock h
  remove_dir_lem name (n ∷ ns) h = refl

  -- Remove on an idle in-memory store, for every name: the error of the lookup, or the refusal of
  -- a directory that lists a child, or the record is deleted and nothing else changed.
  pub remove-refines :
      (name : Text) → remove mem_store name here ≡ returns (remove_spec records heap clock name)
  unfolding remove
  remove-refines name =
      after_get_file _ name _ (remove_entry records heap clock name) (λ e. refl)
        (λ e h. elim (Bool-cases (is_dir e.mode)) [
          | inl dir ↦
              rw (stored-mode name e, dir, read_dir_names_lem name e records heap clock dir)
                (remove_dir_lem name (child_names name records) h)
          | inr other ↦ rw (stored-mode name e, other) (set_file_nil_lem name records heap clock h)
        ])

  -- A new directory is saved.
  save_dir :
      (name : Text) (perm : ℕ)
      → valid_path name ≡ true
      → save mem_store (new_dir mem_store name perm here) here
        ≡ returns (ok tt, add_dir name perm records heap clock)
  unfolding save new_dir mem_store
  save_dir name perm h =
      set_file_lem name (new_dir mem_store name perm here) _ records heap _ clock h refl (λ b. refl)

  -- The parent of a path that is not there is looked up, and the directory is made.
  mkdir-refines_below :
      (name : Text) (perm : ℕ)
      → valid_path name ≡ true
      → load name records ≡ none
      → text_eq name dot ≡ false
      → mkdir mem_store name perm here ≡ returns (mkdir_spec records heap clock name perm)
  unfolding mkdir is_error
  mkdir-refines_below name perm good missing below =
      elim (Option-cases (load (parent name) records)) [
        | inl orphan ↦ rw (
          stat-refines name,
          lookup-of_none name records good missing,
          below,
          path_dir-parent name good,
          stat-refines (parent name),
          lookup-of_none (parent name) records (valid_path-parent name good) orphan,
          good,
          missing,
          orphan,
        )
        | inr (e, there) ↦ rw (
          stat-refines name,
          lookup-of_none name records good missing,
          below,
          path_dir-parent name good,
          stat-refines (parent name),
          lookup-of_some (parent name) records e (valid_path-parent name good) there,
          save_dir name perm good,
          good,
          missing,
          there,
        )
      ]

  -- Mkdir on an idle in-memory store, for every name: a name that is not valid, that is there, or
  -- whose parent is not there is refused with its own error and nothing changes; any other gets a
  -- new directory record, with an empty blob, the permission bits and the time of the call.
  pub mkdir-refines :
      (name : Text) (perm : ℕ)
      → mkdir mem_store name perm here ≡ returns (mkdir_spec records heap clock name perm)
  unfolding mkdir is_error
  mkdir-refines name perm = elim (Bool-cases (valid_path name)) [
    | inr bad ↦ rw (stat-refines name, lookup-of_invalid name records bad, bad)
    | inl good ↦ elim (Option-cases (load name records)) [
      | inr (e, there) ↦
          rw (stat-refines name, lookup-of_some name records e good there, good, there)
      | inl missing ↦ elim (Bool-cases (text_eq name dot)) [
        | inr below ↦ mkdir-refines_below name perm good missing below
        | inl root ↦ rw (
          stat-refines name,
          lookup-of_none name records good missing,
          root,
          save_dir name perm good,
          good,
          missing,
        )
      ]
    ]
  ]
