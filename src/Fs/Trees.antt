-- ===== src/Fs/Trees.antt =====
-- The operations of fs.go that make several calls where the file system has none of its own:
-- MkdirAll, ReadDir, RemoveAll and WriteFullFile.
use hackpadfs.Base.{
  ℕ, zero, suc, ◌+◌, Text, Bool, true, false, ◌&&◌, ◌||◌, not, Option, none, some, List, [], ◌∷◌,
  ◌++◌, ltb, ◌==◌, if◌then◌else◌,
}
use hackpadfs.Base.Int.{negsuc}
use hackpadfs.Errors.{
  Error, sentinel, path_error, text_error, err_invalid, err_exist, err_not_exist, err_not_dir,
  is_error, Result, ok, err,
}
use hackpadfs.Errors.Strip.{strip_err_path_prefix}
use hackpadfs.FilePath.{slash, valid_path, path_join}
use hackpadfs.Modes.{is_dir, flag_write_only, flag_create, flag_truncate}
use hackpadfs.Fs.{DirEntry, Action, ◌>>=◌, ◌>>◌, File, Ops, Fs, plain, mounted}
use hackpadfs.Fs.FileOps.{write_file_data}
use hackpadfs.Fs.Dispatch.{inside, open_file, mkdir, remove, stat}

-- The order of file names in a listing: by bytes.
text_before : Text → Text → Bool
text_before s [] = false
text_before [] (d ∷ t) = true
text_before (c ∷ s) (d ∷ t) = ltb c d || (c == d && text_before s t)

insert_entry : DirEntry → List DirEntry → List DirEntry
unfolding text_before
insert_entry e [] = e ∷ []
insert_entry e (x ∷ xs) =
    let rest = insert_entry e xs in if text_before x.name e.name then x ∷ rest else e ∷ x ∷ xs

sort_entries : List DirEntry → List DirEntry
unfolding insert_entry
sort_entries [] = []
sort_entries (e ∷ es) = insert_entry e (sort_entries es)

-- The error of ReadDir inside a MountFS.
abbrev strip_error : Text → Text → Option Error → Option Error
strip_error name sub_path none = none
strip_error name sub_path (some e) = some (strip_err_path_prefix e name sub_path)

-- `if errors.Is(err, ErrNotExist) { err = nil }`
unless_missing : Result (Unit {0}) → Result (Unit {0})
unfolding is_error
unless_missing (ok _) = ok tt
unless_missing (err e) = if is_error e err_not_exist then ok tt else err e

module _ {W : Type 0} where
  -- What MkdirAll does about an error of Mkdir of an ancestor: a directory that is there is fine.
  unfoldable pub made_before : Ops W → Error → Action W (Unit {0})
  unfolding is_error is_dir
  made_before o (path_error op p cause) w =
      let (r, w') = stat (plain o) p w in
      if not (is_error (path_error op p cause) err_exist)
      then (err (path_error op p cause), w)
      else elim r [
        | err e ↦ (err (path_error op p cause), w')
        | ok info ↦ (
          if is_dir info.mode then ok tt else err (path_error "mkdir" p (sentinel err_not_dir)),
          w',
        )
      ]
  made_before o e w = (err e, w)

  -- The loop over the bytes of the path; `seen` is what stands in front of the byte.
  unfoldable pub make_ancestors : Ops W → Text → Text → ℕ → Action W (Unit {0})
  unfolding made_before
  make_ancestors o seen [] perm w = (ok tt, w)
  make_ancestors o seen (c ∷ s) perm w = elim (c == slash) [
    | false ↦ make_ancestors o (seen ++ (c ∷ [])) s perm w
    | true ↦
        let (r, w1) = mkdir (plain o) seen perm w in
        elim r [
          | ok _ ↦ make_ancestors o (seen ++ (c ∷ [])) s perm w1
          | err e ↦ (made_before o e >>= λ _. make_ancestors o (seen ++ (c ∷ [])) s perm) w1
        ]
  ]

  -- MkdirAll
  unfoldable pub mkdir_all : Fs W → Text → ℕ → Action W (Unit {0})
  mkdir_all (plain o) path perm w = elim o.mkdir_all [
    | some call ↦ call path perm w
    | none ↦
        if not (valid_path path)
        then (err (path_error "mkdirall" path (sentinel err_invalid)), w)
        else (make_ancestors o [] path perm >> mkdir (plain o) path perm) w
  ]
  mkdir_all (mounted o mount sub_path) path perm w = elim o.mkdir_all [
    | some call ↦ call path perm w
    | none ↦ inside path (sub_path w path) (mkdir_all (mount w path) (sub_path w path) perm w)
  ]

  -- io/fs.ReadDir: open the directory, read it whole, and sort.
  read_opened : Ops W → Text → W → (List DirEntry × Option Error) × W
  unfolding sort_entries
  read_opened o name w =
      let (opened, w1) = o.open_name name w in
      elim opened [
        | err e ↦ (([], some e), w1)
        | ok f ↦ elim f.read_dir [
          | none ↦ (
            ([], some (path_error "readdir" name (text_error "not implemented"))),
            (f.close w1).1,
          )
          | some read ↦
              let ((entries, e), w2) = read (negsuc 0) w1 in
              ((sort_entries entries, e), (f.close w2).1)
        ]
      ]

  -- ReadDir
  unfoldable pub read_dir : Fs W → Text → W → (List DirEntry × Option Error) × W
  unfolding read_opened
  read_dir (plain o) name w = elim o.read_dir [
    | some call ↦ call name w
    | none ↦ read_opened o name w
  ]
  read_dir (mounted o mount sub_path) name w = elim o.read_dir [
    | some call ↦ call name w
    | none ↦
        let ((entries, e), w') = read_dir (mount w name) (sub_path w name) w in
        ((entries, strip_error name (sub_path w name) e), w')
  ]

  -- The loop of removeAll over the entries of a directory, with removeAll itself.
  remove_each :
      (Text → W → Option (Result (Unit {0}) × W))
      → Text
      → List DirEntry
      → W
      → Option (Result (Unit {0}) × W)
  unfolding path_join
  remove_each remove_one path [] w = some (ok tt, w)
  remove_each remove_one path (entry ∷ entries) w =
      elim (remove_one (path_join (path ∷ entry.name ∷ [])) w) [
        | none ↦ none
        | some (err e, w') ↦ some (err (path_error "removeall" path e), w')
        | some (ok _, w') ↦ remove_each remove_one path entries w'
      ]

  -- removeAll, with fuel for the depth of the directories. The error of the last Remove is lost.
  remove_tree : ℕ → Ops W → Text → W → Option (Result (Unit {0}) × W)
  unfolding unless_missing remove_each is_error is_dir
  remove_tree zero o path w = none
  remove_tree (suc fuel) o path w =
      let (found, w1) = stat (plain o) path w in
      elim found [
        | err e ↦ some (unless_missing (err e), w1)
        | ok info ↦
            if not (is_dir info.mode)
            then (let (r, w2) = remove (plain o) path w1 in some (unless_missing r, w2))
            else let ((entries, failed), w2) = read_dir (plain o) path w1 in
              elim failed [
                | some e ↦ some (err (path_error "removeall" path e), w2)
                | none ↦ elim (remove_each (remove_tree fuel o) path entries w2) [
                  | none ↦ none
                  | some (err e, w3) ↦ some (err e, w3)
                  | some (ok _, w3) ↦ some (ok tt, (remove (plain o) path w3).1)
                ]
              ]
      ]

  -- RemoveAll; `none` where the fuel is used up.
  unfoldable pub remove_all : ℕ → Fs W → Text → W → Option (Result (Unit {0}) × W)
  unfolding remove_tree
  remove_all fuel (plain o) path w = elim o.remove_all [
    | some call ↦ some (call path w)
    | none ↦
        if not (valid_path path)
        then some (err (path_error "removeall" path (sentinel err_invalid)), w)
        else remove_tree fuel o path w
  ]
  remove_all fuel (mounted o mount sub_path) path w = elim o.remove_all [
    | some call ↦ some (call path w)
    | none ↦ elim (remove_all fuel (mount w path) (sub_path w path) w) [
      | none ↦ none
      | some r ↦ some (inside path (sub_path w path) r)
    ]
  ]

  -- The rest of WriteFullFile with an open file: an error of the write comes before one of Close.
  write_and_close : File W → Text → Action W (Unit {0})
  unfolding write_file_data
  write_and_close f contents w =
      let ((n, failed), w1) = write_file_data f contents w in
      let (closed, w2) = f.close w1 in elim failed [ some e ↦ (err e, w2) | none ↦ (closed, w2) ]

  -- WriteFullFile
  unfoldable write_full_file : Fs W → Text → Text → ℕ → Action W (Unit {0})
  unfolding open_file write_and_close
  write_full_file (plain o) name contents perm w = elim o.write_file [
    | some call ↦ call name contents perm w
    | none ↦
        (open_file (plain o) name (flag_write_only + flag_create + flag_truncate) perm >>= λ f.
        write_and_close f contents)
          w
  ]
  write_full_file (mounted o mount sub_path) name contents perm w = elim o.write_file [
    | some call ↦ call name contents perm w
    | none ↦
        inside name (sub_path w name)
          (write_full_file (mount w name) (sub_path w name) contents perm w)
  ]
