-- ===== src/Cache.antt =====
-- cache/fs.go: the read-only cache file system, over a source and a writable cache that live in
-- one world. Lock and Unlock of the path are left out: PathLock is about them, and one call is
-- looked at from its start to its end.
mod Tests
pub mod Dir
pub mod Stats
pub mod Pages
pub mod Copies
use hackpadfs.Base.{
  ℕ, ◌+◌, Text, text_eq, Bool, true, false, not, Option, none, some, List, [], ◌∷◌, if◌then◌else◌,
}
use hackpadfs.Base.Int.{ℤ, pos}
use hackpadfs.Errors.{
  Error, sentinel, path_error, err_permission, err_not_exist, is_error, Result, ok, err,
}
use hackpadfs.FilePath.{path_dir}
use hackpadfs.Modes.{is_dir, flag_write_only, flag_create, flag_truncate}
use hackpadfs.Fs.{FileInfo, DirEntry, Action, pure, fail, ◌>>=◌, ◌>>◌, File, Ops, Fs, plain, ops}
use hackpadfs.Fs.FileOps.{seek_file}
use hackpadfs.Fs.Dispatch.{open_name, closing}
use hackpadfs.Fs.Trees.{mkdir_all}
use hackpadfs.Fs.Copy.{copy}

-- The state of a ReadOnlyFS, cacheInfo, beside the world of the two file systems.
pub record Cached (W : Type 0) : Type 0 where
  pub cache_info : List (Text × FileInfo)
  pub world : W

-- cacheInfo.Load
unfoldable pub load_info : Text → List (Text × FileInfo) → Option FileInfo
unfolding text_eq
load_info name [] = none
load_info name ((q, info) ∷ infos) = if text_eq q name then some info else load_info name infos

-- writableFS: OpenFile and Mkdir, on top of Open. A nil RetainData keeps everything.
pub record ReadOnlyFs (W : Type 0) : Type 0 where
  pub source_fs : Fs W
  pub cache_fs : Fs W
  pub cache_open_file : Text → ℕ → ℕ → Action W (File W)
  pub retain_data : Option (Text → FileInfo → Bool)

-- What Open returns: a dir of cache/dir.go, or a file of the source or the cache.
pub data CacheFile (W : Type 0) : Type 0 where
  dir : Text → CacheFile W
  file : File W → CacheFile W

abbrev pub retains : Option (Text → FileInfo → Bool) → Text → FileInfo → Bool
retains none name info = true
retains (some retain) name info = retain name info

module _ {W : Type 0} where
  abbrev on_world : {A : Type 0} → Action W A → Action (Cached W) A
  on_world m c = let (r, w) = m c.world in (r, record c { world = w })

  -- Open of the source and Stat of the file, which is closed.
  unfoldable pub source_stat : ReadOnlyFs W → Text → Action W FileInfo
  source_stat fs name = open_name fs.source_fs name >>= λ f. closing f f.stat

  -- cacheInfo.Store of an info that has been found.
  abbrev pub store_info : Text → Result FileInfo × Cached W → Result FileInfo × Cached W
  store_info name (ok info, c) = (ok info, record c { cache_info = (name, info) ∷ c.cache_info })
  store_info name (err e, c) = (err e, c)

  abbrev known_info : ReadOnlyFs W → Text → Option FileInfo → Action (Cached W) FileInfo
  known_info fs name (some info) c = (ok info, c)
  known_info fs name none c = store_info name (on_world (source_stat fs name) c)

  -- Stat
  unfoldable pub stat : ReadOnlyFs W → Text → Action (Cached W) FileInfo
  stat fs name c = known_info fs name (load_info name c.cache_info) c

  -- The end of copyFile: the contents go through a buffer of 512 bytes.
  unfoldable pub copy_contents : ℕ → Text → File W → File W → W → Option (Result (Unit {0}) × W)
  copy_contents fuel name dest f w = elim dest.write [
    | none ↦ some (err (path_error "open" name (sentinel err_permission)), (dest.close w).1)
    | some write ↦ elim (copy write fuel 512 f.read w) [
      | none ↦ none
      | some (r, w') ↦ some (r, (dest.close w').1)
    ]
  ]

  -- copyFile. `none` where the copy takes more rounds than there is fuel.
  unfoldable pub copy_file :
      ℕ → ReadOnlyFs W → Text → File W → FileInfo → W → Option (Result (Unit {0}) × W)
  copy_file fuel fs name f info w =
      let parent = path_dir name in
      let (made, w1) = mkdir_all fs.cache_fs parent 0o700 w in
      elim made [
        | err e ↦ some (err (path_error "open" parent e), w1)
        | ok _ ↦
            let (opened, w2) =
              fs.cache_open_file name (flag_write_only + flag_create + flag_truncate) info.mode
                w1 in
            elim opened [ err e ↦ some (err e, w2) | ok dest ↦ copy_contents fuel name dest f w2 ]
      ]

  -- Back to the first byte, or the copy is opened in place of the file.
  unfoldable pub rewound : ReadOnlyFs W → Text → File W → Action W (File W)
  rewound fs name f w =
      let (sought, w1) = seek_file f (pos 0) 0 w in
      elim sought [ ok _ ↦ (ok f, w1) | err e ↦ open_name fs.cache_fs name (f.close w1).1 ]

  -- A file of the source that is not in the cache.
  unfoldable pub open_source : ℕ → ReadOnlyFs W → Text → FileInfo → W → Option (Result (File W) × W)
  open_source fuel fs name info w =
      let (opened, w1) = open_name fs.source_fs name w in
      elim opened [
        | err e ↦ some (err e, w1)
        | ok f ↦
            if not (retains fs.retain_data name info)
            then some (ok f, w1)
            else elim (copy_file fuel fs name f info w1) [
              | none ↦ none
              | some (err e, w2) ↦ some (err e, (f.close w2).1)
              | some (ok _, w2) ↦ some (rewound fs name f w2)
            ]
      ]

  -- A name that is no directory of the source: the cache first.
  unfoldable pub open_file : ℕ → ReadOnlyFs W → Text → FileInfo → W → Option (Result (File W) × W)
  open_file fuel fs name info w =
      let (opened, w1) = open_name fs.cache_fs name w in
      elim opened [
        | ok f ↦ some (ok f, w1)
        | err e ↦
            if not (is_error e err_not_exist)
            then some (err e, w1)
            else open_source fuel fs name info w1
      ]

  abbrev pub as_file :
      Option (Result (File W) × W)
      → List (Text × FileInfo)
      → Option (Result (CacheFile W) × Cached W)
  as_file none infos = none
  as_file (some (ok f, w)) infos = some (ok (file f), record { cache_info = infos; world = w })
  as_file (some (err e, w)) infos = some (err e, record { cache_info = infos; world = w })

  -- Open of a name whose info is known.
  unfoldable pub open_known :
      ℕ
      → ReadOnlyFs W
      → Text
      → Result FileInfo × Cached W
      → Option (Result (CacheFile W) × Cached W)
  open_known fuel fs name (err e, c) = some (err e, c)
  open_known fuel fs name (ok info, c) =
      if is_dir info.mode
      then some (ok (dir name), c)
      else as_file (open_file fuel fs name info c.world) c.cache_info

  -- Open
  unfoldable pub open_cached :
      ℕ → ReadOnlyFs W → Text → Cached W → Option (Result (CacheFile W) × Cached W)
  open_cached fuel fs name c = open_known fuel fs name (stat fs name c)
