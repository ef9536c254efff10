-- ===== src/KeyValue/Access.antt =====
-- The other methods of a file of keyvalue/file.go, and what the wrappers readOnlyFile and
-- writeOnlyFile of keyvalue/file_rwonly.go pass on.
use hackpadfs.Base.{ℕ, Text, Option, none, some, List, []}
use hackpadfs.Base.Int.{ℤ}
use hackpadfs.Errors.{Error, sentinel, path_error, err_not_implemented, Result}
use hackpadfs.Fs.{FileInfo, DirEntry}
use hackpadfs.Blob.{Outcome, returns, ◌>>=◌}
use hackpadfs.KeyValue.{Store}
use hackpadfs.KeyValue.Files.{info_of}
use hackpadfs.KeyValue.Handle.{
  Handle, with_file, moved, close, seek, read, read_at, read_blob_at, write, write_at,
  write_blob_at, truncate_handle, chmod_handle,
}
use hackpadfs.KeyValue.Listing.{read_dir}
use hackpadfs.KeyValue.Open.{Access, read_only, write_only, read_write, Opened}

module _ {S : Type 0} (store : Store S) where
  -- file.ReadBlob
  unfoldable read_blob : ℕ → Handle S → S → Outcome ((Option ℕ × ℕ × Option Error) × Handle S × S)
  unfolding read_blob_at
  read_blob length f s = read_blob_at store length f.offset f s >>= λ ((b, n, e), f1, s1).
      returns ((b, n, e), moved store n f1, s1)

  -- file.WriteBlob
  unfoldable write_blob : ℕ → Handle S → S → Outcome ((ℕ × Option Error) × Handle S × S)
  unfolding write_blob_at
  write_blob p f s = write_blob_at store "write" p f.offset f s >>= λ ((n, e), f1, s1).
      returns ((n, e), moved store n f1, s1)

  -- file.Stat
  unfoldable stat_handle : Handle S → S → Outcome FileInfo
  unfolding info_of
  stat_handle f s = with_file store f (λ d. returns (info_of store d s))

  -- A method with the handle that it is called on, and the wrapper around it after the call.
  abbrev on_handle :
      {A : Type 0}
      → (Handle S → S → Outcome (A × Handle S × S))
      → Opened S
      → S
      → Outcome (A × Opened S × S)
  on_handle m o s = m o.handle s >>= λ (a, f, s1). returns (a, record o { handle = f }, s1)

  -- A method of *file and of readOnlyFile that writeOnlyFile lacks.
  abbrev unless_write_only : {A : Type 0} → Access → A → Option A
  unless_write_only read_only m = some m
  unless_write_only write_only m = none
  unless_write_only read_write m = some m

  -- A method of *file and of writeOnlyFile that readOnlyFile lacks.
  abbrev unless_read_only : {A : Type 0} → Access → A → Option A
  unless_read_only read_only m = none
  unless_read_only write_only m = some m
  unless_read_only read_write m = some m

  -- Read of a writeOnlyFile, of which every File has one.
  unfoldable refuse_read : Opened S → S → Outcome ((Text × ℕ × Option Error) × Opened S × S)
  refuse_read o s =
      with_file store o.handle (λ d.
        returns (([], 0, some (path_error "read" d.path (sentinel err_not_implemented))), o, s))

  unfoldable read_opened : ℕ → Opened S → S → Outcome ((Text × ℕ × Option Error) × Opened S × S)
  unfolding read refuse_read
  read_opened n o s = elim (unless_write_only o.access tt) [
    | some _ ↦ on_handle (read store n) o s
    | none ↦ refuse_read o s
  ]

  -- The methods that an opened file has; `none` for one that its wrapper lacks.
  record Methods : Type 0 where
    pub close : Opened S → S → Outcome (Result (Unit {0}) × Opened S × S)
    pub read : ℕ → Opened S → S → Outcome ((Text × ℕ × Option Error) × Opened S × S)
    pub read_at : Option (ℕ → ℤ → Opened S → S → Outcome ((Text × ℕ × Option Error) × Opened S × S))
    read_blob : Option (ℕ → Opened S → S → Outcome ((Option ℕ × ℕ × Option Error) × Opened S × S))
    pub read_blob_at :
        Option (ℕ → ℤ → Opened S → S → Outcome ((Option ℕ × ℕ × Option Error) × Opened S × S))
    pub write : Option (Text → Opened S → S → Outcome ((ℕ × Option Error) × Opened S × S))
    pub write_at : Option (Text → ℤ → Opened S → S → Outcome ((ℕ × Option Error) × Opened S × S))
    write_blob : Option (ℕ → Opened S → S → Outcome ((ℕ × Option Error) × Opened S × S))
    pub write_blob_at : Option (ℕ → ℤ → Opened S → S → Outcome ((ℕ × Option Error) × Opened S × S))
    pub seek : ℤ → ℕ → Opened S → S → Outcome (Result ℤ × Opened S × S)
    pub stat : Opened S → S → Outcome FileInfo
    pub read_dir : Option (ℤ → Opened S → S → Outcome (Result (List DirEntry) × Opened S × S))
    pub truncate : ℤ → Opened S → S → Outcome (Result (Unit {0}) × Opened S × S)
    pub chmod : ℕ → Opened S → S → Outcome (Result (Unit {0}) × Opened S × S)

  -- The method sets of *file, readOnlyFile and writeOnlyFile.
  unfoldable methods : Access → Methods
  unfolding read_opened read_blob write_blob stat_handle read_at read_blob_at write write_at
      write_blob_at close seek read_dir truncate_handle chmod_handle
  methods access = record {
    close = on_handle (λ f s. let (r, f') = close store f in returns (r, f', s));
    read = read_opened;
    read_at = unless_write_only access (λ n off. on_handle (read_at store n off));
    read_blob = unless_write_only access (λ n. on_handle (read_blob n));
    read_blob_at = unless_write_only access (λ n off. on_handle (read_blob_at store n off));
    write = unless_read_only access (λ buf. on_handle (write store buf));
    write_at = unless_read_only access (λ buf off. on_handle (write_at store buf off));
    write_blob = unless_read_only access (λ p. on_handle (write_blob p));
    write_blob_at =
        unless_read_only access (λ p off. on_handle (write_blob_at store "writeat" p off));
    seek = λ offset whence.
        on_handle (λ f s. seek store offset whence f s >>= λ (r, f'). returns (r, f', s));
    stat = λ o. stat_handle o.handle;
    read_dir = unless_write_only access (λ n. on_handle (read_dir store n));
    truncate = λ size. on_handle (truncate_handle store size);
    chmod = λ mode. on_handle (chmod_handle store mode);
  }
