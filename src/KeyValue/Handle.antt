-- ===== src/KeyValue/Handle.antt =====
-- The handles of keyvalue/file.go: `file`, with its offset and its flag, over any store.
use hackpadfs.Base.{
  ℕ, zero, suc, Text, ◌&&◌, not, Option, none, some, List, [], ◌==◌, if◌then◌else◌, String,
}
use hackpadfs.Base.Int.{ℤ, pos, ltb_ℤ, add64, sub64}
use hackpadfs.Errors.{
  Error, sentinel, path_error, err_invalid, err_is_dir, err_closed, eof, Result, ok, err,
}
use hackpadfs.Modes.{is_dir, is_append, chmod_mode}
use hackpadfs.Blob.{Outcome, returns, panics, ◌>>=◌}
use hackpadfs.KeyValue.{Store}
use hackpadfs.KeyValue.Files.{FileData, mode_of, data_of, size_of, asked_size, save, saved}

-- A file; `none` where Close has set fileData to nil. `listed` is what ReadDirNames of the file has
-- returned, which its run-once record keeps.
pub record Handle (S : Type 0) : Type 0 where
  pub file_data : Option (FileData S)
  pub listed : Option (Result (List Text))
  pub offset : ℤ
  pub flag : ℕ

module _ {S : Type 0} (store : Store S) where
  -- A method of an open handle: a nil fileData is a panic.
  abbrev pub with_file : {A : Type 0} → Handle S → (FileData S → Outcome A) → Outcome A
  with_file f run = elim f.file_data [ none ↦ panics | some d ↦ run d ]

  abbrev pub keep : Handle S → FileData S → Handle S
  keep f d = record f { file_data = some d }

  -- file.Close
  unfoldable pub close : Handle S → Result (Unit {0}) × Handle S
  close f = elim f.file_data [
    | none ↦ (err (sentinel err_closed), f)
    | some d ↦ (ok tt, record f { file_data = none })
  ]

  -- file.Seek: 0, 1 and 2 are from the start, the offset and the end.
  unfoldable pub seek_from : ℕ → ℤ → ℤ → Outcome ℕ → Outcome (Option ℤ)
  seek_from zero offset at size = returns (some offset)
  seek_from (suc zero) offset at size = returns (some (add64 at offset))
  seek_from (suc (suc zero)) offset at size = size >>= λ n. returns (some (add64 (pos n) offset))
  seek_from (suc (suc (suc whence))) offset at size = returns none

  -- The end of Seek: a whence that is none, or a negative offset, is refused.
  unfoldable pub seek_to : Error → Handle S → Option ℤ → Result ℤ × Handle S
  seek_to failed f none = (err failed, f)
  seek_to failed f (some at) =
      if ltb_ℤ at (pos 0) then (err failed, f) else (ok at, record f { offset = at })

  unfoldable pub seek : ℤ → ℕ → Handle S → S → Outcome (Result ℤ × Handle S)
  seek offset whence f s = with_file f (λ d.
      seek_from whence offset f.offset (asked_size store d s) >>= λ to.
      returns (seek_to (path_error "seek" d.path (sentinel err_invalid)) f to))

  -- What ReadBlobAt returns: a blob or nil, a count, and an error or nil.
  viewed_blob :
      ℤ → ℕ → Handle S → Result ℕ × S → Outcome ((Option ℕ × ℕ × Option Error) × Handle S × S)
  viewed_blob off size f (err e, s) = returns ((none, 0, some e), f, s)
  viewed_blob off size f (ok b, s) =
      let n = store.blob_length s b in
      let at_end =
        not (ltb_ℤ (add64 off (pos n)) (pos size)) && not (ltb_ℤ (pos size) (add64 off (pos n))) in
      returns ((some b, n, if at_end then some (sentinel eof) else none), f, s)

  -- file.ReadBlobAt
  unfoldable pub read_blob_at :
      ℕ → ℤ → Handle S → S → Outcome ((Option ℕ × ℕ × Option Error) × Handle S × S)
  unfolding viewed_blob asked_size data_of
  read_blob_at length off f s = with_file f (λ d. asked_size store d s >>= λ size.
      let wanted = add64 off (pos length) in
      let end = if ltb_ℤ (pos size) wanted then pos size else wanted in
      let (r, d', s1) = data_of store d s in
      if not (ltb_ℤ off (pos size))
      then returns ((none, 0, some (sentinel eof)), f, s)
      else elim r [
        | err e ↦ returns ((none, 0, some e), keep f d', s1)
        | ok blob ↦ store.blob_view blob off end s1 >>= viewed_blob off size (keep f d')
      ])

  -- file.ReadAt: the bytes that are copied into the buffer.
  unfoldable pub read_at : ℕ → ℤ → Handle S → S → Outcome ((Text × ℕ × Option Error) × Handle S × S)
  unfolding read_blob_at
  read_at length off f s = read_blob_at length off f s >>= λ ((b, n, e), f1, s1). elim b [
    | none ↦ returns (([], n, e), f1, s1)
    | some blob ↦ store.blob_bytes blob s1 >>= λ (bytes, s2). returns ((bytes, n, e), f1, s2)
  ]

  -- f.offset += int64(n)
  abbrev pub moved : ℕ → Handle S → Handle S
  moved n f = record f { offset = add64 f.offset (pos n) }

  -- file.Read
  unfoldable pub read : ℕ → Handle S → S → Outcome ((Text × ℕ × Option Error) × Handle S × S)
  unfolding read_at
  read length f s = read_at length f.offset f s >>= λ ((bytes, n, e), f1, s1).
      returns ((bytes, n, e), moved n f1, s1)

  -- updateModTime
  abbrev touched : FileData S → S → FileData S
  touched d s = record d { mod_time_override = store.now s }

  -- The end of writeBlobAt, on the result of Set.
  written_blob :
      String → Handle S → FileData S → Result ℕ × S → Outcome ((ℕ × Option Error) × Handle S × S)
  unfolding save
  written_blob op f d (err e, s) = returns ((0, some (path_error op d.path e)), keep f d, s)
  written_blob op f d (ok n, s) =
      let d' = if n == 0 then d else touched d s in
      save store d' s >>= λ (r, s1).
      returns ((n, elim r [ ok _ ↦ none | err e ↦ some e ]), keep f d', s1)

  -- file.writeBlobAt of an open file, past the flag FlagAppend.
  write_from :
      String → ℕ → ℤ → Handle S → FileData S → S → Outcome ((ℕ × Option Error) × Handle S × S)
  unfolding size_of asked_size data_of written_blob
  write_from op p off f d s = asked_size store d s >>= λ size.
      let end = add64 off (pos (store.blob_length s p)) in
      let (r, d1, s1) = data_of store d s in
      elim r [
        | err e ↦ returns ((0, some (path_error op d.path e)), keep f d1, s1)
        | ok blob ↦
            (if ltb_ℤ (pos size) end
              then store.blob_grow blob (sub64 end (pos (size_of store d1 s1))) s1
              else returns (ok tt, s1))
            >>= λ (grown, s2). elim grown [
              | err e ↦ returns ((0, some (path_error op d.path e)), keep f d1, s2)
              | ok _ ↦ store.blob_set blob p off s2 >>= written_blob op f d1
            ]
      ]

  unfoldable pub write_blob_at :
      String → ℕ → ℤ → Handle S → S → Outcome ((ℕ × Option Error) × Handle S × S)
  unfolding write_from asked_size is_append
  write_blob_at op p off f s = with_file f (λ d.
      if is_append f.flag
      then (asked_size store d s >>= λ size. write_from op p (pos size) f d s)
      else write_from op p off f d s)

  -- file.Write
  unfoldable pub write : Text → Handle S → S → Outcome ((ℕ × Option Error) × Handle S × S)
  unfolding write_blob_at
  write buf f s =
      let (p, s1) = store.blob_of buf s in
      write_blob_at "write" p f.offset f s1 >>= λ ((n, e), f1, s2). returns ((n, e), moved n f1, s2)

  -- file.WriteAt
  unfoldable pub write_at : Text → ℤ → Handle S → S → Outcome ((ℕ × Option Error) × Handle S × S)
  unfolding write_blob_at
  write_at buf off f s = let (p, s1) = store.blob_of buf s in write_blob_at "writeat" p off f s1

  -- The end of Truncate, on the result of Grow or Truncate of the blob.
  resized :
      Handle S → FileData S → Result (Unit {0}) × S → Outcome (Result (Unit {0}) × Handle S × S)
  unfolding save
  resized f d (err e, s) = returns (err (path_error "truncate" d.path e), keep f d, s)
  resized f d (ok _, s) =
      let d' = touched d s in save store d' s >>= λ (r, s1). returns (r, keep f d', s1)

  -- file.Truncate
  unfoldable pub truncate_handle : ℤ → Handle S → S → Outcome (Result (Unit {0}) × Handle S × S)
  unfolding asked_size data_of resized is_dir
  truncate_handle size f s = with_file f (λ d.
      if is_dir (mode_of store d)
      then returns (err (path_error "truncate" d.path (sentinel err_is_dir)), f, s)
      else asked_size store d s >>= λ n.
          let length = pos n in
          let (r, d1, s1) = data_of store d s in
          if ltb_ℤ size (pos 0)
          then returns (err (path_error "truncate" d.path (sentinel err_invalid)), f, s)
          else if not (ltb_ℤ size length) && not (ltb_ℤ length size)
          then returns (ok tt, f, s)
          else elim r [
            | err e ↦ returns (err (path_error "truncate" d.path e), keep f d1, s1)
            | ok blob ↦
                (if ltb_ℤ length size
                  then store.blob_grow blob (sub64 size length) s1
                  else store.blob_truncate blob size s1)
                >>= resized f d1
          ])

  -- file.Chmod
  unfoldable pub chmod_handle : ℕ → Handle S → S → Outcome (Result (Unit {0}) × Handle S × S)
  unfolding save saved chmod_mode
  chmod_handle mode f s = with_file f (λ d.
      let d' = record d { mode_override = some (chmod_mode (mode_of store d) mode) } in
      save store d' s >>= λ (r, s1). returns (r, keep f (saved store d' s), s1))
