-- ===== src/KeyValue/Listing.antt =====
-- ReadDir of a file of keyvalue/file.go, and its entries.
use hackpadfs.Base.{
  ℕ, ◌-◌, Text, Option, none, some, List, [], ◌∷◌, ltb, if◌then◌else◌, not, length, take, drop,
}
use hackpadfs.Base.Int.{ℤ, pos, ltb_ℤ, add64}
use hackpadfs.Errors.{path_error, Result, ok, err}
use hackpadfs.FilePath.{path_join}
use hackpadfs.Fs.{DirEntry}
use hackpadfs.Blob.{Outcome, returns, panics, blocks}
use hackpadfs.KeyValue.{Store}
use hackpadfs.KeyValue.Call.{Call, pure, ◌>>=◌}
use hackpadfs.KeyValue.Files.{FileData}
use hackpadfs.KeyValue.Fs.{stat}
use hackpadfs.KeyValue.Handle.{Handle, with_file}

module _ {S : Type 0} (store : Store S) where
  -- runOnceFileRecord.ReadDirNames of an open file.
  unfoldable pub dir_names_of : Handle S → FileData S → S → Result (List Text)
  dir_names_of f d s = elim f.listed [ some names ↦ names | none ↦ d.inner.dir_names s ]

  -- newDirEntry
  unfoldable pub new_dir_entry : Text → Text → Call S DirEntry
  new_dir_entry base name s = elim (stat store (path_join (base ∷ name ∷ [])) s) [
    | returns (ok info, s') ↦ returns (ok (record { name = name; info = info }), s')
    | returns (err e, s') ↦ returns (err e, s')
    | panics ↦ panics
    | blocks ↦ blocks
  ]

  -- The loop of ReadDir.
  unfoldable pub entries_of : Text → List Text → Call S (List DirEntry)
  entries_of base [] = pure []
  entries_of base (name ∷ names) = new_dir_entry base name >>= λ entry.
      entries_of base names >>= λ entries. pure (entry ∷ entries)

  -- The bounds of dirNames[start:end].
  unfoldable pub bounds : ℤ → ℤ → ℕ → ℤ × ℤ
  bounds n offset count =
      let end = add64 offset n in
      if not (ltb_ℤ (pos 0) n)
      then (pos 0, pos count)
      else if ltb_ℤ (pos count) end
      then (offset, pos count)
      else (offset, end)

  -- xs[start:end], which panics where the bounds are not in order; `end` is at most the length.
  unfoldable pub slice_of : ℤ × ℤ → List Text → Option (List Text)
  slice_of (pos start, pos end) names =
      if ltb end start then none else some (take (end - start) (drop start names))
  slice_of (_, _) names = none

  abbrev span : ℤ × ℤ → ℕ
  span (pos start, pos end) = end - start
  span (_, _) = 0

  -- The end of ReadDir: the offset moves only where every entry was made.
  unfoldable pub listed_entries :
      Handle S
      → ℕ
      → Outcome (Result (List DirEntry) × S)
      → Outcome (Result (List DirEntry) × Handle S × S)
  listed_entries f moved (returns (ok entries, s)) =
      returns (ok entries, record f { offset = add64 f.offset (pos moved) }, s)
  listed_entries f moved (returns (err e, s)) = returns (err e, f, s)
  listed_entries f moved panics = panics
  listed_entries f moved blocks = blocks

  -- ReadDir with the names at hand.
  unfoldable pub read_names :
      ℤ
      → Handle S
      → FileData S
      → Result (List Text)
      → S
      → Outcome (Result (List DirEntry) × Handle S × S)
  read_names n f d (err e) s = returns (err (path_error "readdir" d.path e), f, s)
  read_names n f d (ok names) s =
      let b = bounds n f.offset (length names) in
      elim (slice_of b names) [
        | none ↦ panics
        | some part ↦ listed_entries f (span b) (entries_of d.path part s)
      ]

  -- file.ReadDir
  unfoldable pub read_dir : ℤ → Handle S → S → Outcome (Result (List DirEntry) × Handle S × S)
  read_dir n f s = with_file store f (λ d.
      let names = dir_names_of f d s in read_names n (record f { listed = some names }) d names s)
