-- ===== src/Cache/Dir.antt =====
-- cache/dir.go: a directory of the cache, which lists the source.
use hackpadfs.Base.{
  ◌-◌, Text, ◌&&◌, ◌||◌, not, Option, none, some, List, [], ltb, if◌then◌else◌, length, take, drop,
}
use hackpadfs.Base.Int.{ℤ, pos, ltb_ℤ, add64}
use hackpadfs.Errors.{Error, sentinel, path_error, err_is_dir, eof, Result, ok, err}
use hackpadfs.Fs.{FileInfo, DirEntry, Action}
use hackpadfs.Fs.Trees.{read_dir}
use hackpadfs.Cache.{ReadOnlyFs, Cached, stat}

-- dir. ReadDir of a negative n leaves the offset negative, and the next page is then a slice that is
-- out of range: a panic.
pub record Dir : Type 0 where
  pub name : Text
  pub offset : ℤ

abbrev pub new_dir : Text → Dir
new_dir name = record { name = name; offset = pos 0 }

-- Read
unfoldable read : Dir → Text × Option Error
read d = ([], some (path_error "read" d.name (sentinel err_is_dir)))

-- Close
unfoldable close : Result (Unit {0})
close = ok tt

-- entries[start:end], where the end is in range.
abbrev cut : ℤ → ℤ → List DirEntry → Option (List DirEntry)
cut (pos start) (pos end) entries =
    if ltb end start then none else some (take (end - start) (drop start entries))
cut _ _ entries = none

abbrev moved_page : ℤ → Option (List DirEntry) → Option (Result (List DirEntry) × ℤ)
moved_page end none = none
moved_page end (some entries) = some (ok entries, end)

-- ReadDir of the entries that the source lists: the entries or io.EOF, and the new offset.
-- `none` where the bounds of the slice are out of range, which is a panic.
unfoldable pub page : ℤ → ℤ → List DirEntry → Option (Result (List DirEntry) × ℤ)
page n offset entries =
    let len = pos (length entries) in
    let end = add64 offset n in
    if ltb_ℤ (pos 0) n && not (ltb_ℤ offset len) && not (ltb_ℤ len offset)
    then some (err (sentinel eof), offset)
    else if not (ltb_ℤ (pos 0) n) || ltb_ℤ len end
    then some (ok entries, n)
    else moved_page end (cut offset end entries)

abbrev with_offset :
    {W : Type 0}
    → Dir
    → W
    → Option (Result (List DirEntry) × ℤ)
    → Option (Result (List DirEntry) × Dir × W)
with_offset d w none = none
with_offset d w (some (r, offset)) = some (r, record d { offset = offset }, w)

-- ReadDir after the source has been listed.
abbrev pub listed_page :
    {W : Type 0}
    → ℤ
    → Dir
    → (List DirEntry × Option Error) × W
    → Option (Result (List DirEntry) × Dir × W)
listed_page n d ((entries, some e), w) = some (err e, d, w)
listed_page n d ((entries, none), w) = with_offset d w (page n d.offset entries)

module _ {W : Type 0} (fs : ReadOnlyFs W) where
  -- Stat, through hackpadfs.Stat, which calls the method of the ReadOnlyFS.
  unfoldable stat_dir : Dir → Action (Cached W) FileInfo
  unfolding stat
  stat_dir d = stat fs d.name

  -- ReadDir
  unfoldable pub read_dir_page : ℤ → Dir → W → Option (Result (List DirEntry) × Dir × W)
  read_dir_page n d w = listed_page n d (read_dir fs.source_fs d.name w)
