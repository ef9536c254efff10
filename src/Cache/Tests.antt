-- ===== src/Cache/Tests.antt =====
-- A cache over a source with one directory of three entries, and the theorems there.
use hackpadfs.Base.{
  ℕ, Option, length, drop, leb, if◌then◌else◌, ◌*◌, arith, Text, codes, none, some, List, [], ◌∷◌,
  ◌++◌, ◌≡◌, refl, take,
}
use hackpadfs.Base.Int.{pos}
use hackpadfs.Errors.{Error, Result, ok, err, sentinel, path_error, eof, err_not_exist}
use hackpadfs.Fs.{FileInfo, DirEntry, File, Ops, Fs, plain}
use hackpadfs.Fs.Dispatch.{open_name}
use hackpadfs.Fs.Trees.{read_dir, mkdir_all}
use hackpadfs.Fs.Samples.{World, all_dirs_ops, dir_file, dir_info}
use hackpadfs.Cache.{ReadOnlyFs, Cached, stat}
use hackpadfs.Cache.Dir.{new_dir}
use hackpadfs.Cache.Pages.{read_pages, dir_at, read_pages-take, read_pages_again}

abbrev entry : Text → DirEntry
entry name = record { name = name; info = dir_info name }

abbrev three : List DirEntry
three = entry (codes "a") ∷ entry (codes "b") ∷ entry (codes "c") ∷ []

abbrev source : Fs World
source =
    plain (record (all_dirs_ops (codes "src")) { read_dir = some (λ name w. ((three, none), w)) })

abbrev cache : ReadOnlyFs World
cache = record {
  source_fs = source;
  cache_fs = plain (all_dirs_ops (codes "cache"));
  cache_open_file = λ name flag perm w. (err (sentinel err_not_exist), w);
  retain_data = none;
}

read_pages-take_example :
    read_pages cache 1 (pos 2) (new_dir (codes "d")) tt
    ≡ some (take (1 * 2) three, dir_at (codes "d") (1 * 2), tt)
unfolding read_dir
read_pages-take_example =
    read_pages-take cache (codes "d") tt three refl 2 (omega arith) (omega arith) 1 (omega arith)

-- The second page has one entry left, and gives all three.
read_pages_again_example :
    read_pages cache 2 (pos 2) (new_dir (codes "d")) tt
    ≡ some (take (1 * 2) three ++ three, dir_at (codes "d") 2, tt)
unfolding read_dir
read_pages_again_example =
    read_pages_again cache (codes "d") tt three refl 2 (omega arith) (omega arith) 1 (omega arith)
      (omega arith)

abbrev empty_cache : Cached World
empty_cache = record { cache_info = []; world = tt }

abbrev always : Text → Result FileInfo
always name = ok (dir_info (codes "src"))

-- A source whose every name is the file "xyz", which is read in pieces, and a cache that has no file
-- and makes one. The world is the position in the source and the bytes of the copy.
abbrev Copying : Type 0
Copying = Text × Text

abbrev file_info : FileInfo
file_info = record { name = codes "f"; size = 3; mode = 0; mod_time = 0 }

abbrev from_source : File Copying
from_source = record (dir_file (codes "f")) {
  stat = λ v. (ok file_info, v);
  read = λ n (s, t).
      ((take n s, if leb (length s) n then some (sentinel eof) else none), (drop n s, t));
}

abbrev put : Text → Copying → (ℕ × Option Error) × Copying
put s (r, t) = ((length s, none), (r, t ++ s))

abbrev into_cache : File Copying
into_cache = record (dir_file (codes "f")) { write = some put }

abbrev source_ops : Ops Copying
source_ops = record (all_dirs_ops (codes "src")) { open_name = λ p v. (ok from_source, v) }

abbrev cache_ops : Ops Copying
cache_ops = record (all_dirs_ops (codes "cache")) {
  open_name = λ p v. (err (path_error "open" p (sentinel err_not_exist)), v);
  mkdir_all = some (λ p perm v. (ok tt, v));
}

abbrev copying : ReadOnlyFs Copying
copying = record {
  source_fs = plain source_ops;
  cache_fs = plain cache_ops;
  cache_open_file = λ name flag perm v. (ok into_cache, v);
  retain_data = none;
}

abbrev file_left : Copying
file_left = (codes "xyz", [])
