-- ===== src/Mem/Samples.antt =====
-- A concrete in-memory store: the root, the directory `usr`, and the file `usr/go` in it.
use hackpadfs.Base.{true, false, Text, text_eq, codes, some, List, [], ◌∷◌, ◌≡◌, refl, sym}
use mathlib.Core.Bool.{false≢true}
use hackpadfs.FilePath.{dot, valid_path, elems, join_elems}
use hackpadfs.FilePath.Names.{path_of}
use hackpadfs.FilePath.Parent.{parent}
use hackpadfs.Modes.{is_dir, dir_mode, dir_mode-is_dir}
use hackpadfs.Blob.{Heap}
use hackpadfs.Mem.{Entry, Mem, load, put}
use hackpadfs.Mem.Calls.{idle}
use hackpadfs.Mem.Tree.{IsTree, put-IsTree, some-ne-none}
use hackpadfs.Mem.Keeps.{nothing-IsTree}

abbrev pub usr : Text
usr = codes "usr"

abbrev pub usr_go : Text
usr_go = codes "usr/go"

abbrev pub usr_lib : Text
usr_lib = codes "usr/lib"

abbrev pub dir_entry : Entry
dir_entry = record { contents = 0; mode = dir_mode 0o755; mod_time = 3 }

abbrev pub file_entry : Entry
file_entry = record { contents = 0; mode = 0o644; mod_time = 5 }

abbrev pub hello_heap : Heap
hello_heap = record {
  arrays = codes "hello" ∷ [];
  blobs = record { array = 0; off = 0; len = 5; length_field = 5; mu = 0 } ∷ [];
  mutexes = 1;
}

abbrev pub one : List (Text × Entry)
one = put dot dir_entry []

abbrev pub two : List (Text × Entry)
two = put usr dir_entry one

abbrev pub files : List (Text × Entry)
files = put usr_go file_entry two

abbrev pub store : Mem
store = idle files hello_heap 9

usr-found : load (parent usr) one ≡ some dir_entry
unfolding parent load put path_of elems join_elems
usr-found = refl

usr_go-found : load (parent usr_go) two ≡ some dir_entry
unfolding parent load put path_of elems join_elems
usr_go-found = refl

pub usr_lib-found : load (parent usr_lib) files ≡ some dir_entry
unfolding parent load put path_of elems join_elems
usr_lib-found = refl

one-IsTree : IsTree one
unfolding valid_path text_eq load
one-IsTree =
    put-IsTree [] dot dir_entry nothing-IsTree refl (λ below. absurd (false≢true (sym below)))
      (λ d at. absurd (some-ne-none d (sym at)))

two-IsTree : IsTree two
unfolding valid_path load put
two-IsTree =
    put-IsTree one usr dir_entry one-IsTree refl
      (λ _. (dir_entry, usr-found, dir_mode-is_dir 0o755))
      (λ d at. absurd (some-ne-none d (sym at)))

pub files-IsTree : IsTree files
unfolding valid_path load put
files-IsTree =
    put-IsTree two usr_go file_entry two-IsTree refl
      (λ _. (dir_entry, usr_go-found, dir_mode-is_dir 0o755))
      (λ d at. absurd (some-ne-none d (sym at)))

pub usr_go-valid : valid_path usr_go ≡ true
unfolding valid_path
usr_go-valid = refl

pub usr_go-there : load usr_go files ≡ some file_entry
unfolding load put
usr_go-there = refl

pub file-plain : is_dir file_entry.mode ≡ false
unfolding is_dir
file-plain = refl

pub usr-valid : valid_path usr ≡ true
unfolding valid_path
usr-valid = refl
