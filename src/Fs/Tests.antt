-- ===== src/Fs/Tests.antt =====
-- Sub file systems of a concrete one.
use hackpadfs.Base.{
  [], Text, codes, true, ◌++◌, ◌≡◌, refl, length, arith, ℕ, ◌<◌, Option, none, some, take, drop,
  leb, if◌then◌else◌, Bool-cases, inl, inr,
}
use hackpadfs.Errors.{Result, sentinel, path_error, err_exist, is_error, err, Error, ok, eof}
use hackpadfs.Errors.Strip.{strip_err_path_prefix}
use hackpadfs.FilePath.{dot, valid_path}
use hackpadfs.FilePath.Names.{names}
use hackpadfs.Modes.{is_dir}
use hackpadfs.Fs.{File, Fs, Ops, plain, mounted}
use hackpadfs.Fs.Samples.{World, dir_file, all_dirs_ops}
use hackpadfs.Fs.Dispatch.{closing, open_name, mkdir, stat}
use hackpadfs.Fs.Reads.{read_file}
use hackpadfs.Fs.ReadLaws.{Reads, here, through, read_file-left}
use hackpadfs.Fs.Trees.{make_ancestors, mkdir_all}
use hackpadfs.Fs.TreeLaws.{ancestors_down}
use hackpadfs.Fs.MadeDirs.{Made, then_mkdir, mkdir_all-names}
use hackpadfs.Fs.Sub.{sub_path, sub_fs}
use hackpadfs.Fs.SubLaws.{sub_path-names}

abbrev usr : Text
usr = codes "usr"

abbrev bin_go : Text
bin_go = codes "bin/go"

sub_mkdir :
    mkdir (sub_fs (plain (all_dirs_ops dot)) usr) bin_go 0 tt
    ≡ (err (path_error "mkdir" bin_go (sentinel err_exist)), tt)
unfolding mkdir sub_fs sub_path strip_err_path_prefix
sub_mkdir = refl

usr-valid : valid_path usr ≡ true
unfolding valid_path
usr-valid = refl

bin_go-valid : valid_path bin_go ≡ true
unfolding valid_path
bin_go-valid = refl

sub_path-names_example :
    (valid_path (sub_path usr bin_go) ≡ true)
    × (names (sub_path usr bin_go) ≡ names usr ++ names bin_go)
sub_path-names_example = sub_path-names usr bin_go usr-valid bin_go-valid

mkdir_all_tests :
    mkdir_all (plain (all_dirs_ops dot)) bin_go 0 tt
    ≡ (err (path_error "mkdir" bin_go (sentinel err_exist)), tt)
unfolding mkdir_all make_ancestors valid_path mkdir stat closing is_error is_dir
mkdir_all_tests = refl

mkdir_all-names_example :
    (x : Result (Unit {0}) × World) × Made
      (all_dirs_ops dot)
      0
      (ancestors_down [] (names bin_go))
      tt
      x
    × (mkdir_all (plain (all_dirs_ops dot)) bin_go 0 tt ≡ then_mkdir (all_dirs_ops dot) bin_go 0 x)
mkdir_all-names_example = mkdir_all-names (all_dirs_ops dot) bin_go 0 tt bin_go-valid refl

-- A file whose world is the bytes that are left.
abbrev read_text : ℕ → Text → (Text × Option Error) × Text
read_text n w = ((take n w, if leb (length w) n then some (sentinel eof) else none), drop n w)

abbrev text_file : File Text
text_file = record (dir_file usr) { read = read_text }

abbrev text_ops : Ops Text
text_ops = record (all_dirs_ops usr) { open_name = λ p w. (ok text_file, w) }

text_file-Reads : (n : ℕ) (w : Text) → 0 < n → Reads text_file (λ t. t) n w
text_file-Reads n w some_room = elim (Bool-cases (leb (length w) n)) [
  | inl last ↦ record {
    count = n;
    ended = some (sentinel eof);
    after = drop n w;
    reads = rw last;
    rest = refl;
    goes_on = inr (refl, ground arith);
  }
  | inr more ↦ record {
    count = n;
    ended = none;
    after = drop n w;
    reads = rw more;
    rest = refl;
    goes_on = inl (refl, some_room, ground arith);
  }
]

-- A MountFS that has the file system mounted at every name.
abbrev mount_of_text : Fs Text
mount_of_text = mounted text_ops (λ w name. plain text_ops) (λ w name. bin_go)

read_file-left_example :
    (w' : Text) × (read_file (λ size seen. 2) 7 mount_of_text usr bin_go
      ≡ some ((bin_go, none), w'))
read_file-left_example =
    read_file-left (λ size seen. 2) text_file (λ t. t) (λ size seen. omega arith) text_file-Reads 7
      mount_of_text usr bin_go bin_go
      (through text_ops (λ w name. plain text_ops) (λ w name. bin_go) usr refl
        (here text_ops bin_go refl refl))
      refl (omega arith)
