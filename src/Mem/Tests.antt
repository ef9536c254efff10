-- ===== src/Mem/Tests.antt =====
-- Operations on the store of Mem/Samples.
use hackpadfs.Base.{
  arith, ◌↔◌, ◌++◌, none, text_eq, has_prefix, trim_prefix, codes, some, [], ◌∷◌, ◌≡◌, refl, ap,
  sym, ◌∙◌,
}
use hackpadfs.Errors.{ok, err, sentinel, path_error, err_exist, err_not_empty, err_invalid}
use hackpadfs.FilePath.{dot, valid_path}
use hackpadfs.FilePath.Names.{names}
use hackpadfs.Modes.{is_dir, dir_mode-is_dir}
use hackpadfs.Blob.{returns, blob_len}
use hackpadfs.KeyValue.Fs.{chmod, rename, new_fs, mkdir, remove}
use hackpadfs.Mem.{
  Entry, Mem, file_record, load, put, mem_store, new_store, child_names, child_name, has_slash,
}
use hackpadfs.Mem.Calls.{stored, lookup}
use hackpadfs.Base.Int.{pos, negsuc, add64, wrap64}
use hackpadfs.KeyValue.Files.{get_file, FileData, asked_size}
use hackpadfs.KeyValue.Handle.{seek, seek_from, seek_to}
use hackpadfs.KeyValue.HandleLaws.{open_handle, origin, sought, seek-sought}
use hackpadfs.Mem.Renames.{rename_spec, rename-refines}
use hackpadfs.KeyValue.{Store}
use hackpadfs.KeyValue.SerialLaws.{opened_record, get_file-serial}
use hackpadfs.Mem.ChildNames.{child_name-names}
use hackpadfs.Mem.Spec.{mkdir_spec, remove_spec, chmod_spec, chtimes_spec}
use hackpadfs.Mem.Refines.{mkdir-refines, remove-refines, chmod-refines, chtimes-refines}
use hackpadfs.Mem.Tree.{IsDirAt, some-injective}
use hackpadfs.Mem.Keeps.{IsKept, new_fs-IsKept, mkdir-IsKept, remove-IsKept, chmod-chtimes-IsKept}
use hackpadfs.Mem.Samples.{
  usr, usr_go, usr_lib, dir_entry, file_entry, hello_heap, files, store, usr_lib-found,
  files-IsTree, usr_go-valid, usr_go-there, file-plain, usr-valid,
}

spec_tests :
    (mkdir_spec files hello_heap 9 usr_go 0
      ≡ (err (path_error "mkdir" usr_go (sentinel err_exist)), store))
    × (remove_spec files hello_heap 9 usr
        ≡ (err (path_error "remove" usr (sentinel err_not_empty)), store))
unfolding valid_path load lookup child_names child_name has_prefix trim_prefix has_slash is_dir put
    text_eq
spec_tests = (refl, refl)

run_tests :
    (mkdir mem_store usr_go 0 store
      ≡ returns (err (path_error "mkdir" usr_go (sentinel err_exist)), store))
    × (remove mem_store usr store
        ≡ returns (err (path_error "remove" usr (sentinel err_not_empty)), store))
run_tests = (
  mkdir-refines files hello_heap 9 usr_go 0 ∙ ap (λ x. returns x) spec_tests.0,
  remove-refines files hello_heap 9 usr ∙ ap (λ x. returns x) spec_tests.1,
)

mkdir-refines_example :
    mkdir mem_store usr_lib 0o755 store ≡ returns (mkdir_spec files hello_heap 9 usr_lib 0o755)
mkdir-refines_example = mkdir-refines files hello_heap 9 usr_lib 0o755

remove-refines_example : remove mem_store usr store ≡ returns (remove_spec files hello_heap 9 usr)
remove-refines_example = remove-refines files hello_heap 9 usr

new_fs-IsKept_example :
    (s : Mem) × (new_fs mem_store (new_store 4) ≡ returns (ok tt, s))
    × IsDirAt dot s.records
    × IsKept {A = Unit {0}} (ok tt, s)
new_fs-IsKept_example = new_fs-IsKept 4

mkdir-IsKept_example : IsKept (mkdir_spec files hello_heap 9 usr_lib 0o755)
mkdir-IsKept_example =
    mkdir-IsKept files hello_heap 9 usr_lib 0o755 (mkdir_spec files hello_heap 9 usr_lib 0o755)
      files-IsTree
      (λ d at.
        ap (λ (x : Entry). is_dir x.mode) (some-injective d dir_entry (sym at ∙ usr_lib-found))
        ∙ dir_mode-is_dir 0o755)
      (mkdir-refines files hello_heap 9 usr_lib 0o755)

remove-IsKept_example : IsKept (remove_spec files hello_heap 9 usr)
remove-IsKept_example =
    remove-IsKept files hello_heap 9 usr (remove_spec files hello_heap 9 usr) files-IsTree
      (remove-refines files hello_heap 9 usr)

chmod-chtimes-IsKept_example :
    IsKept (chmod_spec files hello_heap 9 usr_go 0o600)
    × IsKept (chtimes_spec files hello_heap 9 usr_go 8)
chmod-chtimes-IsKept_example =
    chmod-chtimes-IsKept files hello_heap 9 usr_go 0o600 7 8
      (chmod_spec files hello_heap 9 usr_go 0o600) (chtimes_spec files hello_heap 9 usr_go 8)
      files-IsTree (chmod-refines files hello_heap 9 usr_go 0o600)
      (chtimes-refines files hello_heap 9 usr_go 7 8)

abbrev file_data : FileData Mem
file_data = stored usr_go file_entry

-- Offsets from the end: one in front of the last byte, and one in front of the file.
seek_tests :
    (seek mem_store (negsuc 0) 2 (open_handle mem_store file_data (pos 1) 0) store
      ≡ returns (ok (pos 4), open_handle mem_store file_data (pos 4) 0))
    × (seek mem_store (negsuc 5) 2 (open_handle mem_store file_data (pos 1) 0) store
        ≡ returns (
          err (path_error "seek" usr_go (sentinel err_invalid)),
          open_handle mem_store file_data (pos 1) 0,
        ))
unfolding seek seek_from seek_to asked_size blob_len mem_store add64 wrap64 file_record
seek_tests = (refl, refl)

seek-sought_example :
    seek mem_store (negsuc 0) 2 (open_handle mem_store file_data (pos 1) 0) store
    ≡ returns (
        sought mem_store
          (open_handle mem_store file_data (pos 1) 0)
          (path_error "seek" usr_go (sentinel err_invalid))
          (negsuc 0)
          (origin 2 1 5))
unfolding asked_size blob_len mem_store file_record
seek-sought_example =
    seek-sought mem_store file_data 1 0 (negsuc 0) 2 5 store (omega arith) (omega arith)
      (omega arith) refl

chmod-refines_example :
    chmod mem_store usr_go 0o600 store ≡ returns (chmod_spec files hello_heap 9 usr_go 0o600)
chmod-refines_example = chmod-refines files hello_heap 9 usr_go 0o600

rename-refines_example :
    rename mem_store 1 usr_go usr_lib store
    ≡ returns (
        rename_spec files hello_heap 9 usr_go usr_lib file_entry usr_go-valid usr_go-there
          file-plain)
rename-refines_example =
    rename-refines files hello_heap 9 usr_go usr_lib file_entry usr_go-valid usr_go-there file-plain
      0

-- The same store without its transactions.
abbrev serial_store : Store Mem
serial_store = record mem_store { begin = none }

get_file-serial_example : get_file serial_store usr_go store ≡ (
    let (r, s') = serial_store.get usr_go store in
    returns (opened_record serial_store usr_go r, s'))
get_file-serial_example = get_file-serial serial_store usr_go store usr_go-valid refl

child_name-names_example :
    (child_name usr usr_go ≡ some (codes "go")) ↔ (names usr_go ≡ names usr ++ (codes "go" ∷ []))
child_name-names_example = child_name-names usr usr_go (codes "go") usr-valid usr_go-valid
