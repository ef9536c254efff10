-- ===== src/Mem/FileTests.antt =====
-- OpenFile and the methods of files on the store of Mem/Samples.
use hackpadfs.Base.{ℕ, ◌+◌, true, ◌≡◌, refl, sym, ◌∙◌, subst}
use hackpadfs.Errors.{err, sentinel, path_error, err_is_dir}
use hackpadfs.FilePath.{valid_path}
use hackpadfs.Modes.{is_dir, dir_mode-is_dir, is_create, is_truncate, flag_create, flag_read_write}
use hackpadfs.Blob.{returns}
use hackpadfs.KeyValue.Open.{open_file}
use hackpadfs.Mem.{Entry, load, put, mem_store}
use hackpadfs.Mem.Calls.{idle}
use hackpadfs.Mem.Keeps.{IsKept}
use hackpadfs.Mem.Tree.{some-injective}
use hackpadfs.Mem.Opens.{open_spec, open_file-refines, open_file-IsKept}
use hackpadfs.Mem.Samples.{usr, usr_lib, dir_entry, files, files-IsTree, hello_heap, usr_lib-found}

abbrev create_flags : ℕ
create_flags = flag_read_write + flag_create

open_file-refines_example :
    open_file mem_store usr_lib create_flags 0o644 (idle files hello_heap 9)
    ≡ returns (open_spec files hello_heap 9 usr_lib create_flags 0o644)
unfolding is_truncate
open_file-refines_example = open_file-refines files hello_heap 9 usr_lib create_flags 0o644 refl

-- A directory cannot be opened with FlagCreate, and nothing changes.
open_spec_of_dir :
    open_spec files hello_heap 9 usr create_flags 0
    ≡ (err (path_error "open" usr (sentinel err_is_dir)), idle files hello_heap 9)
unfolding valid_path load put is_dir is_create
open_spec_of_dir = refl

open_file-IsKept_example : IsKept (open_spec files hello_heap 9 usr_lib create_flags 0o644)
unfolding is_truncate
open_file-IsKept_example =
    open_file-IsKept files hello_heap 9 usr_lib create_flags 0o644
      (open_spec files hello_heap 9 usr_lib create_flags 0o644) refl files-IsTree
      (λ d at.
        subst (λ (e : Entry). is_dir e.mode ≡ true)
          (some-injective dir_entry d (sym usr_lib-found ∙ at)) (dir_mode-is_dir 0o755))
      (open_file-refines files hello_heap 9 usr_lib create_flags 0o644 refl)
