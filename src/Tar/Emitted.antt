-- ===== src/Tar/Emitted.antt =====
-- Which files of the archive are unpacked when readErr of tar/fs.go ends without an error.
use hackpadfs.Base.{
  Text, text_eq, Bool, true, false, not, ◌&&◌, ◌||◌, Option, none, some, List, [], ◌∷◌,
}
use hackpadfs.Errors.{Error}
use hackpadfs.Modes.{is_dir}
use hackpadfs.Tar.Read.{
  Archive, finish, broken, entry, resolve_path, BaseFs, Task, make_dir, write_small, send_error,
  call_done, Phase, reading, draining, returned, finished, Reader,
}

-- Whether the list has the path, the archive has a file at the path, and there is an error.
abbrev pub has_path : Text → List Text → Bool
has_path p [] = false
has_path p (q ∷ ps) = text_eq q p || has_path p ps

abbrev has_file : Text → Archive → Bool
has_file p finish = false
has_file p (broken e) = false
has_file p (entry name info contents failure rest) =
    (not (is_dir info.mode) && text_eq (resolve_path name) p) || has_file p rest

abbrev pub is_some : Option Error → Bool
is_some none = false
is_some (some e) = true

-- A goroutine that has still to write the file, or to report an error.
abbrev is_owed : Text → Task → Bool
is_owed p (make_dir path mode) = false
is_owed p (write_small path info initial) = text_eq path p
is_owed p (send_error e) = true
is_owed p call_done = false

abbrev has_owed : Text → List Task → Bool
has_owed p [] = false
has_owed p (t ∷ ts) = is_owed p t || has_owed p ts

-- The file is still to be read, or readErr has returned an error.
abbrev is_ahead : Text → Phase → Bool
is_ahead p (reading archive) = has_file p archive
is_ahead p draining = false
is_ahead p (returned e) = is_some e
is_ahead p (finished e) = is_some e

module _ {W : Type 0} (base : BaseFs W) (p : Text) where
  -- Nothing is forgotten: the file is written, or something has still to be done for it.
  abbrev kept : Reader W → Bool
  kept r = has_path p r.emitted || has_owed p r.tasks || is_some r.errors || is_ahead p r.phase
