-- ===== src/Tar/Read.antt =====
-- tar/fs.go: the unpacking of an archive into a file system, and Open. archive/tar is the list of
-- what it gives, the background goroutines are tasks, and a task goes on in up to three
-- steps: its work, its send of an error, and Done of the WaitGroup.
use hackpadfs.Base.{
  ℕ, suc, ◌*◌, Text, text_eq, trim_prefix, Bool, false, ◌||◌, Option, none, some, List, [], ◌∷◌,
  ltb, if◌then◌else◌, length, take, drop, String,
}
use hackpadfs.Errors.{
  Error, sentinel, unexpected_eof, message_error, eof, err_not_implemented, Result, ok, err,
}
use hackpadfs.FilePath.{slash, or_dot, clean}
use hackpadfs.Fs.{FileInfo, Action, File, Fs}
use hackpadfs.Fs.Copy.{copy}

-- What is left of an archive: its end, an error of Next, or a header with its contents and the
-- error that reading them ends in, if it does.
pub data Archive : Type 0 where
  finish : Archive
  broken : Error → Archive
  entry : Text → FileInfo → Text → Option Error → Archive → Archive

-- resolvePath
unfoldable pub resolve_path : Text → Text
resolve_path p = or_dot (trim_prefix (clean p) (slash ∷ []))

-- io.ErrUnexpectedEOF becomes io.EOF, also where the archive itself reports it.
abbrev full_error : Option Error → Option Error
full_error none = some (sentinel eof)
full_error (some (sentinel unexpected_eof)) = some (sentinel eof)
full_error (some e) = some e

-- fullReader.Read into a buffer of `size` bytes: what is read, and the error, which is io.EOF where
-- the contents end first.
unfoldable pub read_full : ℕ → Text → Option Error → Text × Option Error
read_full size contents failure =
    if ltb (length contents) size
    then (contents, full_error failure)
    else (take size contents, none)

-- The same as a reader whose state stands beside the world.
unfoldable pub read_rest :
    {W : Type 0} → Option Error → ℕ → W × Text → (Text × Option Error) × (W × Text)
read_rest failure size (w, contents) = (read_full size contents failure, (w, drop size contents))

abbrev pub small_buffer : ℕ
small_buffer = 150 * 1024

abbrev pub big_buffer : ℕ
big_buffer = 4 * 1024 * 1024

-- baseFS: OpenFile, Chmod and Mkdir, on top of Open.
pub record BaseFs (W : Type 0) : Type 0 where
  pub fs : Fs W
  pub open_file : Text → ℕ → ℕ → Action W (File W)
  pub chmod : Text → ℕ → Action W (Unit {0})
  pub mkdir : Text → ℕ → Action W (Unit {0})

-- A background goroutine: a directory to make, a small file with the bytes that were read, an error
-- to send to the channel errs, or Done of the WaitGroup.
pub data Task : Type 0 where
  make_dir : Text → ℕ → Task
  write_small : Text → FileInfo → Text → Task
  send_error : Error → Task
  call_done : Task

-- Where read is: in the loop of readErr, at its last select, past its return, and at its own end.
pub data Phase : Type 0 where
  reading : Archive → Phase
  draining : Phase
  returned : Option Error → Phase
  finished : Option Error → Phase

-- ReaderFS and the variables of readErr: `errors` is the channel errs, which has room for one error,
-- and `waiting` the counter of the WaitGroup.
pub record Reader (W : Type 0) : Type 0 where
  pub world : W
  pub phase : Phase
  pub tasks : List Task
  pub waiting : ℕ
  pub errors : Option Error
  pub mkdir_cache : List Text
  pub emitted : List Text
  pub ended : Bool

unfoldable pub is_cached : Text → List Text → Bool
unfolding text_eq
is_cached path [] = false
is_cached path (p ∷ ps) = text_eq p path || is_cached path ps

module _ {W : Type 0} (base : BaseFs W) where
  with_text : {A : Type 0} → String → Result A × W → Result A × W
  with_text message (ok a, w) = (ok a, w)
  with_text message (err e, w) = (err (message_error e message), w)

  -- io.CopyBuffer of what is left, through the big buffer. A round with an error or fewer bytes
  -- than the buffer ends it, so that there is fuel enough.
  unfoldable pub copy_rest :
      (Text → W → (ℕ × Option Error) × W)
      → Text
      → Option Error
      → W
      → Option (Result (Unit {0}) × (W × Text))
  copy_rest write rest failure w =
      copy (λ s (w, t). let (r, w') = write s w in (r, (w', t))) (suc (suc (length rest)))
        big_buffer (read_rest failure) (w, rest)

  -- writeFile after OpenFile; `none` for the contents that are left is a nil reader.
  unfoldable pub write_contents :
      File W → Text → Option (Text × Option Error) → W → Option (Result (Unit {0}) × W)
  unfolding with_text
  write_contents f initial left w = elim f.write [
    | none ↦ some (err (sentinel err_not_implemented), w)
    | some write ↦
        let ((n, failed), w1) = write initial w in
        elim failed [
          | some e ↦ some (err (message_error e "write: copying file"), w1)
          | none ↦ elim left [
            | none ↦ some (ok tt, w1)
            | some (rest, failure) ↦ elim (copy_rest write rest failure w1) [
              | none ↦ none
              | some (r, (w2, t)) ↦ some (with_text "copybuf: copying file" (r, w2))
            ]
          ]
        ]
  ]
