-- ===== src/Errors.antt =====
-- The errors of the file systems: errors.go, internal/fserrors/errors.go and mount.go.
pub mod Strip
use hackpadfs.Base.{ℕ, Text, String, Bool, true, false, ◌||◌, ◌==◌}

-- The variables of errors.go, io.EOF, io.ErrUnexpectedEOF and context.Canceled.
pub data Sentinel : Type 0 where
  err_invalid err_permission err_exist err_not_exist err_closed : Sentinel
  err_is_dir err_not_dir err_not_empty err_not_implemented eof unexpected_eof canceled : Sentinel

-- An error value. `text_error` is one made by errors.New or fmt.Errorf, `errno` is a code of the
-- Windows system, and `mapped_error` is the mappedErr of os/errors_windows.go.
pub data Error : Type 0 where
  sentinel : Sentinel → Error
  path_error : String → Text → Error → Error
  link_error : String → Text → Text → Error → Error
  message_error : Error → String → Error
  text_error : String → Error
  errno : ℕ → Error
  mapped_error : Sentinel → Error → Error

pub data Result {ℓ} (A : Type ℓ) : Type ℓ where
  ok : A → Result A
  err : Error → Result A

sentinel_code : Sentinel → Sentinel → Bool
sentinel_code err_invalid err_invalid = true
sentinel_code err_permission err_permission = true
sentinel_code err_exist err_exist = true
sentinel_code err_not_exist err_not_exist = true
sentinel_code err_closed err_closed = true
sentinel_code err_is_dir err_is_dir = true
sentinel_code err_not_dir err_not_dir = true
sentinel_code err_not_empty err_not_empty = true
-- The method syscall.Errno.Is: ENOTEMPTY is fs.ErrExist too.
sentinel_code err_not_empty err_exist = true
sentinel_code err_not_implemented err_not_implemented = true
sentinel_code eof eof = true
sentinel_code unexpected_eof unexpected_eof = true
sentinel_code canceled canceled = true
sentinel_code _ _ = false

-- The method syscall.Errno.Is on Windows.
errno_code : ℕ → Sentinel → Bool
errno_code n err_permission = n == 5
errno_code n err_exist = n == 80 || n == 145 || n == 183
errno_code n err_not_exist = n == 2 || n == 3
errno_code n _ = false

-- errors.Is(err, target) for a target of errors.go: the chain of Unwrap methods is followed.
unfoldable pub is_error : Error → Sentinel → Bool
unfolding sentinel_code errno_code
is_error (sentinel s) target = sentinel_code s target
is_error (path_error op path e) target = is_error e target
is_error (link_error op old new e) target = is_error e target
is_error (message_error e message) target = is_error e target
is_error (text_error message) target = false
is_error (errno n) target = errno_code n target
is_error (mapped_error s e) target = sentinel_code target s || is_error e target

-- fserrors.WithMessage, on a result.
unfoldable with_message : {A : Type 0} → Result A → String → Result A
with_message (ok a) message = ok a
with_message (err e) message = err (message_error e message)

infixl 5 ◌>>=◌ ◌>>◌
abbrev pub ◌>>=◌ : {A B : Type 0} → Result A → (A → Result B) → Result B
ok a >>= f = f a
err e >>= f = err e

abbrev pub ◌>>◌ : {B : Type 0} → Result (Unit {0}) → Result B → Result B
m >> k = m >>= λ _. k
