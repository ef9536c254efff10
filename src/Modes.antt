-- ===== src/Modes.antt =====
-- The flags and the mode bits of file.go. A flag set and a FileMode are numbers; the flags have
-- the values of package syscall on Linux.
mod Tests
use hackpadfs.Base.{ℕ, ◌+◌, ◌*◌, ◌-◌, ◌/◌, ◌%◌, ◌^◌, Bool, true, ◌&&◌, ◌==◌, ◌≡◌, ap, arith}

-- The bit of weight 2^k is set.
unfoldable pub has_bit : ℕ → ℕ → Bool
has_bit k n = n / 2 ^ k % 2 == 1

abbrev pub flag_read_only : ℕ
flag_read_only = 0

abbrev pub flag_write_only : ℕ
flag_write_only = 0x1

abbrev pub flag_read_write : ℕ
flag_read_write = 0x2

abbrev pub flag_create : ℕ
flag_create = 0x40

abbrev flag_exclusive : ℕ
flag_exclusive = 0x80

abbrev pub flag_truncate : ℕ
flag_truncate = 0x200

abbrev flag_append : ℕ
flag_append = 0x400

-- flag&FlagWriteOnly != 0, and so on.
unfoldable pub is_write_only : ℕ → Bool
unfolding has_bit
is_write_only flag = has_bit 0 flag

unfoldable pub is_read_write : ℕ → Bool
unfolding has_bit
is_read_write flag = has_bit 1 flag

unfoldable pub is_create : ℕ → Bool
unfolding has_bit
is_create flag = has_bit 6 flag

unfoldable pub is_truncate : ℕ → Bool
unfolding has_bit
is_truncate flag = has_bit 9 flag

unfoldable pub is_append : ℕ → Bool
unfolding has_bit
is_append flag = has_bit 10 flag

abbrev pub mode_dir : ℕ
mode_dir = 2 ^ 31

abbrev mode_perm : ℕ
mode_perm = 0o777

-- FileMode.IsDir
unfoldable pub is_dir : ℕ → Bool
unfolding has_bit
is_dir mode = has_bit 31 mode

-- mode & ModePerm
abbrev pub perm_of : ℕ → ℕ
perm_of mode = mode % 512

-- ModeDir | (perm & ModePerm)
abbrev pub dir_mode : ℕ → ℕ
dir_mode perm = mode_dir + perm_of perm

-- FileMode.IsRegular: no bit of ModeType is set (directory, symlink, device, named pipe, socket,
-- character device, irregular: the bits 31, 27, 26, 25, 24, 21 and 19).
unfoldable pub is_regular : ℕ → Bool
is_regular mode =
    mode / 2 ^ 31 % 2 == 0
    && mode / 2 ^ 24 % 16 == 0
    && mode / 2 ^ 21 % 2 == 0
    && mode / 2 ^ 19 % 2 == 0

-- mode & chmodBits of keyvalue/fs.go: ModePerm, ModeSticky, ModeSetgid and ModeSetuid, which are
-- the bits 0 to 8, 20, 22 and 23.
abbrev chmod_bits : ℕ → ℕ
chmod_bits mode = mode % 512 + mode / 2 ^ 20 % 2 * 2 ^ 20 + mode / 2 ^ 22 % 4 * 2 ^ 22

-- (old & ^chmodBits) | (mode & chmodBits)
unfoldable pub chmod_mode : ℕ → ℕ → ℕ
chmod_mode old mode = old - chmod_bits old + chmod_bits mode

-- A change of the chmod bits leaves every other bit of the mode alone.
chmod_high :
    (old mode : ℕ)
    → (chmod_mode old mode / 2 ^ 24 ≡ old / 2 ^ 24)
      × (chmod_mode old mode / 2 ^ 21 % 2 ≡ old / 2 ^ 21 % 2)
      × (chmod_mode old mode / 2 ^ 19 % 2 ≡ old / 2 ^ 19 % 2)
unfolding chmod_mode
chmod_high old mode = (omega arith, omega arith, omega arith)

chmod_low :
    (old mode : ℕ)
    → (chmod_mode old mode % 512 ≡ mode % 512)
      × (chmod_mode old mode / 2 ^ 20 % 2 ≡ mode / 2 ^ 20 % 2)
      × (chmod_mode old mode / 2 ^ 22 % 4 ≡ mode / 2 ^ 22 % 4)
unfolding chmod_mode
chmod_low old mode = (omega arith, omega arith, omega arith)

-- Chmod does not change the kind of a file, and sets the chmod bits to those of the new mode.
pub chmod_mode-kind :
    (old mode : ℕ)
    → (is_dir (chmod_mode old mode) ≡ is_dir old)
      × (is_regular (chmod_mode old mode) ≡ is_regular old)
      × (chmod_bits (chmod_mode old mode) ≡ chmod_bits mode)
unfolding is_dir is_regular has_bit
chmod_mode-kind old mode =
    let (high, h21, h19) = chmod_high old mode in
    let (l9, l20, l22) = chmod_low old mode in
    let e31 : chmod_mode old mode / 2 ^ 31 % 2 ≡ old / 2 ^ 31 % 2 = omega arith in
    let e24 : chmod_mode old mode / 2 ^ 24 % 16 ≡ old / 2 ^ 24 % 16 = omega arith in
    (ap (λ x. x == 1) e31, rw (e31, e24, h21, h19), rw (l9, l20, l22))

pub dir_mode-is_dir : (perm : ℕ) → is_dir (dir_mode perm) ≡ true
unfolding is_dir
dir_mode-is_dir perm = ground arith

pub perm_of-is_regular : (perm : ℕ) → is_regular (perm_of perm) ≡ true
unfolding is_regular
perm_of-is_regular perm = ground arith
