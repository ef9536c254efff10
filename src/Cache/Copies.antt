-- ===== src/Cache/Copies.antt =====
-- Open of cache/fs.go for a file that the cache does not have: copyFile.
use hackpadfs.Base.{ℕ, ◌<◌, Text, Option, true, false, none, some, ◌++◌, List, ◌≡◌, length}
use hackpadfs.Errors.{Error, err_not_exist, is_error, Result, err}
use hackpadfs.Fs.{FileInfo, File}
use hackpadfs.Fs.ReadLaws.{Reads}
use hackpadfs.Cache.{ReadOnlyFs, Cached, CacheFile, rewound, as_file}

-- A file that is read, whose bytes still to come are `left w`, and one whose Write takes all bytes
-- and puts them behind those it has, `written w`. Neither call touches the other file.
module _ {W : Type 0} (f : File W) (write : Text → W → (ℕ × Option Error) × W)
    (left written : W → Text) (reading : (n : ℕ) (w : W) → 0 < n → Reads f left n w)
    (read_keeps : (n : ℕ) (w : W) → written (f.read n w).1 ≡ written w)
    (writing : (s : Text) (w : W)
      → (w' : W) × (write s w ≡ ((length s, none), w'))
        × (written w' ≡ written w ++ s)
        × (left w' ≡ left w)) where
  module _ (dest : File W) (fs : ReadOnlyFs W) (name : Text) (infos : List (Text × FileInfo)) where
    -- What Open returns, `x`, where the cache answers with the error `e` and leaves `w1`: that error,
    -- where it is another than that there is no such file; else the copy has all the `contents`, and
    -- what is returned is the file of the source from its first byte on, or the copy.
    pub data Missed (e : Error) (w1 : W) (contents : Text)
        (x : Option (Result (CacheFile W) × Cached W)) : Type 0 where
      refused :
          is_error e err_not_exist ≡ false
          → x ≡ some (err e, record { cache_info = infos; world = w1 })
          → Missed e w1 contents x
      copied :
          (w' : W)
          → is_error e err_not_exist ≡ true
          → written w' ≡ contents
          → x ≡ as_file (some (rewound fs name f w')) infos
          → Missed e w1 contents x
