-- ===== src/KeyValue/Tests.antt =====
-- The loop of findMissingDirs at a concrete path.
use hackpadfs.Base.{suc, codes, some, [], ◌∷◌, ◌≡◌, refl, length, true}
use hackpadfs.FilePath.{valid_path, path_dir}
use hackpadfs.FilePath.Names.{names}
use hackpadfs.KeyValue.Fs.{ancestors}
use hackpadfs.KeyValue.Ancestors.{upwards, ancestors-enough}

ancestors_tests :
    (ancestors 3 (codes "usr/lib") ≡ some (codes "usr/lib" ∷ codes "usr" ∷ []))
    × (ancestors 1 (codes ".") ≡ some [])
unfolding ancestors path_dir
ancestors_tests = (refl, refl)

usr_lib-valid : valid_path (codes "usr/lib") ≡ true
unfolding valid_path
usr_lib-valid = refl

ancestors-enough_example :
    ancestors (suc (suc (length (codes "usr/lib")))) (codes "usr/lib")
    ≡ some (upwards (length (names (codes "usr/lib"))) (names (codes "usr/lib")))
ancestors-enough_example = ancestors-enough (codes "usr/lib") usr_lib-valid
