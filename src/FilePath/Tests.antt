-- ===== src/FilePath/Tests.antt =====
use hackpadfs.Base.{codes, ◌≡◌, refl, true, false, [], ◌∷◌}
use hackpadfs.FilePath.{valid_path, clean, path_join, path_dir, path_base, split_path}

clean_tests :
    (clean (codes "a//b/./c/..") ≡ codes "a/b")
    × (clean (codes "/../a/") ≡ codes "/a")
    × (clean (codes "../../a/../b") ≡ codes "../../b")
    × (clean (codes "") ≡ codes ".")
    × (clean (codes "/") ≡ codes "/")
unfolding clean
clean_tests = (refl, refl, refl, refl, refl)

valid_tests :
    (valid_path (codes "a/b") ≡ true)
    × (valid_path (codes ".") ≡ true)
    × (valid_path (codes "") ≡ false)
    × (valid_path (codes "/a") ≡ false)
    × (valid_path (codes "a/../b") ≡ false)
    × (valid_path (codes "a/") ≡ false)
    × (valid_path (0xc3 ∷ 0xa9 ∷ []) ≡ true)
    × (valid_path (0xed ∷ 0xa0 ∷ 0x80 ∷ []) ≡ false)
unfolding valid_path
valid_tests = (refl, refl, refl, refl, refl, refl, refl, refl)

join_tests :
    (path_join (codes "." ∷ codes "a" ∷ []) ≡ codes "a")
    × (path_join (codes "a" ∷ codes "." ∷ []) ≡ codes "a")
    × (path_join (codes "/" ∷ [] ∷ codes "a/b" ∷ []) ≡ codes "/a/b")
unfolding path_join
join_tests = (refl, refl, refl)

split_tests :
    (split_path (codes "a/b/c") ≡ (codes "a/b/", codes "c"))
    × (path_dir (codes "a/b/c") ≡ codes "a/b")
    × (path_dir (codes "a") ≡ codes ".")
    × (path_base (codes "a/b//") ≡ codes "b")
    × (path_base (codes "//") ≡ codes "/")
unfolding path_dir path_base
split_tests = (refl, refl, refl, refl, refl)
