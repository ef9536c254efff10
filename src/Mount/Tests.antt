-- ===== src/Mount/Tests.antt =====
-- Mounts at concrete paths, over a file system whose every path is a directory.
use hackpadfs.Base.{
  Text, text_eq, has_prefix, codes, true, false, [], ◌∷◌, ◌≡◌, ◌≢◌, refl, length, arith, inl, inr,
  ap,
}
use hackpadfs.Errors.{sentinel, path_error, err_exist, ok, err}
use hackpadfs.FilePath.{dot, valid_path, path_join, split_path}
use hackpadfs.Fs.{Fs}
use hackpadfs.Fs.Samples.{World, all_dirs}
use hackpadfs.Mount.{Mounts, mount_point, is_mounted, mount, check_dir, add_mount_err, add_mount}
use hackpadfs.Mount.Resolve.{covers}
use hackpadfs.Mount.Laws.{IsValid, Resolves, mount_point-Resolves, mount_point_order}
use hackpadfs.Mount.Add.{IsValid-nil, IsValid-cons, add_mount_made}

abbrev root : Fs World
root = all_dirs dot

abbrev usr : Text
usr = codes "usr"

abbrev usr_lib : Text
usr_lib = codes "usr/lib"

abbrev one : Mounts World
one = (usr, all_dirs usr) ∷ []

abbrev two : Mounts World
two = (usr_lib, all_dirs usr_lib) ∷ one

abbrev swapped : Mounts World
swapped = (usr, all_dirs usr) ∷ (usr_lib, all_dirs usr_lib) ∷ []

resolve_tests :
    (mount_point root two (codes "usr/lib/go") ≡ (all_dirs usr_lib, usr_lib, codes "go"))
    × (mount_point root two (codes "usr/library") ≡ (all_dirs usr, usr, codes "library"))
    × (mount_point root two (codes "usr/lib") ≡ (all_dirs usr_lib, usr_lib, dot))
    × (mount_point root two (codes "var") ≡ (root, dot, codes "var"))
unfolding mount_point has_prefix text_eq
resolve_tests = (refl, refl, refl, refl)

ne-dot : (p : Text) → length p ≢ 1 → p ≢ dot
ne-dot p h e = h (ap length e)

one-IsValid : IsValid one
one-IsValid =
    IsValid-cons root usr (all_dirs usr) [] IsValid-nil (unfold valid_path in refl)
      (ne-dot usr (omega arith)) (unfold is_mounted in refl)

two-IsValid : IsValid two
two-IsValid =
    IsValid-cons root usr_lib (all_dirs usr_lib) one one-IsValid (unfold valid_path in refl)
      (ne-dot usr_lib (omega arith)) (unfold is_mounted in refl)

go-valid : valid_path (codes "usr/lib/go") ≡ true
unfolding valid_path
go-valid = refl

mount_point-Resolves_example :
    Resolves root two (codes "usr/lib/go") (mount_point root two (codes "usr/lib/go"))
mount_point-Resolves_example =
    mount_point-Resolves root two (codes "usr/lib/go") go-valid two-IsValid

mount_point_order_example :
    mount_point root two (codes "usr/lib/go") ≡ mount_point root swapped (codes "usr/lib/go")
mount_point_order_example =
    mount_point_order root two swapped (codes "usr/lib/go") two-IsValid (λ z. (
      (λ m. elim m [ inl e ↦ inr (inl e) | inr n ↦ elim n [ inl e ↦ inl e | inr b ↦ absurd b ] ]),
      (λ m. elim m [ inl e ↦ inr (inl e) | inr n ↦ elim n [ inl e ↦ inl e | inr b ↦ absurd b ] ]),
    ))

mounted_again :
    add_mount root usr (all_dirs usr) one tt
    ≡ (err (path_error "mount" usr (sentinel err_exist)), one, tt)
unfolding add_mount add_mount_err is_mounted valid_path
mounted_again = refl

mounted_below : add_mount root usr_lib (all_dirs usr_lib) one tt ≡ (ok tt, two, tt)
unfolding add_mount add_mount_err is_mounted valid_path check_dir mount path_join split_path
    has_prefix
mounted_below = refl

var-not_covered : covers (codes "var") usr_lib ≡ false
unfolding has_prefix text_eq
var-not_covered = refl

add_mount_made_example :
    IsValid two
    × (mount_point root two usr_lib ≡ (all_dirs usr_lib, usr_lib, dot))
    × (mount_point root two (codes "var") ≡ mount_point root one (codes "var"))
add_mount_made_example =
    add_mount_made root usr_lib (all_dirs usr_lib) one tt tt two (codes "var") one-IsValid
      mounted_below var-not_covered
