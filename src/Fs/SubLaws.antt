-- ===== src/Fs/SubLaws.antt =====
-- The paths and the answers of a sub file system of sub.go.
use hackpadfs.Base.{Text, String, true, [], ◌∷◌, ◌++◌, ◌≡◌, ◌≢◌, ap, subst}
use hackpadfs.Errors.{Error, path_error, Result, ok, err}
use hackpadfs.Errors.Strip.{strip_result}
use hackpadfs.FilePath.{slash, valid_path, path_join}
use hackpadfs.FilePath.Names.{path_of, names, path_of-names, names-path_of}
use hackpadfs.FilePath.Join.{AreNames-names, path_join-path_of, valid_path-path_of, AreNames-append}
use hackpadfs.Fs.{Ops, plain}
use hackpadfs.Fs.Sub.{sub_path, new_sub_fs, sub_fs, sub}

sub_path-path_of :
    (base p : Text)
    → valid_path base ≡ true
    → valid_path p ≡ true
    → sub_path base p ≡ path_of (names base ++ names p)
unfolding sub_path
sub_path-path_of base p h k = rw k (
    subst (λ q. path_join (q ∷ p ∷ []) ≡ path_of (names base ++ names p)) (path_of-names base)
      (subst (λ q. path_join (path_of (names base) ∷ q ∷ []) ≡ path_of (names base ++ names p))
        (path_of-names p)
        (path_join-path_of (names base) (names p) (AreNames-names base h) (AreNames-names p k))))

-- For a valid base and a valid path, the path handed to the root file system is valid and its
-- names are those of the base and then those of the path: it lies below the base.
pub sub_path-names :
    (base p : Text)
    → valid_path base ≡ true
    → valid_path p ≡ true
    → (valid_path (sub_path base p) ≡ true) × (names (sub_path base p) ≡ names base ++ names p)
sub_path-names base p h k =
    let a = AreNames-append (names base) (names p) (AreNames-names base h) (AreNames-names p k) in
    rw (sub_path-path_of base p h k)
      (valid_path-path_of (names base ++ names p) a, names-path_of (names base ++ names p) a)

-- The path in a path error.
path_in : Error → Text
path_in (path_error op t e) = t
path_in _ = []

module _ {W : Type 0} (o : Ops W) where
  new_sub_fs-of_valid :
      (dir : Text) → valid_path dir ≡ true → new_sub_fs (plain o) dir ≡ ok (sub_fs (plain o) dir)
  unfolding new_sub_fs
  new_sub_fs-of_valid dir h = rw h

  -- What an operation under a sub file system returns, `y`, where the root's operation on
  -- `base/name` returns `x`: the same value, or a path error that names `base/name` under the
  -- caller's name, or an error for another error; and the same state.
  pub data SameBelow {A : Type 0} (base name : Text) (x y : Result A × W) : Type 0 where
    same_value : (a : A) (w : W) → x ≡ (ok a, w) → y ≡ (ok a, w) → SameBelow base name x y
    renamed :
        (op : String) (cause : Error) (w : W)
        → x ≡ (err (path_error op (base ++ (slash ∷ name)) cause), w)
        → y ≡ (err (path_error op name cause), w)
        → SameBelow base name x y
    other_error :
        (e e' : Error) (w : W)
        → ((op : String) (cause : Error) → e ≢ path_error op (base ++ (slash ∷ name)) cause)
        → x ≡ (err e, w)
        → y ≡ (err e', w)
        → SameBelow base name x y

  -- Sub of a sub file system never fails on valid paths, and is the sub file system of the
  -- joined path.
  sub-sub_fs :
      (base dir : Text) (w : W)
      → valid_path base ≡ true
      → valid_path dir ≡ true
      → sub (sub_fs (plain o) base) dir w ≡ ok (sub_fs (plain o) (sub_path base dir))
  unfolding sub new_sub_fs
  sub-sub_fs base dir w h k =
      ap (strip_result dir (sub_path base dir))
        (new_sub_fs-of_valid (sub_path base dir) (sub_path-names base dir h k).0)
