-- ===== src/FilePath/Parent.antt =====
-- path.Dir of a valid path is its parent: the path without its last name.
use hackpadfs.Base.{Text, true, List, [], ◌∷◌, ◌++◌, ◌≡◌, refl, ap, sym, ◌∙◌, arith, subst}
use hackpadfs.FilePath.{dot, valid_path, path_dir}
use hackpadfs.FilePath.Names.{AreNames, path_of, names, path_of-names}
use hackpadfs.FilePath.Join.{AreNames-names, valid_path-path_of, path_dir-path_of}

unfoldable pub init : List Text → List Text
init [] = []
init (n ∷ []) = []
init (n ∷ m ∷ ms) = n ∷ init (m ∷ ms)

-- The path of the names but the last; the root is its own parent.
unfoldable pub parent : Text → Text
unfolding init names
parent p = path_of (init (names p))

AreNames-init : (ns : List Text) → AreNames ns → AreNames (init ns)
unfolding init
AreNames-init [] h = refl
AreNames-init (n ∷ []) h = refl
AreNames-init (n ∷ m ∷ ms) h = ground (arith, AreNames-init (m ∷ ms))

-- A list that is not empty is one with a last name added.
pub init-snoc : (n : Text) (ns : List Text) → (m : Text) × (n ∷ ns ≡ init (n ∷ ns) ++ (m ∷ []))
unfolding init
init-snoc n [] = (n, refl)
init-snoc n (k ∷ ks) = let (m, e) = init-snoc k ks in (m, ap (λ x. n ∷ x) e)

path_dir-dot : path_dir dot ≡ dot
unfolding path_dir
path_dir-dot = refl

pub path_dir-init : (ns : List Text) → AreNames ns → path_dir (path_of ns) ≡ path_of (init ns)
path_dir-init [] h = unfold path_of init in path_dir-dot
path_dir-init (n ∷ ns) h =
    let (m, e) = init-snoc n ns in
    ap (λ x. path_dir (path_of x)) e ∙ path_dir-path_of (init (n ∷ ns)) m (subst AreNames e h)

pub path_dir-parent : (p : Text) → valid_path p ≡ true → path_dir p ≡ parent p
unfolding parent
path_dir-parent p h =
    ap path_dir (sym (path_of-names p)) ∙ path_dir-init (names p) (AreNames-names p h)

pub valid_path-parent : (p : Text) → valid_path p ≡ true → valid_path (parent p) ≡ true
unfolding parent
valid_path-parent p h = valid_path-path_of _ (AreNames-init (names p) (AreNames-names p h))
