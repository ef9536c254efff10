-- ===== src/Os/Names.antt =====
-- The path that an os.FS hands to the operating system, by the names of the root and of the path.
use hackpadfs.Base.{
  ℕ, Text, text_eq, text_eq_iff, text_eq_refl, String, has_prefix, has_prefix-append, trim_prefix,
  trim_prefix-append, true, false, ◌||◌, not, List, [], ◌∷◌, ◌++◌, ◌≡◌, ◌≢◌, ◌⊎◌, refl, ap, sym,
  ◌∙◌, arith, ◌==◌, inl, inr, append-nil, append_assoc, all-append, subst,
}
use mathlib.Core.Bool.{false≢true}
use hackpadfs.Errors.{Error, ok}
use hackpadfs.FilePath.{slash, dot, join_elems, valid_path, path_join, or_dot}
use hackpadfs.FilePath.Elems.{join_elems-append}
use hackpadfs.FilePath.Names.{AreNames, path_of, names, path_of-names}
use hackpadfs.FilePath.Join.{AreNames-names, AreNames-append, path_of-head}
use hackpadfs.FilePath.Below.{ne-nil_of_valid, trim_slash-of_valid}
use hackpadfs.FilePath.Rooted.{
  root_names, root_names-of_valid, IsRoot, AreNames-root_names, path_join-root,
  root_names-path_join,
}
use hackpadfs.Os.{
  OsFs, Platform, replace_all, trim_left, trim_right, from_separator, join_sep_path,
  get_volume_name, rooted_path, below_root,
}
use hackpadfs.Os.Paths.{no_separator, trim_left-slash, trim_left-slash_nil}

no_separator-append :
    (sep : ℕ) (s t : Text)
    → no_separator sep s ≡ true
    → no_separator sep t ≡ true
    → no_separator sep (s ++ (slash ∷ t)) ≡ true
no_separator-append sep s t h k =
    ground (arith, all-append (λ (c : ℕ). not (c == sep)) s (slash ∷ t))

no_separator-join :
    (sep : ℕ) (ns ms : List Text)
    → no_separator sep (join_elems ns) ≡ true
    → no_separator sep (join_elems ms) ≡ true
    → no_separator sep (join_elems (ns ++ ms)) ≡ true
no_separator-join sep [] ms h k = k
no_separator-join sep (n ∷ ns) [] h k = rw (append-nil (n ∷ ns)) h
no_separator-join sep (n ∷ ns) (m ∷ ms) h k =
    ap (no_separator sep) (join_elems-append n m ns ms)
    ∙ no_separator-append sep (join_elems (n ∷ ns)) (join_elems (m ∷ ms)) h k

-- A path is the root, or its names joined.
join_elems-names :
    (ns : List Text) → ((ns ≡ []) × (path_of ns ≡ dot)) ⊎ ((ns ≢ []) × (join_elems ns ≡ path_of ns))
unfolding path_of
join_elems-names [] = inl (refl, refl)
join_elems-names (n ∷ ns) = inr (λ e. absurd (cc), refl)

join_elems-cases :
    (p : Text) → ((names p ≡ []) × (p ≡ dot)) ⊎ ((names p ≢ []) × (join_elems (names p) ≡ p))
join_elems-cases p =
    subst (λ q. ((names p ≡ []) × (q ≡ dot)) ⊎ ((names p ≢ []) × (join_elems (names p) ≡ q)))
      (path_of-names p) (join_elems-names (names p))

no_separator-names :
    (sep : ℕ) (p : Text)
    → no_separator sep p ≡ true
    → no_separator sep (join_elems (names p)) ≡ true
no_separator-names sep p h = elim (join_elems-cases p) [
  | inl (e, d) ↦ rw e (unfold join_elems in ground arith)
  | inr (n, e) ↦ rw e h
]

no_separator-root :
    (sep : ℕ) (r : Text)
    → no_separator sep r ≡ true
    → no_separator sep (join_elems (root_names r)) ≡ true
no_separator-root sep [] h = unfold root_names join_elems in h
no_separator-root sep (c ∷ s) h = unfold root_names in no_separator-names sep (c ∷ s) h

trim_left-join :
    (sep : ℕ) (ms : List Text)
    → AreNames ms
    → no_separator sep (join_elems ms) ≡ true
    → trim_left sep (from_separator sep (slash ∷ join_elems ms))
      ≡ from_separator sep (join_elems ms)
trim_left-join sep [] a h =
    unfold join_elems in
    (trim_left-slash_nil sep ∙ unfold from_separator replace_all in ground arith)
trim_left-join sep (m ∷ ms) a h =
    let (c, s, e, ne) = path_of-head (m ∷ ms) a in
    let e' : join_elems (m ∷ ms) ≡ c ∷ s = unfold path_of in e in
    rw e' (trim_left-slash sep c s ne (subst (λ t. no_separator sep t ≡ true) e' h))

-- What the root and the volume of an os.FS have to be for the paths of both sides to fit: Sub
-- makes such roots, and filepath.VolumeName and filepath.IsAbs know the volume in front of a path.
pub record IsPlaced (platform : Platform) (fs : OsFs) : Type 0 where
  pub root : IsRoot fs.root
  pub plain_root : no_separator platform.separator fs.root ≡ true
  pub dot_is_plain : no_separator platform.separator dot ≡ true
  pub volume :
      trim_right platform.separator (get_volume_name platform fs) ≡ get_volume_name platform fs

-- The path at which the operating system keeps the file of some names.
unfoldable pub os_text : Platform → OsFs → List Text → Text
os_text platform fs ns =
    get_volume_name platform fs
    ++ (platform.separator ∷ from_separator platform.separator (join_elems ns))

-- The names below the root of the operating system.
abbrev pub file_names : OsFs → Text → List Text
file_names fs p = root_names fs.root ++ names p

module _ {platform : Platform} {fs : OsFs} (placed : IsPlaced platform fs) (p : Text)
    (valid : valid_path p ≡ true) (plain : no_separator platform.separator p ≡ true) where
  pub plain_names : no_separator platform.separator (join_elems (file_names fs p)) ≡ true
  plain_names =
      no_separator-join platform.separator (root_names fs.root) (names p)
        (no_separator-root platform.separator fs.root placed.plain_root)
        (no_separator-names platform.separator p plain)

  pub rooted_path-names :
      (op : String) → rooted_path platform op fs p ≡ ok (os_text platform fs (file_names fs p))
  rooted_path-names op =
      unfold rooted_path join_sep_path os_text in
      (rw (valid, path_join-root fs.root p placed.root valid, placed.volume)
        (ap (λ t. ok (get_volume_name platform fs ++ (platform.separator ∷ t)))
          (trim_left-join platform.separator (file_names fs p)
            (AreNames-append (root_names fs.root) (names p)
              (AreNames-root_names fs.root placed.root) (AreNames-names p valid))
            plain_names)))

pub join-append :
    (ns ms : List Text)
    → ns ≢ []
    → ms ≢ []
    → join_elems (ns ++ ms) ≡ join_elems ns ++ (slash ∷ join_elems ms)
join-append [] ms h k = absurd (h refl)
join-append (n ∷ ns) [] h k = absurd (k refl)
join-append (n ∷ ns) (m ∷ ms) h k = join_elems-append n m ns ms

below_root-under :
    (fs : OsFs) (t : Text) (e : Error)
    → (text_eq t fs.root || has_prefix t (fs.root ++ (slash ∷ []))) ≡ true
    → below_root fs t e ≡ ok (or_dot (trim_prefix (trim_prefix t fs.root) (slash ∷ [])))
unfolding below_root
below_root-under fs t e h = ground arith

-- Cutting the root off a path below it.
module _ (p : Text) (valid : valid_path p ≡ true) where
  or_dot_valid : or_dot p ≡ p
  or_dot_valid = nonempty p (ne-nil_of_valid p valid)
    where
      nonempty : (q : Text) → q ≢ [] → or_dot q ≡ q
      nonempty [] h = absurd (h refl)
      nonempty (c ∷ s) h = refl

  cut-top : or_dot (trim_prefix (join_elems (names p)) (slash ∷ [])) ≡ p
  cut-top = elim (join_elems-cases p) [
    | inl (e, d) ↦ rw e (unfold join_elems trim_prefix in sym d)
    | inr (n, e) ↦ rw (e, trim_slash-of_valid p valid) or_dot_valid
  ]

  -- A path below a root that is a path.
  join-root :
      (r : Text)
      → valid_path r ≡ true
      → text_eq r dot ≡ false
      → ((p ≡ dot) × (join_elems (root_names r ++ names p) ≡ r))
        ⊎ (join_elems (root_names r ++ names p) ≡ r ++ (slash ∷ p))
  join-root r v not_dot = elim (join_elems-cases r) [
    | inl (e, d) ↦ absurd (false≢true (sym not_dot ∙ (text_eq_iff r dot).1 d))
    | inr (n, er) ↦ elim (join_elems-cases p) [
      | inl (e, d) ↦ inl (d, rw (root_names-of_valid r v, e, append-nil (names r)) er)
      | inr (m, ep) ↦
          inr (rw (root_names-of_valid r v, join-append (names r) (names p) n m, er, ep) refl)
    ]
  ]

pub below_root_lem :
    (fs : OsFs) (p : Text) (e : Error)
    → IsRoot fs.root
    → text_eq fs.root dot ≡ false
    → valid_path p ≡ true
    → below_root fs (join_elems (root_names fs.root ++ names p)) e ≡ ok p
below_root_lem fs p e (inl top) not_dot valid =
    unfold below_root text_eq in
    rw top (ap ok (unfold root_names in unfold trim_prefix in cut-top p valid))
below_root_lem fs p e (inr v) not_dot valid = elim (join-root p valid fs.root v not_dot) [
  | inl (d, j) ↦ rw j (
      below_root-under fs fs.root e (rw (text_eq_refl fs.root) refl)
      ∙ ap (λ t. ok (or_dot (trim_prefix t (slash ∷ []))))
          (ap (λ t. trim_prefix t fs.root) (sym (append-nil fs.root))
            ∙ trim_prefix-append fs.root [])
      ∙ unfold trim_prefix in ap ok (sym d))
  | inr j ↦ rw j (
      below_root-under fs (fs.root ++ (slash ∷ p)) e (
        ground (
          arith,
          ap (λ t. has_prefix t (fs.root ++ (slash ∷ []))) (append_assoc fs.root (slash ∷ []) p),
          has_prefix-append (fs.root ++ (slash ∷ [])) p,
        ))
      ∙ ap (λ t. ok (or_dot (trim_prefix t (slash ∷ [])))) (trim_prefix-append fs.root (slash ∷ p))
      ∙ ap (λ t. ok (or_dot t)) (trim_prefix-append (slash ∷ []) p)
      ∙ ap ok (or_dot_valid p valid))
]

-- A path joined to the root of the file system is plain where both are.
pub no_separator-path_join :
    (sep : ℕ) (r p : Text)
    → no_separator sep dot ≡ true
    → IsRoot r
    → valid_path p ≡ true
    → no_separator sep r ≡ true
    → no_separator sep p ≡ true
    → no_separator sep (path_join (r ∷ p ∷ [])) ≡ true
no_separator-path_join sep r p d root valid plain_r plain_p =
    let (v, e) = root_names-path_join r p root valid in
    let j = path_join (r ∷ p ∷ []) in
    elim (join_elems-cases j) [
      | inl (_, at_dot) ↦ rw at_dot d
      | inr (_, joined) ↦
          ap (no_separator sep) (sym joined ∙ ap join_elems (sym (root_names-of_valid j v) ∙ e))
          ∙ no_separator-join sep (root_names r) (names p) (no_separator-root sep r plain_r)
              (no_separator-names sep p plain_p)
    ]
