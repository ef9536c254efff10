-- ===== src/Mount/Laws.antt =====
-- What mountPoint returns, against a description that names no order of the mounts.
use hackpadfs.Base.{
  Text, text_eq_sound, has_prefix-split, trim_prefix, trim_prefix-append, Bool, true, false, ◌||◌,
  [], ◌∷◌, ◌++◌, ◌≡◌, ◌≢◌, refl, ap, sym, ◌∙◌, arith, take, Bool-cases, ◌↔◌, inl, inr, append_assoc,
  append-nil, subst,
}
use mathlib.Core.Bool.{false≢true}
use hackpadfs.FilePath.{slash, dot, valid_path}
use hackpadfs.FilePath.Below.{valid_path-below, ne-nil_of_valid, trim_slash-of_valid}
use hackpadfs.Fs.{Fs}
use hackpadfs.Mount.{Mounts, below, or_root, range_mounts, mount_point}
use hackpadfs.Mount.Resolve.{covers, covers-take, In, IsLongest, range_mounts_found}

or_root-of_cons : (p : Text) → p ≢ [] → or_root p ≡ p
or_root-of_cons [] h = absurd (h refl)
or_root-of_cons (c ∷ p) h = refl

trim_prefix-nil : (p : Text) → trim_prefix p [] ≡ p
trim_prefix-nil p = trim_prefix-append [] p

or_right : {a b : Bool} → a ≡ false → (a || b) ≡ true → b ≡ true
or_right h k = ground arith

module _ {W : Type 0} where
  -- Every mount point is a valid path below the root, and no two mounts share one.
  pub record IsValid (mounts : Mounts W) : Type 0 where
    pub valid : (x : Text × Fs W) → In x mounts → (valid_path x.0 ≡ true) × (x.0 ≢ dot)
    pub unique : (x y : Text × Fs W) → In x mounts → In y mounts → x.0 ≡ y.0 → x ≡ y

  named : {mounts : Mounts W} → IsValid mounts → (x : Text × Fs W) → In x mounts → x.0 ≢ []
  named v x m = ne-nil_of_valid x.0 (v.valid x m).0

  -- What a path stands for: the root file system where no mount covers the path, and otherwise
  -- the longest mount that does, with the path below it.
  pub data Resolves (root : Fs W) (mounts : Mounts W) (path : Text) (r : Fs W × Text × Text)
      : Type 0 where
    at_root :
        ((x : Text × Fs W) → In x mounts → covers path x.0 ≡ false)
        → r ≡ (root, dot, path)
        → Resolves root mounts path r
    at_mount :
        (x : Text × Fs W)
        → IsLongest path mounts x
        → path ≡ x.0
        → r ≡ (x.1, x.0, dot)
        → Resolves root mounts path r
    below_mount :
        (x : Text × Fs W) (rest : Text)
        → IsLongest path mounts x
        → path ≡ x.0 ++ (slash ∷ rest)
        → valid_path rest ≡ true
        → r ≡ (x.1, x.0, rest)
        → Resolves root mounts path r

  abbrev pub finish : Text → Text × Fs W → Fs W × Text × Text
  finish path (m, fs) = (fs, or_root m, or_root (trim_prefix (trim_prefix path m) (slash ∷ [])))

  pub mount_point_lem :
      (root : Fs W) (mounts : Mounts W) (path : Text)
      → mount_point root mounts path ≡ finish path (range_mounts path mounts ([], root))
  unfolding mount_point
  mount_point_lem root mounts path = refl

  finish-root :
      (root : Fs W) (path : Text)
      → valid_path path ≡ true
      → finish path ([], root) ≡ (root, dot, path)
  finish-root root path h =
      rw (trim_prefix-nil path, trim_slash-of_valid path h)
        (ap (λ p. (root, dot, p)) (or_root-of_cons path (ne-nil_of_valid path h)))

  pub finish-same : (m : Text) (fs : Fs W) → m ≢ [] → finish m (m, fs) ≡ (fs, m, dot)
  finish-same m fs h =
      rw
        (
          or_root-of_cons m h,
          subst (λ t. trim_prefix t m ≡ []) (append-nil m) (trim_prefix-append m []),
        )
        (unfold trim_prefix in refl)

  finish-below :
      (m rest : Text) (fs : Fs W)
      → m ≢ []
      → rest ≢ []
      → finish (m ++ (slash ∷ rest)) (m, fs) ≡ (fs, m, rest)
  finish-below m rest fs h k =
      rw (trim_prefix-append m (slash ∷ rest), trim_prefix-append (slash ∷ []) rest)
        (rw (or_root-of_cons m h, or_root-of_cons rest k))

  Resolves-longest :
      (root : Fs W) (mounts : Mounts W) (path : Text) (x : Text × Fs W)
      → valid_path path ≡ true
      → x.0 ≢ []
      → IsLongest path mounts x
      → Resolves root mounts path (finish path x)
  Resolves-longest root mounts path (m, fs) h named l = elim (Bool-cases (below path m)) [
    | inl under ↦
        let (rest, e) = has_prefix-split path (m ++ (slash ∷ [])) under in
        let e' = e ∙ append_assoc m (slash ∷ []) rest in
        let v = valid_path-below m rest (subst (λ p. valid_path p ≡ true) e' h) in
        below_mount (m, fs) rest l e' v
          (subst (λ p. finish p (m, fs) ≡ (fs, m, rest)) (sym e')
            (finish-below m rest fs named (ne-nil_of_valid rest v)))
    | inr apart ↦
        let e = sym (text_eq_sound m path (or_right apart l.covering)) in
        at_mount (m, fs) l e
          (subst (λ p. finish p (m, fs) ≡ (fs, m, dot)) (sym e) (finish-same m fs named))
  ]

  -- For a valid path and valid mounts, mountPoint resolves the path to the longest mount that
  -- covers it and the path below that mount, or to the root file system where none does.
  pub mount_point-Resolves :
      (root : Fs W) (mounts : Mounts W) (path : Text)
      → valid_path path ≡ true
      → IsValid mounts
      → Resolves root mounts path (mount_point root mounts path)
  mount_point-Resolves root mounts path h v =
      rw mount_point_lem (elim (range_mounts_found root path mounts (named v)) [
        | inl (no_cover, e) ↦ at_root no_cover (rw e (finish-root root path h))
        | inr l ↦ Resolves-longest root mounts path _ h (named v _ l.member) l
      ])

  same_longest :
      (path : Text) {ms ns : Mounts W} (x y : Text × Fs W)
      → IsValid ms
      → ((z : Text × Fs W) → In z ms ↔ In z ns)
      → IsLongest path ms x
      → IsLongest path ns y
      → x ≡ y
  same_longest path x y v same lx ly =
      let le = ly.longest x ((same x).0 lx.member) lx.covering in
      let ge = lx.longest y ((same y).1 ly.member) ly.covering in
      v.unique x y lx.member ((same y).1 ly.member) (
        sym (covers-take path x.0 lx.covering)
        ∙ ap (λ n. take n path) (omega (arith, le, ge))
        ∙ covers-take path y.0 ly.covering)

  same_found :
      (root : Fs W) (ms ns : Mounts W) (path : Text)
      → IsValid ms
      → ((z : Text × Fs W) → In z ms ↔ In z ns)
      → range_mounts path ms ([], root) ≡ range_mounts path ns ([], root)
  same_found root ms ns path v same = elim (range_mounts_found root path ms (named v)) [
    | inl (no_cover, e) ↦ elim (range_mounts_found root path ns (λ x m. named v x ((same x).1 m))) [
      | inl (_, e') ↦ e ∙ sym e'
      | inr l ↦ absurd (false≢true (sym (no_cover _ ((same _).1 l.member)) ∙ l.covering))
    ]
    | inr l ↦ elim (range_mounts_found root path ns (λ x m. named v x ((same x).1 m))) [
      | inl (no_cover, _) ↦
          absurd (false≢true (sym (no_cover _ ((same _).0 l.member)) ∙ l.covering))
      | inr l' ↦ same_longest path _ _ v same l l'
    ]
  ]

  -- Two lists of the same valid mounts, in whatever order, resolve every path alike.
  pub mount_point_order :
      (root : Fs W) (ms ns : Mounts W) (path : Text)
      → IsValid ms
      → ((z : Text × Fs W) → In z ms ↔ In z ns)
      → mount_point root ms path ≡ mount_point root ns path
  mount_point_order root ms ns path v same =
      mount_point_lem root ms path
      ∙ ap (finish path) (same_found root ms ns path v same)
      ∙ sym (mount_point_lem root ns path)
