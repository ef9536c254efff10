-- ===== src/Mount/Add.antt =====
-- AddMount of mount/fs.go: the guards, and what the new mount changes.
use mathlib.Core.Bool.{false≢true}
use hackpadfs.Base.{
  Text, text_eq, text_eq_refl, text_eq_iff, has_prefix-split, Bool, true, false, ◌||◌, [], ◌∷◌,
  ◌++◌, ◌≡◌, ◌≢◌, refl, ap, sym, ◌∙◌, arith, length, length-append, Bool-cases, inl, inr, subst,
}
use hackpadfs.Errors.{Error, path_error, Result, ok, err}
use hackpadfs.FilePath.{slash, dot, valid_path}
use hackpadfs.FilePath.Below.{ne-nil_of_valid}
use hackpadfs.Fs.{Fs}
use hackpadfs.Mount.{Mounts, below, mount_point, is_mounted, add_mount, add_mount_err}
use hackpadfs.Mount.Resolve.{covers, In, range_mounts_apart}
use hackpadfs.Mount.Laws.{IsValid, mount_point_lem, finish, finish-same}

or_false : (a b : Bool) → (a || b) ≡ false → b ≡ false
or_false a b h = ground arith

not-below_self : (p : Text) → below p p ≡ false
not-below_self p = elim (Bool-cases (below p p)) [
  | inr apart ↦ apart
  | inl under ↦
      let (r, e) = has_prefix-split p (p ++ (slash ∷ [])) under in
      absurd (
        omega
          (arith, ap length e, length-append (p ++ (slash ∷ [])) r, length-append p (slash ∷ [])))
]

is_mounted-cons :
    {W : Type 0} (p q : Text) (fs : Fs W) (ms : Mounts W)
    → is_mounted p ((q, fs) ∷ ms) ≡ (text_eq q p || is_mounted p ms)
unfolding is_mounted
is_mounted-cons p q fs ms = refl

-- A path that is not mounted is not the path of any mount.
not-mounted :
    {W : Type 0} (p : Text) (ms : Mounts W)
    → is_mounted p ms ≡ false
    → (x : Text × Fs W) → In x ms
    → x.0 ≢ p
not-mounted p [] h x m e = m
not-mounted p ((q, g) ∷ ms) h x (inl same) e =
    ground (
      arith,
      is_mounted-cons p q g ms,
      (text_eq_iff q p).1 (ap (λ (y : _ × _). y.0) (sym same) ∙ e),
    )
not-mounted p ((q, g) ∷ ms) h x (inr m) e =
    not-mounted p ms (ground (arith, is_mounted-cons p q g ms)) x m e

pub IsValid-nil : {W : Type 0} → IsValid {W = W} []
IsValid-nil = record { valid = λ x m. absurd m; unique = λ x y m n e. absurd m }

module _ {W : Type 0} (root : Fs W) (p : Text) (fs : Fs W) (mounts : Mounts W) where
  pub IsValid-cons :
      IsValid mounts
      → valid_path p ≡ true
      → p ≢ dot
      → is_mounted p mounts ≡ false
      → IsValid ((p, fs) ∷ mounts)
  IsValid-cons v valid ne fresh = record {
    valid = λ x m. elim m [
      | inl e ↦
          subst (λ (y : Text × Fs W). (valid_path y.0 ≡ true) × (y.0 ≢ dot)) (sym e) (valid, ne)
      | inr m' ↦ v.valid x m'
    ];
    unique = λ x y mx my e. unique x y mx my e;
  }
    where
      first : (x y : Text × Fs W) → x ≡ (p, fs) → In y mounts → x.0 ≡ y.0 → ⊥
      first x y e m same =
          not-mounted p mounts fresh y m (sym same ∙ ap (λ (z : Text × Fs W). z.0) e)

      unique :
          (x y : Text × Fs W)
          → In x ((p, fs) ∷ mounts)
          → In y ((p, fs) ∷ mounts)
          → x.0 ≡ y.0
          → x ≡ y
      unique x y (inl ex) (inl ey) e = ex ∙ sym ey
      unique x y (inl ex) (inr my) e = absurd (first x y ex my e)
      unique x y (inr mx) (inl ey) e = absurd (first y x ey mx (sym e))
      unique x y (inr mx) (inr my) e = v.unique x y mx my e

  mount_point-new : valid_path p ≡ true → mount_point root ((p, fs) ∷ mounts) p ≡ (fs, p, dot)
  mount_point-new h =
      rw
        (
          mount_point_lem,
          range_mounts_apart p p fs mounts ([], root) (not-below_self p),
          text_eq_refl p,
        )
        (finish-same p fs (ne-nil_of_valid p h))

  mount_point-old :
      (path : Text)
      → covers path p ≡ false
      → mount_point root ((p, fs) ∷ mounts) path ≡ mount_point root mounts path
  mount_point-old path h =
      mount_point_lem root ((p, fs) ∷ mounts) path
      ∙ ap (finish path) (
          range_mounts_apart path p fs mounts ([], root) (ground arith)
          ∙ rw (or_false (below path p) (text_eq p path) h))
      ∙ sym (mount_point_lem root mounts path)

  -- A mount that is made has passed every guard.
  add_mount_err-ok :
      (w w' : W) (mounts' : Mounts W)
      → add_mount_err root p fs mounts w ≡ (ok mounts', w')
      → (mounts' ≡ (p, fs) ∷ mounts)
        × (valid_path p ≡ true)
        × (text_eq p dot ≡ false)
        × (is_mounted p mounts ≡ false)
  unfolding add_mount_err
  add_mount_err-ok w w' mounts' e = ground arith

  -- What AddMount makes of the result of addMount.
  added : Result (Mounts W) × W → Result (Unit {0}) × Mounts W × W
  added (r, w) = elim r [
    | ok mounts' ↦ (ok tt, mounts', w)
    | err e ↦ (err (path_error "mount" p e), mounts, w)
  ]

  Effect : Result (Unit {0}) × Mounts W × W → Type 0
  Effect (r, mounts', w) =
      ((e : Error) → r ≡ err e → mounts' ≡ mounts)
      × (r ≡ ok tt
          → IsValid mounts'
            × (mount_point root mounts' p ≡ (fs, p, dot))
            × ((path : Text)
                → covers path p ≡ false
                → mount_point root mounts' path ≡ mount_point root mounts path))

  added-Effect :
      IsValid mounts
      → (w w' : W) (r : Result (Mounts W)) → add_mount_err root p fs mounts w ≡ (r, w')
      → Effect (added (r, w'))
  unfolding added Effect
  added-Effect v w w' (ok ms) eq =
      let (e, valid, ne, fresh) = add_mount_err-ok w w' ms eq in
      (
        (λ e' q. absurd (cc)),
        (λ _. rw e (
          IsValid-cons v valid (λ q. false≢true (sym ne ∙ (text_eq_iff p dot).1 q)) fresh,
          mount_point-new valid,
          mount_point-old,
        )),
      )
  added-Effect v w w' (err x) eq = ((λ e q. refl), (λ q. absurd (cc)))

  add_mount-Effect : (w : W) → IsValid mounts → Effect (add_mount root p fs mounts w)
  unfolding add_mount added
  add_mount-Effect w v = added-Effect v w _ _ refl

  -- Where AddMount fails, the mounts stay as they were.
  add_mount_failed :
      (w w' : W) (e : Error) (mounts' : Mounts W)
      → IsValid mounts
      → add_mount root p fs mounts w ≡ (err e, mounts', w')
      → mounts' ≡ mounts
  unfolding Effect
  add_mount_failed w w' e mounts' v q = (subst Effect q (add_mount-Effect w v)).0 e refl

  -- Where AddMount succeeds, the mounts stay valid, the mount point resolves to the root of the
  -- new file system, and a path that the new mount does not cover resolves as before.
  pub add_mount_made :
      (w w' : W) (mounts' : Mounts W) (path : Text)
      → IsValid mounts
      → add_mount root p fs mounts w ≡ (ok tt, mounts', w')
      → covers path p ≡ false
      → IsValid mounts'
        × (mount_point root mounts' p ≡ (fs, p, dot))
        × (mount_point root mounts' path ≡ mount_point root mounts path)
  unfolding Effect
  add_mount_made w w' mounts' path v q c =
      let (valid, point, others) = (subst Effect q (add_mount-Effect w v)).1 refl in
      (valid, point, others path c)
