-- ===== src/Mem/ChildNames.antt =====
-- The names that fileRecord.ReadDirNames of mem/store.go finds.
use hackpadfs.Base.{
  ◌↔◌, Bool, trim_prefix, ◌&&◌, has_prefix-split, Text, text_eq, text_eq_sound, text_eq_refl,
  has_prefix, trim_prefix-append, true, false, not, Option, none, some, [], ◌∷◌, ◌++◌, ◌≡◌, refl,
  ap, sym, ◌∙◌, arith, if◌then◌else◌, Bool-cases, inl, inr, subst, append_assoc,
}
use hackpadfs.FilePath.{elems, slash, dot, valid_path}
use hackpadfs.FilePath.Below.{slash-ne-dot}
use hackpadfs.FilePath.Elems.{elems-of-lacks_slash, elems-append, lacks_slash}
use hackpadfs.FilePath.Names.{AreNames, path_of, names, path_of-names}
use hackpadfs.FilePath.Join.{AreNames-names}
use hackpadfs.Mem.{has_slash, child_name}
use hackpadfs.Mem.Children.{has_slash-lacks, child_name-snoc, some-ne-none}

lacks_slash-of_has_slash : (s : Text) → has_slash s ≡ false → lacks_slash s ≡ true
lacks_slash-of_has_slash s h = ground (arith, has_slash-lacks s)

names-of_dot : (p : Text) → text_eq p dot ≡ false → names p ≡ elems p
unfolding names
names-of_dot p h = rw h

text_or : Text → Option Text → Text
text_or d none = d
text_or d (some t) = t

guard-some : (b : Bool) (x m : Text) → (if b then some x else none) ≡ some m → (b ≡ true) × (x ≡ m)
unfolding text_or
guard-some true x m h = (refl, ap (text_or x) h)
guard-some false x m h = absurd (some-ne-none m (sym h))

-- A child of the root is a name.
child_name-root : (key m : Text) → child_name dot key ≡ some m → names key ≡ m ∷ []
unfolding child_name
child_name-root key m h =
    let k =
      subst
        (λ r.
          (let prefix = if r then [] else dot ++ (slash ∷ []) in
            let name = trim_prefix key prefix in
            if has_prefix key prefix && not (has_slash name) && not (r && text_eq name dot)
            then some name
            else none)
          ≡ some m)
        (text_eq_refl dot) h in
    let (b, same) = guard-some _ _ m k in
    let whole = trim_prefix-append [] key in
    let key_m : key ≡ m = sym whole ∙ same in
    let other : text_eq key dot ≡ false = ground (arith, ap (λ t. text_eq t dot) whole) in
    let lacks : lacks_slash key ≡ true =
      lacks_slash-of_has_slash key (ground (arith, ap has_slash whole)) in
    names-of_dot key other ∙ elems-of-lacks_slash key lacks ∙ ap (λ t. t ∷ []) key_m

-- A child of another directory is the directory's path and a name.
child_name-below :
    (dir key m : Text)
    → text_eq dir dot ≡ false
    → child_name dir key ≡ some m
    → names key ≡ names dir ++ (m ∷ [])
unfolding child_name
child_name-below dir key m below h =
    let k =
      subst
        (λ r.
          (let prefix = if r then [] else dir ++ (slash ∷ []) in
            let name = trim_prefix key prefix in
            if has_prefix key prefix && not (has_slash name) && not (r && text_eq name dot)
            then some name
            else none)
          ≡ some m)
        below h in
    let prefix = dir ++ (slash ∷ []) in
    let (b, same) = guard-some _ _ m k in
    let (r, split) = has_prefix-split key prefix (ground arith) in
    let trimmed : trim_prefix key prefix ≡ r =
      ap (λ t. trim_prefix t prefix) split ∙ trim_prefix-append prefix r in
    let r_m : r ≡ m = sym trimmed ∙ same in
    let key_m : key ≡ dir ++ (slash ∷ m) =
      split ∙ append_assoc dir (slash ∷ []) r ∙ ap (λ t. dir ++ (slash ∷ t)) r_m in
    let lacks : lacks_slash m ≡ true =
      lacks_slash-of_has_slash m (ground (arith, ap has_slash same)) in
    ap names key_m
    ∙ names-of_dot (dir ++ (slash ∷ m)) (slash-ne-dot dir m)
    ∙ elems-append dir m
    ∙ ap (λ es. elems dir ++ es) (elems-of-lacks_slash m lacks)
    ∙ ap (λ es. es ++ (m ∷ [])) (sym (names-of_dot dir below))

-- For valid paths, ReadDirNames of a directory finds in the record of a key exactly the one name
-- that the key has behind the directory's.
pub child_name-names :
    (dir key m : Text)
    → valid_path dir ≡ true
    → valid_path key ≡ true
    → (child_name dir key ≡ some m) ↔ (names key ≡ names dir ++ (m ∷ []))
unfolding names text_eq
child_name-names dir key m h k = (
  (λ e. elim (Bool-cases (text_eq dir dot)) [
    | inr below ↦ child_name-below dir key m below e
    | inl root ↦
        let q = text_eq_sound dir dot root in
        child_name-root key m (subst (λ d. child_name d key ≡ some m) q e)
        ∙ ap (λ d. names d ++ (m ∷ [])) (sym q)
  ]),
  (λ e.
      subst (λ x. child_name x key ≡ some m) (path_of-names dir)
        (subst (λ x. child_name (path_of (names dir)) x ≡ some m)
          (ap path_of (sym e) ∙ path_of-names key)
          (child_name-snoc (names dir) m (subst AreNames e (AreNames-names key k))))),
)
