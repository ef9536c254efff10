-- ===== src/Mem/Tree.antt =====
-- The tree of an in-memory store: every path is valid, and every parent is a directory that is
-- there.
use hackpadfs.Base.{
  Text, text_eq, text_eq_sound, true, false, none, some, List, [], ◌≡◌, ◌≢◌, ap, sym, ◌∙◌,
  Bool-cases, inl, inr, subst,
}
use hackpadfs.FilePath.{dot, valid_path}
use hackpadfs.FilePath.Parent.{parent}
use hackpadfs.Modes.{is_dir}
use hackpadfs.Mem.{Entry, load, put, delete, child_name, child_names}
use hackpadfs.Mem.Records.{load-put, load-put-other, load-delete, load-delete-other}
use hackpadfs.Mem.Children.{child_name-parent, no_child}

-- There is a directory at the path.
abbrev pub IsDirAt : Text → List (Text × Entry) → Type 0
IsDirAt p records = (d : Entry) × (load p records ≡ some d) × (is_dir d.mode ≡ true)

pub record IsTree (records : List (Text × Entry)) : Type 0 where
  pub valid : (p : Text) (e : Entry) → load p records ≡ some e → valid_path p ≡ true
  pub parents :
      (p : Text) (e : Entry)
      → load p records ≡ some e
      → text_eq p dot ≡ false
      → IsDirAt (parent p) records

pub some-ne-none : (e : Entry) → some e ≢ none
some-ne-none e h = absurd (cc)

pub some-injective : (d e : Entry) → some d ≡ some e → d ≡ e
some-injective d e h = cc

module _ (records : List (Text × Entry)) (name : Text) (e : Entry) where
  -- A directory is still one after a Store that keeps the kind of what it overwrites.
  IsDirAt-put :
      ((d : Entry) → load name records ≡ some d → is_dir d.mode ≡ true → is_dir e.mode ≡ true)
      → (p : Text) → IsDirAt p records
      → IsDirAt p (put name e records)
  IsDirAt-put keeps p (d, there, dir) = elim (Bool-cases (text_eq name p)) [
    | inl same ↦
        subst (λ q. IsDirAt q (put name e records)) (text_eq_sound name p same)
          (
            e,
            load-put name e records,
            keeps d (ap (λ q. load q records) (text_eq_sound name p same) ∙ there) dir,
          )
    | inr other ↦ (d, load-put-other name p e records other ∙ there, dir)
  ]

  -- A Store at a valid path with a parent keeps the tree, if it keeps the kind of what it
  -- overwrites.
  pub put-IsTree :
      IsTree records
      → valid_path name ≡ true
      → (text_eq name dot ≡ false → IsDirAt (parent name) records)
      → ((d : Entry) → load name records ≡ some d → is_dir d.mode ≡ true → is_dir e.mode ≡ true)
      → IsTree (put name e records)
  put-IsTree t good rooted keeps = record {
    valid = λ p f there. elim (Bool-cases (text_eq name p)) [
      | inl same ↦ subst (λ q. valid_path q ≡ true) (text_eq_sound name p same) good
      | inr other ↦ t.valid p f (sym (load-put-other name p e records other) ∙ there)
    ];
    parents = λ p f there below. elim (Bool-cases (text_eq name p)) [
      | inl same ↦
          let q = text_eq_sound name p same in
          IsDirAt-put keeps (parent p) (
            subst (λ x. IsDirAt (parent x) records) q
              (rooted (subst (λ x. text_eq x dot ≡ false) (sym q) below)))
      | inr other ↦
          IsDirAt-put keeps (parent p)
            (t.parents p f (sym (load-put-other name p e records other) ∙ there) below)
    ];
  }

-- A Delete of what is no directory, or of a directory that lists no child, keeps the tree.
pub delete-IsTree :
    (records : List (Text × Entry)) (name : Text) (e : Entry)
    → IsTree records
    → load name records ≡ some e
    → (is_dir e.mode ≡ true → child_names name records ≡ [])
    → IsTree (delete name records)
delete-IsTree records name e t there empty = record {
  valid =
      λ p f found. t.valid p f (sym (load-delete-other name p records (apart p f found)) ∙ found);
  parents = λ p f found below.
      let was = sym (load-delete-other name p records (apart p f found)) ∙ found in
      let (d, at, dir) = t.parents p f was below in
      (
        d,
        load-delete-other name (parent p) records (parent_apart p f was below d at dir) ∙ at,
        dir,
      );
}
  where
    apart : (p : Text) (f : Entry) → load p (delete name records) ≡ some f → text_eq name p ≡ false
    apart p f found = elim (Bool-cases (text_eq name p)) [
      | inr other ↦ other
      | inl same ↦ absurd (
          some-ne-none f (
            sym found
            ∙ ap (λ q. load q (delete name records)) (sym (text_eq_sound name p same))
            ∙ load-delete name records))
    ]

    parent_apart :
        (p : Text) (f : Entry)
        → load p records ≡ some f
        → text_eq p dot ≡ false
        → (d : Entry) → load (parent p) records ≡ some d
        → is_dir d.mode ≡ true
        → text_eq name (parent p) ≡ false
    parent_apart p f was below d at dir = elim (Bool-cases (text_eq name (parent p))) [
      | inr other ↦ other
      | inl same ↦
          let q = text_eq_sound name (parent p) same in
          let (m, listed) = child_name-parent p (t.valid p f was) below in
          let is_e = some-injective e d (sym there ∙ ap (λ x. load x records) q ∙ at) in
          absurd (
            no_child name p records f (empty (ap (λ (x : Entry). is_dir x.mode) is_e ∙ dir)) was m
              (ap (λ x. child_name x p) q ∙ listed))
    ]
