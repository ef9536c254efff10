-- ===== src/Mem/Keeps.antt =====
-- The tree and the mutex of an in-memory store after an operation of keyvalue/fs.go.
use hackpadfs.Base.{
  ℕ, Text, text_eq, true, false, ◌&&◌, not, none, some, List, [], ◌∷◌, ◌≡◌, refl, ap, sym, ◌∙◌,
  arith, if◌then◌else◌, Bool-cases, Option-cases, inl, inr, subst, ◌==◌,
}
use mathlib.Core.Bool.{false≢true}
use hackpadfs.Errors.{Result, ok, err}
use hackpadfs.FilePath.{dot, valid_path}
use hackpadfs.FilePath.Parent.{parent}
use hackpadfs.Modes.{is_dir, dir_mode-is_dir, chmod_mode, chmod_mode-kind}
use hackpadfs.Blob.{Heap, Outcome, returns, panics, blocks}
use hackpadfs.KeyValue.Fs.{new_fs, mkdir, remove, chmod, chtimes}
use hackpadfs.Mem.{Entry, Mem, load, child_names, mem_store, new_store}
use hackpadfs.Mem.Records.{load-put}
use hackpadfs.Mem.Calls.{idle, lookup}
use hackpadfs.Mem.Lookup.{lookup-ok-valid, lookup-ok-load}
use hackpadfs.Mem.Spec.{is_empty, add_dir, remove_entry, chmod_entry, chtimes_entry, mkdir_spec}
use hackpadfs.Mem.Refines.{mkdir-refines, remove-refines, chmod-refines, chtimes-refines}
use hackpadfs.Mem.Tree.{IsTree, IsDirAt, put-IsTree, delete-IsTree, some-injective, some-ne-none}

-- The store is a tree, and no transaction holds it.
abbrev pub IsKept : {A : Type 0} → Result A × Mem → Type 0
IsKept (r, s) = IsTree s.records × (s.locked ≡ false)

result_or : {A : Type 0} → A → Outcome A → A
result_or d (returns a) = a
result_or d panics = d
result_or d blocks = d

-- What a call returns has every property of what it is known to return.
pub returned :
    {A : Type 0} (P : A → Type 0) (c : Outcome A) (x y : A)
    → c ≡ returns x
    → P x
    → c ≡ returns y
    → P y
unfolding result_or
returned P c x y e px q = subst P (ap (result_or x) (sym e ∙ q)) px

module _ (records : List (Text × Entry)) (heap : Heap) (clock : ℕ) where
  chmod_entry-IsKept :
      (name : Text) (mode : ℕ) (r : Result Entry)
      → lookup name records ≡ r
      → IsTree records
      → IsKept (chmod_entry records heap clock name r mode)
  chmod_entry-IsKept name mode (err x) h t = (t, refl)
  chmod_entry-IsKept name mode (ok e) h t =
      let there = lookup-ok-load name records e h in
      (
        put-IsTree records name (record e { mode = chmod_mode e.mode mode }) t
            (lookup-ok-valid name records e h) (t.parents name e there)
            (λ d at dir.
              (chmod_mode-kind e.mode mode).0
              ∙ ap (λ (x : Entry). is_dir x.mode) (some-injective e d (sym there ∙ at))
              ∙ dir),
        refl,
      )

  chtimes_entry-IsKept :
      (name : Text) (mtime : ℕ) (r : Result Entry)
      → lookup name records ≡ r
      → IsTree records
      → IsKept (chtimes_entry records heap clock name r mtime)
  chtimes_entry-IsKept name mtime (err x) h t = (t, refl)
  chtimes_entry-IsKept name mtime (ok e) h t =
      let there = lookup-ok-load name records e h in
      (
        put-IsTree records name (record e { mod_time = if mtime == 0 then e.mod_time else mtime }) t
            (lookup-ok-valid name records e h) (t.parents name e there)
            (λ d at dir.
              ap (λ (x : Entry). is_dir x.mode) (some-injective e d (sym there ∙ at)) ∙ dir),
        refl,
      )

  empty-nil : (ns : List Text) → is_empty ns ≡ true → ns ≡ []
  empty-nil [] h = refl
  empty-nil (n ∷ ns) h = absurd (false≢true h)

  remove_entry-IsKept :
      (name : Text) (r : Result Entry)
      → lookup name records ≡ r
      → IsTree records
      → IsKept (remove_entry records heap clock name r)
  remove_entry-IsKept name (err x) h t = (t, refl)
  remove_entry-IsKept name (ok e) h t =
      elim (Bool-cases (is_dir e.mode && not (is_empty (child_names name records)))) [
        | inl full ↦ rw full (t, refl)
        | inr free ↦ rw free (
          delete-IsTree records name e t (lookup-ok-load name records e h)
              (λ dir. empty-nil (child_names name records) (ground arith)),
          refl,
        )
      ]

  add_dir-IsKept :
      (name : Text) (perm : ℕ)
      → valid_path name ≡ true
      → load name records ≡ none
      → (text_eq name dot ≡ false → IsDirAt (parent name) records)
      → IsTree records
      → IsKept (ok tt, add_dir name perm records heap clock)
  add_dir-IsKept name perm good missing rooted t = (
    put-IsTree records name _ t good rooted
        (λ d at dir. absurd (some-ne-none d (sym at ∙ missing))),
    refl,
  )

  mkdir_spec-IsKept :
      (name : Text) (perm : ℕ)
      → ((d : Entry) → load (parent name) records ≡ some d → is_dir d.mode ≡ true)
      → IsTree records
      → IsKept (mkdir_spec records heap clock name perm)
  mkdir_spec-IsKept name perm above t = elim (Bool-cases (valid_path name)) [
    | inr bad ↦ rw bad (t, refl)
    | inl good ↦ elim (Option-cases (load name records)) [
      | inr (e, there) ↦ rw (good, there) (t, refl)
      | inl missing ↦ elim (Bool-cases (text_eq name dot)) [
        | inl root ↦
            rw (good, missing, root)
              (add_dir-IsKept name perm good missing
                (λ below. absurd (false≢true (sym below ∙ root))) t)
        | inr below ↦ elim (Option-cases (load (parent name) records)) [
          | inl orphan ↦ rw (good, missing, below, orphan) (t, refl)
          | inr (d, there) ↦
              rw (good, missing, below, there)
                (add_dir-IsKept name perm good missing (λ _. (d, there, above d there)) t)
        ]
      ]
    ]
  ]

  -- On a tree, Mkdir below a directory, or below nothing, leaves a tree and an unlocked mutex.
  pub mkdir-IsKept :
      (name : Text) (perm : ℕ) (x : Result (Unit {0}) × Mem)
      → IsTree records
      → ((d : Entry) → load (parent name) records ≡ some d → is_dir d.mode ≡ true)
      → mkdir mem_store name perm (idle records heap clock) ≡ returns x
      → IsKept x
  mkdir-IsKept name perm x t above =
      returned IsKept _ _ x (mkdir-refines records heap clock name perm)
        (mkdir_spec-IsKept name perm above t)

  -- Remove on a tree leaves a tree and an unlocked mutex.
  pub remove-IsKept :
      (name : Text) (x : Result (Unit {0}) × Mem)
      → IsTree records
      → remove mem_store name (idle records heap clock) ≡ returns x
      → IsKept x
  remove-IsKept name x t =
      returned IsKept _ _ x (remove-refines records heap clock name)
        (remove_entry-IsKept name _ refl t)

  -- Chmod and Chtimes on a tree leave a tree and an unlocked mutex.
  pub chmod-chtimes-IsKept :
      (name : Text) (mode atime mtime : ℕ) (x y : Result (Unit {0}) × Mem)
      → IsTree records
      → chmod mem_store name mode (idle records heap clock) ≡ returns x
      → chtimes mem_store name atime mtime (idle records heap clock) ≡ returns y
      → IsKept x × IsKept y
  chmod-chtimes-IsKept name mode atime mtime x y t p q = (
    returned IsKept _ _ x (chmod-refines records heap clock name mode)
        (chmod_entry-IsKept name mode _ refl t) p,
    returned IsKept _ _ y (chtimes-refines records heap clock name atime mtime)
        (chtimes_entry-IsKept name mtime _ refl t) q,
  )

pub nothing-IsTree : IsTree []
unfolding load
nothing-IsTree = record {
  valid = λ p e there. absurd (some-ne-none e (sym there));
  parents = λ p e there. absurd (some-ne-none e (sym there));
}

-- NewFS over a new in-memory store makes the root directory, and leaves a tree.
pub new_fs-IsKept :
    (clock : ℕ)
    → (s : Mem) × (new_fs mem_store (new_store clock) ≡ returns (ok tt, s))
      × IsDirAt dot s.records
      × IsKept {A = Unit {0}} (ok tt, s)
unfolding new_store new_fs load valid_path text_eq
new_fs-IsKept clock =
    let records : List (Text × Entry) = [] in
    let heap : Heap = record { arrays = []; blobs = []; mutexes = 0 } in
    let s : Mem = add_dir dot 0o666 records heap clock in
    (
      s,
      rw (mkdir-refines records heap clock dot 0o666),
      (_, load-put dot _ records, dir_mode-is_dir 0o666),
      add_dir-IsKept records heap clock dot 0o666 refl refl
          (λ below. absurd (false≢true (sym below))) nothing-IsTree,
    )
