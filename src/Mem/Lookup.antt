-- ===== src/Mem/Lookup.antt =====
-- A lookup of a name: not valid, not there, or there.
use hackpadfs.Base.{
  Text, Bool, true, false, none, some, List, ◌≡◌, ◌≢◌, refl, ap, sym, ◌∙◌, Bool-cases, Option-cases,
  inl, inr, ◌⊎◌,
}
use mathlib.Core.Bool.{false≢true}
use hackpadfs.Errors.{Error, sentinel, err_invalid, err_not_exist, Result, ok, err}
use hackpadfs.FilePath.{valid_path}
use hackpadfs.Mem.{Entry, load}
use hackpadfs.Mem.Calls.{lookup}

pub Result-cases :
    {A : Type 0} (r : Result A) → ((e : Error) × (r ≡ err e)) ⊎ ((a : A) × (r ≡ ok a))
Result-cases (ok a) = inr (a, refl)
Result-cases (err e) = inl (e, refl)

is_ok : {A : Type 0} → Result A → Bool
is_ok (ok a) = true
is_ok (err e) = false

err-ne-ok : {A : Type 0} (e : Error) (a : A) → err e ≢ ok a
unfolding is_ok
err-ne-ok e a h = false≢true (ap is_ok h)

pub lookup-of_invalid :
    (path : Text) (records : List (Text × Entry))
    → valid_path path ≡ false
    → lookup path records ≡ err (sentinel err_invalid)
unfolding lookup
lookup-of_invalid path records bad = rw bad

pub lookup-of_none :
    (path : Text) (records : List (Text × Entry))
    → valid_path path ≡ true
    → load path records ≡ none
    → lookup path records ≡ err (sentinel err_not_exist)
unfolding lookup
lookup-of_none path records good missing = rw (good, missing)

pub lookup-of_some :
    (path : Text) (records : List (Text × Entry)) (e : Entry)
    → valid_path path ≡ true
    → load path records ≡ some e
    → lookup path records ≡ ok e
unfolding lookup
lookup-of_some path records e good there = rw (good, there)

pub lookup-ok-valid :
    (path : Text) (records : List (Text × Entry)) (e : Entry)
    → lookup path records ≡ ok e
    → valid_path path ≡ true
unfolding lookup
lookup-ok-valid path records e h = elim (Bool-cases (valid_path path)) [
  | inl good ↦ good
  | inr bad ↦ absurd (err-ne-ok _ e (rw bad at h))
]

ok_or : Entry → Result Entry → Entry
ok_or d (ok e) = e
ok_or d (err x) = d

pub lookup-ok-load :
    (path : Text) (records : List (Text × Entry)) (e : Entry)
    → lookup path records ≡ ok e
    → load path records ≡ some e
unfolding ok_or
lookup-ok-load path records e h =
    let good = lookup-ok-valid path records e h in
    elim (Option-cases (load path records)) [
      | inl missing ↦ absurd (err-ne-ok _ e (sym (lookup-of_none path records good missing) ∙ h))
      | inr (d, there) ↦
          there ∙ ap (λ r. some (ok_or d r)) (sym (lookup-of_some path records d good there) ∙ h)
    ]
