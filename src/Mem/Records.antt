-- ===== src/Mem/Records.antt =====
-- The records of a store: what is loaded after a Store or a Delete.
use hackpadfs.Base.{
  Text, text_eq, text_eq_sound, text_eq_refl, false, none, some, List, [], ◌∷◌, ◌≡◌, refl, sym, ap,
  if◌then◌else◌, Bool-cases, inl, inr, subst,
}
use hackpadfs.Mem.{Entry, load, delete, put}

-- Nothing is left at a path that was deleted.
pub load-delete : (p : Text) (records : List (Text × Entry)) → load p (delete p records) ≡ none
unfolding load delete
load-delete p [] = refl
load-delete p ((q, e) ∷ records) = elim (Bool-cases (text_eq q p)) [
  | inl same ↦ rw same (load-delete p records)
  | inr other ↦ rw (other, other) (load-delete p records)
]

-- A deletion leaves the other paths alone.
pub load-delete-other :
    (p q : Text) (records : List (Text × Entry))
    → text_eq p q ≡ false
    → load q (delete p records) ≡ load q records
unfolding load delete
load-delete-other p q [] h = refl
load-delete-other p q ((r, e) ∷ records) h = elim (Bool-cases (text_eq r p)) [
  | inl same ↦
      rw (same, subst (λ x. text_eq x q ≡ false) (sym (text_eq_sound r p same)) h)
        (load-delete-other p q records h)
  | inr other ↦
      rw other (ap (λ x. if text_eq r q then some e else x) (load-delete-other p q records h))
]

pub load-put :
    (p : Text) (e : Entry) (records : List (Text × Entry)) → load p (put p e records) ≡ some e
unfolding load put
load-put p e records = rw (text_eq_refl p)

pub load-put-other :
    (p q : Text) (e : Entry) (records : List (Text × Entry))
    → text_eq p q ≡ false
    → load q (put p e records) ≡ load q records
unfolding load put
load-put-other p q e records h = rw h (load-delete-other p q records h)
