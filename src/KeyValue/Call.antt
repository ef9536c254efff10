-- ===== src/KeyValue/Call.antt =====
-- A call of package keyvalue: it returns a value or an error and changes the store's state, or
-- it panics, or it waits forever.
use hackpadfs.Errors.{Error, Result, ok, err}
use hackpadfs.Blob.{Outcome, returns, panics, blocks}

abbrev pub Call : Type 0 → Type 0 → Type 0
Call S A = S → Outcome (Result A × S)

module _ {S : Type 0} where
  abbrev pub pure : {A : Type 0} → A → Call S A
  pure a s = returns (ok a, s)

  abbrev pub fail : {A : Type 0} → Error → Call S A
  fail e s = returns (err e, s)

  abbrev pub crash : {A : Type 0} → Call S A
  crash s = panics

  -- What follows a call, for a value and for an error.
  abbrev pub either :
      {A B : Type 0}
      → (A → Call S B)
      → (Error → Call S B)
      → Outcome (Result A × S)
      → Outcome (Result B × S)
  either f g (returns (ok a, s)) = f a s
  either f g (returns (err e, s)) = g e s
  either f g panics = panics
  either f g blocks = blocks

  -- A call and both ways on.
  abbrev pub try : {A B : Type 0} → Call S A → (A → Call S B) → (Error → Call S B) → Call S B
  try m f g s = either f g (m s)

  infixl 5 ◌>>=◌ ◌>>◌
  abbrev pub ◌>>=◌ : {A B : Type 0} → Call S A → (A → Call S B) → Call S B
  m >>= f = try m f fail

  abbrev pub ◌>>◌ : {B : Type 0} → Call S (Unit {0}) → Call S B → Call S B
  m >> k = m >>= λ _. k
