-- ===== src/Fs/MadeDirs.antt =====
-- What MkdirAll of fs.go does with the ancestors of a path, errors included.
use hackpadfs.Base.{
  ℕ, String, Bool, Text, true, false, none, List, [], ◌∷◌, ◌≡◌, refl, ap, subst, sym, ◌∙◌,
  Bool-cases, inl, inr,
}
use hackpadfs.Modes.{is_dir}
use hackpadfs.Errors.{
  link_error, message_error, text_error, errno, mapped_error, Error, err_exist, err_not_dir,
  is_error, sentinel, path_error, Result, ok, err,
}
use hackpadfs.FilePath.{valid_path}
use hackpadfs.FilePath.Names.{names}
use hackpadfs.Fs.{FileInfo, ◌>>=◌, ◌>>◌, Ops, plain}
use hackpadfs.Fs.Dispatch.{mkdir, stat}
use hackpadfs.Fs.Trees.{made_before, mkdir_all}
use hackpadfs.Fs.TreeLaws.{
  ancestors_down, make_each, make_ancestors-names, mkdir_all-fallback, same_function,
}

module _ {W : Type 0} (o : Ops W) where
  -- An error of Mkdir after which MkdirAll looks for a directory.
  abbrev is_there : Error → Bool
  is_there (path_error op q cause) = is_error (path_error op q cause) err_exist
  is_there _ = false

  -- What MkdirAll promises of its ancestors: each is made by Mkdir; or Mkdir says that it exists, and
  -- Stat finds a directory at the path of that error; or the first other one ends it, with the error
  -- of Mkdir, or with "not a directory" where Stat finds something else.
  pub data Made (perm : ℕ) : List Text → W → Result (Unit {0}) × W → Type 0 where
    all_made : (w : W) → Made perm [] w (ok tt, w)
    made :
        (p : Text) (ps : List Text) (w w1 : W) (x : Result (Unit {0}) × W)
        → mkdir (plain o) p perm w ≡ (ok tt, w1)
        → Made perm ps w1 x
        → Made perm (p ∷ ps) w x
    there :
        (p : Text) (ps : List Text) (w w1 w2 : W) (x : Result (Unit {0}) × W) (op : String)
        (q : Text) (cause : Error) (info : FileInfo)
        → mkdir (plain o) p perm w ≡ (err (path_error op q cause), w1)
        → is_error (path_error op q cause) err_exist ≡ true
        → stat (plain o) q w1 ≡ (ok info, w2)
        → is_dir info.mode ≡ true
        → Made perm ps w2 x
        → Made perm (p ∷ ps) w x
    no_dir :
        (p : Text) (ps : List Text) (w w1 w2 : W) (op : String) (q : Text) (cause : Error)
        (info : FileInfo)
        → mkdir (plain o) p perm w ≡ (err (path_error op q cause), w1)
        → is_error (path_error op q cause) err_exist ≡ true
        → stat (plain o) q w1 ≡ (ok info, w2)
        → is_dir info.mode ≡ false
        → Made perm (p ∷ ps) w (err (path_error "mkdir" q (sentinel err_not_dir)), w2)
    no_stat :
        (p : Text) (ps : List Text) (w w1 w2 : W) (op : String) (q : Text) (cause e : Error)
        → mkdir (plain o) p perm w ≡ (err (path_error op q cause), w1)
        → is_error (path_error op q cause) err_exist ≡ true
        → stat (plain o) q w1 ≡ (err e, w2)
        → Made perm (p ∷ ps) w (err (path_error op q cause), w2)
    fails :
        (p : Text) (ps : List Text) (w w1 : W) (e : Error)
        → mkdir (plain o) p perm w ≡ (err e, w1)
        → is_there e ≡ false
        → Made perm (p ∷ ps) w (err e, w1)

  module _ (op : String) (q : Text) (cause : Error) (w1 w2 : W) where
    before_dir :
        (info : FileInfo)
        → is_error (path_error op q cause) err_exist ≡ true
        → stat (plain o) q w1 ≡ (ok info, w2)
        → is_dir info.mode ≡ true
        → made_before o (path_error op q cause) w1 ≡ (ok tt, w2)
    unfolding made_before
    before_dir info exists at dir = rw (exists, at, dir, at)

    before_other :
        (info : FileInfo)
        → is_error (path_error op q cause) err_exist ≡ true
        → stat (plain o) q w1 ≡ (ok info, w2)
        → is_dir info.mode ≡ false
        → made_before o (path_error op q cause) w1
          ≡ (err (path_error "mkdir" q (sentinel err_not_dir)), w2)
    unfolding made_before
    before_other info exists at other = rw (exists, at, other, at)

    before_no_stat :
        (e : Error)
        → is_error (path_error op q cause) err_exist ≡ true
        → stat (plain o) q w1 ≡ (err e, w2)
        → made_before o (path_error op q cause) w1 ≡ (err (path_error op q cause), w2)
    unfolding made_before
    before_no_stat e exists at = rw (exists, at, at)

  before_fails : (e : Error) (w1 : W) → is_there e ≡ false → made_before o e w1 ≡ (err e, w1)
  unfolding made_before
  before_fails (path_error op q cause) w1 h = rw h
  before_fails (sentinel x) w1 h = refl
  before_fails (link_error a b c d) w1 h = refl
  before_fails (message_error a b) w1 h = refl
  before_fails (text_error a) w1 h = refl
  before_fails (errno n) w1 h = refl
  before_fails (mapped_error a b) w1 h = refl

  after_error : List Text → ℕ → Result (Unit {0}) × W → Result (Unit {0}) × W
  after_error ps perm (ok _, w) = make_each o ps perm w
  after_error ps perm (err e, w) = (err e, w)

  bind_after :
      (ps : List Text) (perm : ℕ) (q : Result (Unit {0}) × W) (w : W)
      → ((λ x. q) >>= λ _. make_each o ps perm) w ≡ after_error ps perm q
  unfolding after_error
  bind_after ps perm (ok _, w1) w = refl
  bind_after ps perm (err e, w1) w = refl

  make_each-made :
      (p : Text) (ps : List Text) (perm : ℕ) (w w1 : W)
      → mkdir (plain o) p perm w ≡ (ok tt, w1)
      → make_each o (p ∷ ps) perm w ≡ make_each o ps perm w1
  unfolding make_each
  make_each-made p ps perm w w1 h = rw (make_each, h, h)

  make_each-failed :
      (p : Text) (ps : List Text) (perm : ℕ) (w w1 : W) (e : Error)
      → mkdir (plain o) p perm w ≡ (err e, w1)
      → make_each o (p ∷ ps) perm w ≡ after_error ps perm (made_before o e w1)
  unfolding make_each
  make_each-failed p ps perm w w1 e h =
      rw (make_each, h, h) (bind_after ps perm (made_before o e w1) w1)

  module _ (p : Text) (ps : List Text) (perm : ℕ) (w : W)
      (rest : (w' : W) → Made perm ps w' (make_each o ps perm w')) where
    after_stat :
        (w1 w2 : W) (op : String) (q : Text) (cause : Error) (found : Result FileInfo)
        → mkdir (plain o) p perm w ≡ (err (path_error op q cause), w1)
        → is_error (path_error op q cause) err_exist ≡ true
        → stat (plain o) q w1 ≡ (found, w2)
        → Made perm (p ∷ ps) w (after_error ps perm (made_before o (path_error op q cause) w1))
    unfolding after_error
    after_stat w1 w2 op q cause (err e) h exists at =
        rw (before_no_stat op q cause w1 w2 e exists at)
          (no_stat p ps w w1 w2 op q cause e h exists at)
    after_stat w1 w2 op q cause (ok info) h exists at = elim (Bool-cases (is_dir info.mode)) [
      | inl dir ↦
          rw (before_dir op q cause w1 w2 info exists at dir)
            (there p ps w w1 w2 (make_each o ps perm w2) op q cause info h exists at dir (rest w2))
      | inr other ↦
          rw (before_other op q cause w1 w2 info exists at other)
            (no_dir p ps w w1 w2 op q cause info h exists at other)
    ]

    after_failure :
        (w1 : W) (e : Error)
        → mkdir (plain o) p perm w ≡ (err e, w1)
        → is_there e ≡ false
        → Made perm (p ∷ ps) w (after_error ps perm (made_before o e w1))
    unfolding after_error
    after_failure w1 e h other = rw (before_fails e w1 other) (fails p ps w w1 e h other)

    after_mkdir :
        (w1 : W) (e : Error)
        → mkdir (plain o) p perm w ≡ (err e, w1)
        → Made perm (p ∷ ps) w (after_error ps perm (made_before o e w1))
    after_mkdir w1 (path_error op q cause) h =
        elim (Bool-cases (is_error (path_error op q cause) err_exist)) [
          | inl exists ↦
              after_stat w1 (stat (plain o) q w1).1 op q cause (stat (plain o) q w1).0 h exists refl
          | inr other ↦ after_failure w1 (path_error op q cause) h other
        ]
    after_mkdir w1 (sentinel x) h = after_failure w1 _ h refl
    after_mkdir w1 (link_error a b c d) h = after_failure w1 _ h refl
    after_mkdir w1 (message_error a b) h = after_failure w1 _ h refl
    after_mkdir w1 (text_error a) h = after_failure w1 _ h refl
    after_mkdir w1 (errno n) h = after_failure w1 _ h refl
    after_mkdir w1 (mapped_error a b) h = after_failure w1 _ h refl

    step-Made :
        (r : Result (Unit {0}) × W)
        → mkdir (plain o) p perm w ≡ r
        → Made perm (p ∷ ps) w (make_each o (p ∷ ps) perm w)
    step-Made (ok _, w1) h =
        subst (Made perm (p ∷ ps) w) (sym (make_each-made p ps perm w w1 h))
          (made p ps w w1 (make_each o ps perm w1) h (rest w1))
    step-Made (err e, w1) h =
        subst (Made perm (p ∷ ps) w) (sym (make_each-failed p ps perm w w1 e h))
          (after_mkdir w1 e h)

  make_each-Made : (ps : List Text) (perm : ℕ) (w : W) → Made perm ps w (make_each o ps perm w)
  make_each-Made [] perm w = unfold make_each in all_made w
  make_each-Made (p ∷ ps) perm w =
      step-Made p ps perm w (make_each-Made ps perm) (mkdir (plain o) p perm w) refl

  -- The path itself, after its ancestors.
  abbrev pub then_mkdir : Text → ℕ → Result (Unit {0}) × W → Result (Unit {0}) × W
  then_mkdir p perm (ok _, w) = mkdir (plain o) p perm w
  then_mkdir p perm (err e, w) = (err e, w)

  then_mkdir-seq :
      (p : Text) (perm : ℕ) (q : Result (Unit {0}) × W) (w : W)
      → ((λ x. q) >> mkdir (plain o) p perm) w ≡ then_mkdir p perm q
  then_mkdir-seq p perm (ok _, w1) w = refl
  then_mkdir-seq p perm (err e, w1) w = refl

  -- Where a file system that is no MountFS has no MkdirAll of its own, MkdirAll of a valid path makes
  -- the ancestors of the path below the root, each once and from the top down, and then the path
  -- itself. An ancestor of which Mkdir says that it exists and Stat that it is a directory is passed
  -- over; the first other error ends it, with the error of Mkdir, or with "not a directory" where Stat
  -- finds something else.
  pub mkdir_all-names :
      (p : Text) (perm : ℕ) (w : W)
      → valid_path p ≡ true
      → o.mkdir_all ≡ none
      → (x : Result (Unit {0}) × W) × Made perm (ancestors_down [] (names p)) w x
        × (mkdir_all (plain o) p perm w ≡ then_mkdir p perm x)
  mkdir_all-names p perm w h k =
      let ps = ancestors_down [] (names p) in
      (
        make_each o ps perm w,
        make_each-Made ps perm w,
        mkdir_all-fallback o p perm w h k
            ∙ ap (λ (x : W → Result (Unit {0}) × W). (x >> mkdir (plain o) p perm) w)
                (same_function _ _ (make_ancestors-names o p perm))
            ∙ then_mkdir-seq p perm (make_each o ps perm w) w,
      )
