-- ===== src/Mount/Resolve.antt =====
-- mountPoint finds the longest mount that covers a path, whatever the order of the visits.
use hackpadfs.Base.{
  ◌≤◌, Text, text_eq, text_eq_sound, has_prefix-split, Bool, true, false, ◌||◌, [], ◌∷◌, ◌++◌, ◌≡◌,
  ◌≢◌, refl, ap, sym, ◌∙◌, arith, ltb, if◌then◌else◌, length, take, length-append, Bool-cases, ◌⊎◌,
  inl, inr, append_assoc, append-nil, subst,
}
use native.Mathlib.Nat.{le_trans}
use hackpadfs.FilePath.{slash}
use hackpadfs.Fs.{Fs}
use hackpadfs.Mount.{Mounts, below, range_mounts}

-- The mount path is the path itself, or the path lies below it.
abbrev pub covers : Text → Text → Bool
covers path mount_path = below path mount_path || text_eq mount_path path

-- A path that is covered is the mount path and a rest.
covers-split : (path m : Text) → covers path m ≡ true → (r : Text) × (path ≡ m ++ r)
covers-split path m h = elim (Bool-cases (below path m)) [
  | inl b ↦
      let (r, e) = has_prefix-split path (m ++ (slash ∷ [])) b in
      (slash ∷ r, e ∙ append_assoc m (slash ∷ []) r)
  | inr b ↦ ([], sym (text_eq_sound m path (ground arith)) ∙ sym (append-nil m))
]

take_append : (m r : Text) → take (length m) (m ++ r) ≡ m
take_append [] r = refl
take_append (c ∷ m) r = ap (λ t. c ∷ t) (take_append m r)

pub covers-take : (path m : Text) → covers path m ≡ true → take (length m) path ≡ m
covers-take path m h =
    let (r, e) = covers-split path m h in ap (take (length m)) e ∙ take_append m r

covers-length : (path m : Text) → covers path m ≡ true → length m ≤ length path
covers-length path m h =
    let (r, e) = covers-split path m h in omega (arith, ap length e, length-append m r)

length-zero : (t : Text) → length t ≤ 0 → t ≡ []
length-zero [] h = refl
length-zero (c ∷ t) h = absurd (omega arith)

module _ {W : Type 0} where
  -- Membership among the mounts.
  abbrev pub In : Text × Fs W → Mounts W → Type 0
  In x [] = ⊥
  In x (y ∷ ys) = (x ≡ y) ⊎ In x ys

  -- A mount that covers the path and is at least as long as every other that does.
  pub record IsLongest (path : Text) (mounts : Mounts W) (best : Text × Fs W) : Type 0 where
    pub covering : covers path best.0 ≡ true
    pub member : In best mounts
    pub longest :
        (x : Text × Fs W) → In x mounts → covers path x.0 ≡ true → length x.0 ≤ length best.0

  -- The loop keeps what it was given, or finds a mount that covers the path.
  record Visited (path : Text) (mounts : Mounts W) (best found : Text × Fs W) : Type 0 where
    kept : (found ≡ best) ⊎ ((covers path found.0 ≡ true) × In found mounts)
    longest : (x : Text × Fs W) → In x mounts → covers path x.0 ≡ true → length x.0 ≤ length found.0
    grown : length best.0 ≤ length found.0

  -- The new mount becomes the best.
  Visited-taken :
      (path : Text) (mounts : Mounts W) (x best found : Text × Fs W)
      → covers path x.0 ≡ true
      → length best.0 ≤ length x.0
      → Visited path mounts x found
      → Visited path (x ∷ mounts) best found
  Visited-taken path mounts x best found c h v = record {
    kept = elim v.kept [
      | inl e ↦ inr (subst (λ (y : Text × Fs W). covers path y.0 ≡ true) (sym e) c, inl e)
      | inr (k, m) ↦ inr (k, inr m)
    ];
    longest = λ y m k. elim m [
      | inl e ↦ subst (λ (z : Text × Fs W). length z.0 ≤ length found.0) (sym e) v.grown
      | inr m' ↦ v.longest y m' k
    ];
    grown = omega (arith, v.grown);
  }

  -- The mount is passed over: it does not cover the path, or is no longer than the best.
  Visited-passed :
      (path : Text) (mounts : Mounts W) (x best found : Text × Fs W)
      → (covers path x.0 ≡ true → length x.0 ≤ length best.0)
      → Visited path mounts best found
      → Visited path (x ∷ mounts) best found
  Visited-passed path mounts x best found h v = record {
    kept = elim v.kept [ inl e ↦ inl e | inr (k, m) ↦ inr (k, inr m) ];
    longest = λ y m k. elim m [
      | inl e ↦
          subst (λ (z : Text × Fs W). covers path z.0 ≡ true → length z.0 ≤ length found.0) (sym e)
            (λ c. le_trans (h c) v.grown) k
      | inr m' ↦ v.longest y m' k
    ];
    grown = v.grown;
  }

  range_mounts-below :
      (path m : Text) (fs : Fs W) (mounts : Mounts W) (best : Text × Fs W)
      → below path m ≡ true
      → range_mounts path ((m, fs) ∷ mounts) best
        ≡ range_mounts path mounts (if ltb (length best.0) (length m) then (m, fs) else best)
  unfolding range_mounts
  range_mounts-below path m fs mounts best e = rw (e, range_mounts)

  pub range_mounts_apart :
      (path m : Text) (fs : Fs W) (mounts : Mounts W) (best : Text × Fs W)
      → below path m ≡ false
      → range_mounts path ((m, fs) ∷ mounts) best
        ≡ (if text_eq m path then (m, fs) else range_mounts path mounts best)
  unfolding range_mounts
  range_mounts_apart path m fs mounts best e = elim (Bool-cases (text_eq m path)) [
    | inl same ↦ rw (e, range_mounts) (rw (same, range_mounts))
    | inr differs ↦ rw (e, range_mounts) (rw (differs, range_mounts))
  ]

  -- An exact match ends the visits: no mount that covers the path is longer.
  Visited-exact :
      (path : Text) (mounts : Mounts W) (x best : Text × Fs W)
      → text_eq x.0 path ≡ true
      → length best.0 ≤ length path
      → Visited path (x ∷ mounts) best x
  Visited-exact path mounts x best same h =
      let e = text_eq_sound x.0 path same in
      record {
        kept = inr (ground arith, inl refl);
        longest = λ y m c. subst (λ t. length y.0 ≤ length t) (sym e) (covers-length path y.0 c);
        grown = subst (λ t. length best.0 ≤ length t) (sym e) h;
      }

  range_mounts-Visited :
      (path : Text) (mounts : Mounts W) (best : Text × Fs W)
      → length best.0 ≤ length path
      → Visited path mounts best (range_mounts path mounts best)
  range_mounts-Visited path [] best h =
      unfold range_mounts in
      record { kept = inl refl; longest = λ x m c. absurd m; grown = omega arith }
  range_mounts-Visited path ((m, fs) ∷ mounts) best h =
      let taken = range_mounts-Visited path mounts (m, fs) in
      let passed = range_mounts-Visited path mounts best h in
      elim (Bool-cases (below path m)) [
        | inl under ↦ elim (Bool-cases (ltb (length best.0) (length m))) [
          | inl longer ↦
              rw (range_mounts-below path m fs mounts best under, longer)
                (Visited-taken path mounts (m, fs) best _ (rw under) (ground arith)
                  (taken (covers-length path m (rw under))))
          | inr shorter ↦
              rw (range_mounts-below path m fs mounts best under, shorter)
                (Visited-passed path mounts (m, fs) best _ (λ c. ground arith) passed)
        ]
        | inr apart ↦ elim (Bool-cases (text_eq m path)) [
          | inl same ↦
              rw (range_mounts_apart path m fs mounts best apart, same)
                (Visited-exact path mounts (m, fs) best same h)
          | inr differs ↦
              rw (range_mounts_apart path m fs mounts best apart, differs)
                (Visited-passed path mounts (m, fs) best _ (λ c. absurd (ground arith)) passed)
        ]
      ]

  -- The loop as mountPoint starts it: it finds nothing and no mount covers the path, or it finds
  -- the longest mount that does.
  pub range_mounts_found :
      (root : Fs W) (path : Text) (mounts : Mounts W)
      → ((x : Text × Fs W) → In x mounts → x.0 ≢ [])
      → let found = range_mounts path mounts ([], root) in
        (((x : Text × Fs W) → In x mounts → covers path x.0 ≡ false) × (found ≡ ([], root)))
        ⊎ IsLongest path mounts found
  range_mounts_found root path mounts named =
      let v = range_mounts-Visited path mounts ([], root) (omega arith) in
      elim v.kept [
        | inl e ↦ inl ((λ x m. uncovered v.longest e x m), e)
        | inr (c, m) ↦ inr (record { covering = c; member = m; longest = v.longest })
      ]
    where
      uncovered :
          ((x : Text × Fs W)
            → In x mounts
            → covers path x.0 ≡ true
            → length x.0 ≤ length (range_mounts path mounts ([], root)).0)
          → range_mounts path mounts ([], root) ≡ ([], root)
          → (x : Text × Fs W) → In x mounts
          → covers path x.0 ≡ false
      uncovered longest e x m = elim (Bool-cases (covers path x.0)) [
        | inr no_cover ↦ no_cover
        | inl c ↦ absurd (
            named x m (
              length-zero x.0
                (subst (λ (f : Text × Fs W). length x.0 ≤ length f.0) e (longest x m c))))
      ]
