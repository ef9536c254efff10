-- ===== src/Cache/Stats.antt =====
-- The infos that the cache keeps, where the source does not change.
use hackpadfs.Base.{
  Text, text_eq, text_eq_sound, some, List, ◌∷◌, ◌≡◌, refl, ap, sym, ◌∙◌, arith, Bool-cases, inl,
  inr,
}
use hackpadfs.Errors.{Result, ok, err}
use hackpadfs.Fs.{FileInfo}
use hackpadfs.Cache.{ReadOnlyFs, Cached, load_info, source_stat, store_info}

-- The source is the same at every call: `answer` is what its Open, Stat and Close give for a name,
-- and they do not change the world.
module _ {W : Type 0} (fs : ReadOnlyFs W) (answer : Text → Result FileInfo)
    (steady : (name : Text) (w : W) → source_stat fs name w ≡ (answer name, w)) where
  -- Every info that is kept is the source's.
  pub record IsFaithful (infos : List (Text × FileInfo)) : Type 0 where
    pub known :
        (name : Text) (info : FileInfo) → load_info name infos ≡ some info → answer name ≡ ok info

  -- What Stat leaves.
  pub record Answered (name : Text) (c : Cached W) (x : Result FileInfo × Cached W) : Type 0 where
    pub value : x.0 ≡ answer name
    pub world : x.1.world ≡ c.world
    faithful : IsFaithful x.1.cache_info

  store_info-IsFaithful :
      (name : Text) (info : FileInfo) (infos : List (Text × FileInfo))
      → answer name ≡ ok info
      → IsFaithful infos
      → IsFaithful ((name, info) ∷ infos)
  unfolding load_info
  store_info-IsFaithful name info infos is faithful = record {
    known = λ q i there. elim (Bool-cases (text_eq name q)) [
      | inl same ↦
          let e : info ≡ i = ground arith in
          ap answer (sym (text_eq_sound name q same)) ∙ is ∙ ap (λ (x : FileInfo). ok x) e
      | inr other ↦ faithful.known q i (ground arith)
    ];
  }

  stored :
      (name : Text) (c : Cached W) (r : Result FileInfo)
      → answer name ≡ r
      → IsFaithful c.cache_info
      → Answered name c (store_info name (r, c))
  stored name c (ok info) is faithful = record {
    value = sym is;
    world = refl;
    faithful = store_info-IsFaithful name info c.cache_info is faithful;
  }
  stored name c (err e) is faithful = record { value = sym is; world = refl; faithful = faithful }
