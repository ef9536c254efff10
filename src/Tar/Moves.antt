-- ===== src/Tar/Moves.antt =====
-- Every step of Emit and Wait keeps the invariant.
use hackpadfs.Base.{
  ℕ, Text, text_eq, text_eq_sound, text_eq_refl, true, false, ◌||◌, List, ◌∷◌, ◌++◌, ◌≡◌, refl, ap,
  sym, ◌∙◌, arith, Bool-cases, inl, inr,
}
use hackpadfs.Tar.PubSub.{
  outside, checked, subscribed, returned, PubSub, is_in, is_listed, subscribers_of, without, update,
  emit, cancel, wait_check, wait_subscribe, can_return, Step, emits, cancels, ends, checks,
  subscribes, returns,
}
use hackpadfs.Tar.Invariant.{
  Inv, subscribed_to, is_listed-append, subscribers_of-listed, without-same, without-other,
}

module _ {p : PubSub} (v : Inv p) where
  emit-Inv : (key : Text) → Inv (emit key p)
  unfolding emit is_in
  emit-Inv key = record {
    kept = λ i q e. elim (Bool-cases (text_eq key q)) [
      | inl same ↦
          let k = text_eq_sound key q same in
          rw (← k) (
            ground (
              arith,
              v.kept i key (rw k e),
              is_listed-append i (subscribers_of key p.subscribers) p.canceling,
              subscribers_of-listed i key p.subscribers,
            ))
      | inr other ↦ ground (
        arith,
        v.kept i q e,
        is_listed-append i (subscribers_of key p.subscribers) p.canceling,
        without-other i key q p.subscribers other,
      )
    ];
    fresh = λ i q e. elim (Bool-cases (text_eq key q)) [
      | inl same ↦ rw (← text_eq_sound key q same) (without-same i key p.subscribers)
      | inr other ↦ ground (arith, v.fresh i q, without-other i key q p.subscribers other)
    ];
    own = λ i q e. elim (Bool-cases (text_eq key q)) [
      | inl same ↦ absurd (
          ground (
            arith,
            without-same i key p.subscribers,
            ap (λ t. subscribed_to i t (without key p.subscribers)) (text_eq_sound key q same),
          ))
      | inr other ↦ ground (arith, v.own i q, without-other i key q p.subscribers other)
    ];
    emitted = λ i e. elim (Bool-cases (subscribed_to i key p.subscribers)) [
      | inl is ↦ (key, v.own i key is, ground (arith, text_eq_refl key))
      | inr not_it ↦
          let (k, w, seen) = v.emitted i (
            ground (
              arith,
              is_listed-append i (subscribers_of key p.subscribers) p.canceling,
              subscribers_of-listed i key p.subscribers,
            )) in
          (k, w, ground arith)
    ];
    early = λ i q e. ground (arith, v.early i q e);
  }

  cancel-same :
      (before : List ℕ) (i j : ℕ) (after : List ℕ)
      → p.canceling ≡ before ++ (i ∷ after)
      → (is_listed j (before ++ after) || update p.canceled i true j)
        ≡ (is_listed j p.canceling || p.canceled j)
  unfolding is_listed
  cancel-same before i j after e =
      rw e (ground (arith, is_listed-append j before after, is_listed-append j before (i ∷ after)))

  cancel-Inv :
      (before : List ℕ) (i : ℕ) (after : List ℕ)
      → p.canceling ≡ before ++ (i ∷ after)
      → Inv (cancel before i after p)
  unfolding cancel
  cancel-Inv before i after e = record {
    kept = λ j q w. ground (arith, v.kept j q w, cancel-same before i j after e);
    fresh = v.fresh;
    own = v.own;
    emitted = λ j w. v.emitted j (sym (cancel-same before i j after e) ∙ w);
    early = v.early;
  }

  check-Inv : (i : ℕ) (key : Text) → p.phase i ≡ outside → Inv (wait_check i key p)
  unfolding wait_check
  check-Inv i key out = record {
    kept = λ j q w. v.kept j q (ground arith);
    fresh = v.fresh;
    own = λ j q w. ground (arith, v.own j q w);
    emitted = λ j w. let (k, w', seen) = v.emitted j w in (k, ground arith, seen);
    early = λ j q w. ground (arith, v.early j q);
  }

  -- A call that finds its key emitted returns.
  found-Inv :
      (i : ℕ) (key : Text)
      → p.phase i ≡ checked key
      → is_in key p.visited ≡ true
      → Inv (record p { phase = update p.phase i (returned key) })
  found-Inv i key at seen = record {
    kept = λ j q w. v.kept j q (ground arith);
    fresh = v.fresh;
    own = λ j q w. ground (arith, v.own j q w);
    emitted = λ j w. let (k, w', seen') = v.emitted j w in (k, ground arith, seen');
    early = λ j q w. ground (arith, v.early j q);
  }

  subscribe-Inv :
      (i : ℕ) (key : Text)
      → p.phase i ≡ checked key
      → is_in key p.visited ≡ false
      → Inv (record p {
        subscribers = (key, i) ∷ p.subscribers;
        phase = update p.phase i (subscribed key);
      })
  unfolding subscribed_to
  subscribe-Inv i key at unseen = record {
    kept = λ j q w. ground (arith, v.kept j q, text_eq_refl key);
    fresh = λ j q w. ground (arith, v.fresh j q w, text_eq_sound key q);
    own = λ j q w. ground (arith, v.own j q, text_eq_sound key q);
    emitted = λ j w. let (k, w', seen') = v.emitted j w in (k, ground arith, seen');
    early = λ j q w. ground (arith, v.early j q);
  }

  return-Inv :
      (i : ℕ) (key : Text)
      → p.phase i ≡ subscribed key
      → can_return i p ≡ true
      → Inv (record p { phase = update p.phase i (returned key) })
  unfolding can_return
  return-Inv i key at free = record {
    kept = λ j q w. v.kept j q (ground arith);
    fresh = v.fresh;
    own = λ j q w. ground (arith, v.own j q w);
    emitted = λ j w. let (k, w', seen') = v.emitted j w in (k, ground arith, seen');
    early = λ j q w. elim (Bool-cases (p.canceled i)) [
      | inl done ↦ let (k, w', seen) = v.emitted i (ground arith) in ground (arith, v.early j q)
      | inr still ↦ ground (arith, v.early j q)
    ];
  }

  pub Step-Inv : {q : PubSub} → Step p q → Inv q
  unfolding wait_subscribe
  Step-Inv (emits key) = emit-Inv key
  Step-Inv (cancels before i after e) = cancel-Inv before i after e
  Step-Inv ends = record {
    kept = v.kept;
    fresh = v.fresh;
    own = v.own;
    emitted = v.emitted;
    early = λ j q w. refl;
  }
  Step-Inv (checks i key out) = check-Inv i key out
  Step-Inv (subscribes i key at) = elim (Bool-cases (is_in key p.visited)) [
    | inl seen ↦ rw seen (found-Inv i key at seen)
    | inr unseen ↦ rw unseen (subscribe-Inv i key at unseen)
  ]
  Step-Inv (returns i key at free) = return-Inv i key at free
