-- ===== src/Mem/Children.antt =====
-- fileRecord.ReadDirNames of mem/store.go and the children of a directory.
use hackpadfs.Base.{
  Text, text_eq, text_eq_sound, text_eq_refl, text_eq_iff, has_prefix, has_prefix-append,
  trim_prefix-append, true, false, not, Option, none, some, List, [], ◌∷◌, ◌++◌, ◌≡◌, ◌≢◌, refl, ap,
  sym, ◌∙◌, arith, if◌then◌else◌, Bool-cases, inl, inr, ◌⊎◌, all, all-append, subst, append_assoc,
  and_true,
}
use mathlib.Core.Bool.{false≢true}
use hackpadfs.FilePath.{slash, dot, valid_path, join_elems}
use hackpadfs.FilePath.Elems.{lacks_slash, join_elems-append}
use hackpadfs.FilePath.Names.{
  is_name, AreNames, AreNames-parts, path_of, path_of-ne-dot, names, path_of-names,
}
use hackpadfs.FilePath.Join.{AreNames-names}
use hackpadfs.FilePath.Parent.{init, init-snoc, parent}
use hackpadfs.Mem.{Entry, load, has_slash, child_name, add_child, child_names}

pub has_slash-lacks : (s : Text) → has_slash s ≡ not (lacks_slash s)
unfolding has_slash lacks_slash
has_slash-lacks [] = refl
has_slash-lacks (c ∷ s) = ground (arith, has_slash-lacks s)

-- The last name of a path below the root.
path_of-one : (m : Text) → path_of (m ∷ []) ≡ m
unfolding path_of join_elems
path_of-one m = refl

path_of-snoc :
    (n : Text) (ns : List Text) (m : Text)
    → path_of (n ∷ (ns ++ (m ∷ []))) ≡ (path_of (n ∷ ns) ++ (slash ∷ [])) ++ m
unfolding path_of join_elems
path_of-snoc n ns m =
    join_elems-append n m ns [] ∙ sym (append_assoc (path_of (n ∷ ns)) (slash ∷ []) m)

nil-append : (s : Text) → has_prefix s [] ≡ true
nil-append s = has_prefix-append [] s

text_eq-name-dot : (m : Text) → AreNames (m ∷ []) → text_eq m dot ≡ false
text_eq-name-dot m h = subst (λ x. text_eq x dot ≡ false) (path_of-one m) (path_of-ne-dot m [] h)

has_slash-name : (m : Text) → AreNames (m ∷ []) → has_slash m ≡ false
has_slash-name m h = ground (arith, has_slash-lacks m, (AreNames-parts (m ∷ []) h).2)

-- A path that is a directory's path and a name behind it is a child of the directory.
pub child_name-snoc :
    (ns : List Text) (m : Text)
    → AreNames (ns ++ (m ∷ []))
    → child_name (path_of ns) (path_of (ns ++ (m ∷ []))) ≡ some m
unfolding child_name
child_name-snoc [] m h = rw (path_of-one m) (
    unfold path_of in
    (rw (
      text_eq_refl dot,
      nil-append m,
      trim_prefix-append [] m,
      has_slash-name m h,
      text_eq-name-dot m h,
    )))
child_name-snoc (n ∷ ns) m h =
    let (hn, hm) =
      and_true (all is_name (n ∷ ns)) (all is_name (m ∷ []))
        (sym (all-append is_name (n ∷ ns) (m ∷ [])) ∙ h) in
    rw (
      path_of-snoc n ns m,
      path_of-ne-dot n ns hn,
      has_prefix-append,
      trim_prefix-append,
      has_slash-name m hm,
    )

path_of-nil : path_of [] ≡ dot
unfolding path_of
path_of-nil = refl

List-cases : (xs : List Text) → (xs ≡ []) ⊎ ((x : Text) × (ys : List Text) × (xs ≡ x ∷ ys))
List-cases [] = inl refl
List-cases (x ∷ ys) = inr (x, ys, refl)

parent_lem : (p : Text) → parent p ≡ path_of (init (names p))
unfolding parent
parent_lem p = refl

-- A path but the root is found among the children of its parent.
pub child_name-parent :
    (p : Text)
    → valid_path p ≡ true
    → text_eq p dot ≡ false
    → (m : Text) × (child_name (parent p) p ≡ some m)
child_name-parent p h below = elim (List-cases (names p)) [
  | inl root ↦ absurd (
      false≢true
        (sym below ∙ (text_eq_iff p dot).1 (sym (path_of-names p) ∙ ap path_of root ∙ path_of-nil)))
  | inr (n, ns, e) ↦
      let (m, q) = init-snoc n ns in
      let a = AreNames-names p h in
      (
        m,
        subst (λ x. child_name x p ≡ some m) (sym (parent_lem p))
            (subst (λ x. child_name (path_of (init (names p))) x ≡ some m) (path_of-names p)
              (subst (λ x. child_name (path_of (init x)) (path_of x) ≡ some m) (sym e)
                (subst (λ x. child_name (path_of (init (n ∷ ns))) (path_of x) ≡ some m) (sym q)
                  (child_name-snoc (init (n ∷ ns)) m (subst AreNames (e ∙ q) a))))),
      )
]

child_names-cons :
    (dir key : Text) (e : Entry) (records : List (Text × Entry))
    → child_names dir ((key, e) ∷ records)
      ≡ add_child (child_name dir key) (child_names dir records)
unfolding child_names
child_names-cons dir key e records = refl

cons-ne-nil : (x : Text) (xs : List Text) → x ∷ xs ≢ []
cons-ne-nil x xs h = absurd (cc)

add_child-nil : (o : Option Text) (ns : List Text) → add_child o ns ≡ [] → (o ≡ none) × (ns ≡ [])
add_child-nil none ns h = (refl, h)
add_child-nil (some x) ns h = absurd (cons-ne-nil x ns h)

pub some-ne-none : (m : Text) → some m ≢ none
some-ne-none m h = absurd (cc)

nothing_listed :
    (dir q : Text) (f : Entry) (records : List (Text × Entry))
    → child_names dir ((q, f) ∷ records) ≡ []
    → (child_name dir q ≡ none) × (child_names dir records ≡ [])
nothing_listed dir q f records h =
    add_child-nil (child_name dir q) (child_names dir records)
      (sym (child_names-cons dir q f records) ∙ h)

-- A directory that lists no child is the parent of nothing.
pub no_child :
    (dir p : Text) (records : List (Text × Entry)) (e : Entry)
    → child_names dir records ≡ []
    → load p records ≡ some e
    → (m : Text) → child_name dir p ≢ some m
unfolding load
no_child dir p [] e none_listed there m listed = absurd (cc)
no_child dir p ((q, f) ∷ records) e none_listed there m listed = elim (Bool-cases (text_eq q p)) [
  | inl same ↦ absurd (
      some-ne-none m (
        sym listed
        ∙ ap (child_name dir) (sym (text_eq_sound q p same))
        ∙ (nothing_listed dir q f records none_listed).0))
  | inr other ↦
      no_child dir p records e (nothing_listed dir q f records none_listed).1
        (subst (λ b. (if b then some f else load p records) ≡ some e) other there) m listed
]
