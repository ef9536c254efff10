-- ===== src/Fs/ReadLaws.antt =====
-- ReadFile of a file that is opened and read in pieces.
use hackpadfs.Base.{
  ℕ, zero, suc, ◌≤◌, ◌<◌, Text, Option, none, some, [], ◌++◌, ◌≡◌, ◌⊎◌, ap, ◌∙◌, arith, length,
  take, drop, length-drop, take-append-drop, take_all, append_assoc, inl, inr,
}
use hackpadfs.Errors.{Error, sentinel, eof, ok}
use hackpadfs.Fs.{File, Fs, Ops, plain, mounted}
use hackpadfs.Fs.Reads.{told_size, read_all, read_file}

-- What io.Reader asks of a Read into n bytes where the bytes of `left w` are still to come: some of
-- them in front and no error, or all of them and io.EOF.
pub record Reads {W : Type 0} (f : File W) (left : W → Text) (n : ℕ) (w : W) : Type 0 where
  pub count : ℕ
  pub ended : Option Error
  pub after : W
  pub reads : f.read n w ≡ ((take count (left w), ended), after)
  pub rest : left after ≡ drop count (left w)
  pub goes_on :
      ((ended ≡ none) × (0 < count) × (count ≤ length (left w)))
      ⊎ ((ended ≡ some (sentinel eof)) × (length (left w) ≤ count))

module _ {W : Type 0} (room : ℕ → ℕ → ℕ) (f : File W) (fuel size : ℕ) (seen s : Text)
    (w w1 : W) where
  read_all-more :
      f.read (room size (length seen)) w ≡ ((s, none), w1)
      → read_all room (suc fuel) size f seen w ≡ read_all room fuel size f (seen ++ s) w1
  unfolding read_all
  read_all-more e = rw (read_all, e, e)

  read_all-last :
      f.read (room size (length seen)) w ≡ ((s, some (sentinel eof)), w1)
      → read_all room (suc fuel) size f seen w ≡ some ((seen ++ s, none), w1)
  unfolding read_all
  read_all-last e = rw (read_all, e, e)

module _ {W : Type 0} (room : ℕ → ℕ → ℕ) (f : File W) (left : W → Text)
    (some_room : (size seen : ℕ) → 0 < room size seen)
    (reading : (n : ℕ) (w : W) → 0 < n → Reads f left n w) where
  read_all-left :
      (fuel size : ℕ) (seen : Text) (w : W)
      → length (left w) < fuel
      → (w' : W) × (read_all room fuel size f seen w ≡ some ((seen ++ left w, none), w'))
  read_all-left zero size seen w enough = absurd (omega arith)
  read_all-left (suc fuel) size seen w enough =
      let r = reading (room size (length seen)) w (some_room size (length seen)) in
      elim r.goes_on [
        | inl (more, some_read, within) ↦
            let joined : (seen ++ take r.count (left w)) ++ left r.after ≡ seen ++ left w =
              append_assoc seen (take r.count (left w)) (left r.after)
              ∙ ap (λ t. seen ++ t)
                  (ap (λ t. take r.count (left w) ++ t) r.rest
                    ∙ take-append-drop r.count (left w)) in
            let (w', e) =
              read_all-left fuel size (seen ++ take r.count (left w)) r.after
                (grind (arith, ap length r.rest, length-drop r.count (left w))) in
            (
              w',
              read_all-more room f fuel size seen (take r.count (left w)) w r.after
                    (r.reads ∙ ap (λ x. ((take r.count (left w), x), r.after)) more)
                  ∙ (e ∙ ap (λ (t : Text). some ((t, none), w')) joined),
            )
        | inr (last, all) ↦ (
          r.after,
          read_all-last room f fuel size seen (left w) w r.after
              (r.reads ∙ rw (last, take_all r.count (left w) all)),
        )
      ]

  read_file-plain :
      (fuel : ℕ) (o : Ops W) (name : Text) (w w1 : W)
      → o.read_file ≡ none
      → o.open_name name w ≡ (ok f, w1)
      → left (f.stat w1).1 ≡ left w1
      → length (left w1) < fuel
      → (w' : W) × (read_file room fuel (plain o) name w ≡ some ((left w1, none), w'))
  unfolding read_file
  read_file-plain fuel o name w w1 lacks opens kept enough =
      let w2 = (f.stat w1).1 in
      let (w', e) =
        read_all-left fuel (told_size (f.stat w1).0) [] w2 (omega (arith, ap length kept)) in
      ((f.close w').1, rw (lacks, opens, e, kept))

  -- Where no file system on the way has a ReadFile of its own, each MountFS leads to the file system
  -- that it has mounted at the name, and the last one, which is no MountFS, opens the file.
  pub data Opens (w w1 : W) : Fs W → Text → Type 1 where
    here :
        (o : Ops W) (name : Text)
        → o.read_file ≡ none
        → o.open_name name w ≡ (ok f, w1)
        → Opens w w1 (plain o) name
    through :
        (o : Ops W) (mount : W → Text → Fs W) (sub_path : W → Text → Text) (name : Text)
        → o.read_file ≡ none
        → Opens w w1 (mount w name) (sub_path w name)
        → Opens w w1 (mounted o mount sub_path) name

  -- ReadFile of a file system that has no ReadFile, through the MountFSs that lead to one that has
  -- none either and is no MountFS. Where its Open gives a file that answers as io.Reader asks and
  -- that Stat does not move, with fuel for each byte that is left and one, ReadFile ends with all
  -- the bytes and no error, whatever room its buffer has and whatever Stat tells.
  pub read_file-left :
      (fuel : ℕ) (fs : Fs W) (name : Text) (w w1 : W)
      → Opens w w1 fs name
      → left (f.stat w1).1 ≡ left w1
      → length (left w1) < fuel
      → (w' : W) × (read_file room fuel fs name w ≡ some ((left w1, none), w'))
  unfolding read_file
  read_file-left fuel (plain o) name w w1 (here _ _ lacks opens) kept enough =
      read_file-plain fuel o name w w1 lacks opens kept enough
  read_file-left fuel (mounted o mount sub_path) name w w1 (through _ _ _ _ lacks leads) kept
        enough =
      let (w', e) = read_file-left fuel (mount w name) (sub_path w name) w w1 leads kept enough in
      (w', rw (lacks, e))
