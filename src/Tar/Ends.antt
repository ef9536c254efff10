-- ===== src/Tar/Ends.antt =====
-- readErr of tar/fs.go ends without an error only when its background tasks are done: the WaitGroup
-- counts them.
use hackpadfs.Base.{
  suc, Text, Bool, true, false, Option, none, some, List, [], ◌∷◌, ◌++◌, ◌≡◌, ◌≢◌, refl, ap, sym,
  ◌∙◌, arith, length, length-append,
}
use hackpadfs.Errors.{Error, Result}
use hackpadfs.Fs.{FileInfo}
use hackpadfs.Tar.Read.{
  Archive, finish, broken, entry, BaseFs, Task, make_dir, write_small, send_error, call_done, Phase,
  returned, finished, Reader,
}
use hackpadfs.Tar.Unpack.{write_file, cached_mkdir_all, read_process_file, run_task, read_next}
use hackpadfs.Tar.Runs.{Step, next, runs, fails, drained, ends, cancels, Reach, here, after}

-- readErr has returned without an error, and read has ended.
abbrev is_fine : Phase → Bool
is_fine (returned none) = true
is_fine (finished none) = true
is_fine _ = false

abbrev is_finished : Phase → Bool
is_finished (finished e) = true
is_finished _ = false

length-insert :
    {A : Type 0} (xs : List A) (y : A) (ys : List A)
    → length (xs ++ (y ∷ ys)) ≡ suc (length (xs ++ ys))
length-insert xs y ys = omega (arith, length-append xs (y ∷ ys), length-append xs ys)

no_task : {A : Type 0} (xs : List A) (y : A) (ys : List A) → [] ≢ xs ++ (y ∷ ys)
no_task [] y ys = ground arith
no_task (x ∷ xs) y ys = ground arith

empty : {A : Type 0} (xs : List A) → length xs ≡ 0 → xs ≡ []
empty [] h = refl
empty (x ∷ xs) h = absurd (omega arith)

fine_end : (e : Option Error) → is_fine (finished e) ≡ is_fine (returned e)
fine_end none = refl
fine_end (some e) = refl

module _ {W : Type 0} (base : BaseFs W) where
  -- A call that has not touched the tasks.
  record Same (r s : Reader W) : Type 0 where
    phase : s.phase ≡ r.phase
    tasks : s.tasks ≡ r.tasks
    waiting : s.waiting ≡ r.waiting
    ended : s.ended ≡ r.ended

  write_file-Same :
      (path : Text) (info : FileInfo) (initial : Text) (left : Option (Text × Option Error))
      (r s : Reader W) (e : Result (Unit {0}))
      → write_file base path info initial left r ≡ some (e, s)
      → Same r s
  unfolding write_file
  write_file-Same path info initial left r s e h = ground arith

  -- A task that is off the list and still counted goes on.
  record Ran (r s : Reader W) : Type 0 where
    phase : s.phase ≡ r.phase
    ended : s.ended ≡ r.ended
    counted : s.waiting ≡ length s.tasks

  run_task-Ran :
      (task : Task) (r s : Reader W)
      → r.waiting ≡ suc (length r.tasks)
      → run_task base task r ≡ some s
      → Ran r s
  unfolding run_task write_file
  run_task-Ran (make_dir path mode) r s c h = ground arith
  run_task-Ran (write_small path info initial) r s c h = ground arith
  run_task-Ran (send_error e) r s c h = ground arith
  run_task-Ran call_done r s c h = ground arith

  record Went (r s : Reader W) : Type 0 where
    fine : is_fine s.phase ≡ false
    unfinished : is_finished s.phase ≡ false
    counted : s.waiting ≡ length s.tasks

  read_next-Went :
      (archive : Archive) (errors : Option Error) (r s : Reader W)
      → r.waiting ≡ length r.tasks
      → read_next base archive errors r ≡ some s
      → Went r s
  unfolding read_next read_process_file cached_mkdir_all write_file
  read_next-Went archive (some e) r s c h = ground arith
  read_next-Went finish none r s c h = ground arith
  read_next-Went (broken e) none r s c h = ground arith
  read_next-Went (entry name info contents failure rest) none r s c h = ground arith

  record Inv (r : Reader W) : Type 0 where
    counted : r.waiting ≡ length r.tasks
    quiet : is_fine r.phase ≡ true → r.tasks ≡ []
    over : is_finished r.phase ≡ true → r.ended ≡ true

  Step-Inv : {r s : Reader W} → Inv r → Step base r s → Inv s
  Step-Inv v (next archive t p e) =
      let w = read_next-Went archive _ _ t v.counted e in
      record {
        counted = w.counted;
        quiet = λ q. ground (arith, w.fine);
        over = λ q. ground (arith, w.unfinished);
      }
  Step-Inv v (runs before task rest t l e) =
      let c = v.counted ∙ ap length l ∙ length-insert before task rest in
      let ran = run_task-Ran task _ t c e in
      record {
        counted = ran.counted;
        quiet = λ q.
            absurd (no_task before task rest (sym (v.quiet (sym (ap is_fine ran.phase) ∙ q)) ∙ l));
        over = λ q. ran.ended ∙ v.over (sym (ap is_finished ran.phase) ∙ q);
      }
  Step-Inv v (fails e p l) = ground arith
  Step-Inv v (drained p l) = record {
    counted = v.counted;
    quiet = λ q. empty _ (sym v.counted ∙ l);
    over = λ q. ground arith;
  }
  Step-Inv v (ends e p) = record {
    counted = v.counted;
    quiet = λ q. v.quiet (ap is_fine p ∙ sym (fine_end e) ∙ q);
    over = λ q. refl;
  }
  Step-Inv v cancels = ground arith

  Reach-Inv : {w : W} {archive : Archive} {r : Reader W} → Reach base w archive r → Inv r
  Reach-Inv here = ground arith
  Reach-Inv (after r st) = Step-Inv (Reach-Inv r) st

  -- In every state that is reached, whatever the order of the goroutines: where read has ended and
  -- readErr returned no error, every goroutine that was begun has called Done, and the context is
  -- ended.
  pub finished-Ended :
      {w : W} {archive : Archive} {r : Reader W}
      → Reach base w archive r
      → r.phase ≡ finished none
      → (r.tasks ≡ []) × (r.ended ≡ true)
  finished-Ended r q = let v = Reach-Inv r in (v.quiet (ap is_fine q), v.over (ap is_finished q))
