-- ===== src/Tar/Tests.antt =====
-- A pool of one buffer that two goroutines ask for, a call of Wait that is woken, and a file whose
-- bytes are the world.
use hackpadfs.Base.{
  ℕ, ◌+◌, ◌≤◌, Text, codes, true, ◌||◌, Option, none, some, [], ◌∷◌, ◌++◌, ◌≡◌, ◌⊎◌, refl, arith,
  length, text_eq, trim_prefix,
}
use hackpadfs.Errors.{Error, ok}
use hackpadfs.Modes.{mode_dir}
use hackpadfs.Fs.{File, Ops, FileInfo, plain}
use hackpadfs.Fs.Dispatch.{mkdir}
use hackpadfs.Fs.Trees.{mkdir_all}
use hackpadfs.Tar.Pool
use hackpadfs.Tar.PubSub
use hackpadfs.Tar.Pool.{buffers-le, receive_waits}
use hackpadfs.Tar.PubSub.{
  is_in, is_listed, subscribers_of, without, emit, cancel, wait_check, wait_subscribe, can_return,
}
use hackpadfs.Tar.Waiters.{wait_wakes, wait_returned}
use hackpadfs.FilePath.{clean}
use hackpadfs.Tar.Read.{
  Archive, finish, entry, resolve_path, write_contents, BaseFs, Reader, finished,
}
use hackpadfs.Tar.Unpack.{write_file}
use hackpadfs.Tar.Runs.{next, Reach, here}
use hackpadfs.Tar.Bytes.{write_contents-appends}

-- One goroutine holds the only buffer, and another is at the last receive of Wait.
abbrev exhausted : Pool.Pool
exhausted = record {
  count = 1;
  capacity = 1;
  ready = 0;
  adding = 0;
  sending = 0;
  receiving = 1;
  holding = 1;
}

exhausted-Reach : Pool.Reach 1 exhausted
unfolding Pool.new_buffer_pool Pool.wait Pool.add_slot
exhausted-Reach =
    Pool.next (Pool.next (Pool.next Pool.here (Pool.waits refl)) (Pool.waits refl)) (Pool.adds refl)

buffers-le_example : 0 + 0 + 1 ≤ 1
buffers-le_example = buffers-le exhausted-Reach

receive_waits_example :
    ((q : Pool.Pool) × (Pool.receive exhausted ≡ some q))
    ⊎ ((q : Pool.Pool) × (Pool.done exhausted ≡ some q))
    ⊎ ((q : Pool.Pool) × (Pool.send exhausted ≡ some q))
receive_waits_example = receive_waits exhausted-Reach (omega arith)

abbrev key : Text
key = codes "a"

-- Emit has left the mutex, and the call 0 of Wait is still asleep.
abbrev emitted : PubSub.PubSub
emitted = emit key (wait_subscribe 0 key (wait_check 0 key PubSub.new_pubsub))

emitted-Reach : PubSub.Reach emitted
unfolding wait_check
emitted-Reach =
    PubSub.next
      (PubSub.next (PubSub.next PubSub.here (PubSub.checks 0 key refl))
        (PubSub.subscribes 0 key refl))
      (PubSub.emits key)

wait_wakes_example : (can_return 0 emitted ≡ true) ⊎ (is_listed 0 emitted.canceling ≡ true)
unfolding emit wait_subscribe wait_check is_in text_eq
wait_wakes_example = wait_wakes emitted-Reach 0 key refl refl

-- The call is woken and returns.
abbrev woken : PubSub.PubSub
woken = cancel [] 0 [] emitted

abbrev returned : PubSub.PubSub
returned = record woken { phase = PubSub.update woken.phase 0 (PubSub.returned key) }

returned-Reach : PubSub.Reach returned
unfolding emit wait_subscribe wait_check is_in text_eq subscribers_of can_return cancel
returned-Reach =
    PubSub.next (PubSub.next emitted-Reach (PubSub.cancels [] 0 [] refl))
      (PubSub.returns 0 key refl refl)

wait_returned_example : (returned.ended || is_in key returned.visited) ≡ true
wait_returned_example = wait_returned returned-Reach 0 key refl

-- A file whose bytes are the world.
abbrev append : Text → Text → (ℕ × Option Error) × Text
append s w = ((length s, none), w ++ s)

abbrev file_info : FileInfo
file_info = record { name = key; size = 2; mode = 0; mod_time = 0 }

abbrev out_file : File Text
out_file = record {
  close = λ w. (ok tt, w);
  stat = λ w. (ok file_info, w);
  read = λ n w. (([], none), w);
  write = some append;
  read_at = none;
  write_at = none;
  seek = none;
  read_dir = none;
  chmod = none;
  chown = none;
  chtimes = none;
  sync = none;
  truncate = none;
}

abbrev out_ops : Ops Text
out_ops = record {
  open_name = λ p w. (ok out_file, w);
  open_file = none;
  create = none;
  mkdir = some (λ p perm w. (ok tt, w));
  mkdir_all = none;
  remove = none;
  remove_all = none;
  rename = none;
  stat = none;
  lstat = none;
  chmod = none;
  chown = none;
  chtimes = none;
  read_dir = none;
  read_file = none;
  write_file = none;
  symlink = none;
}

abbrev base : BaseFs Text
base = record {
  fs = plain out_ops;
  open_file = λ p flag perm w. (ok out_file, w);
  chmod = λ p mode w. (ok tt, w);
  mkdir = λ p mode w. (ok tt, w);
}

write_contents-appends_example :
    (w' : Text) × (write_contents base out_file (codes "ab") (some (codes "cd", none)) (codes "x")
      ≡ some (ok tt, w'))
    × (w' ≡ codes "x" ++ (codes "ab" ++ codes "cd"))
write_contents-appends_example =
    write_contents-appends append (λ w. w) (λ s w. (w ++ s, refl, refl)) base out_file (codes "ab")
      (codes "cd") (codes "x") refl

resolve_dotted : resolve_path (codes "./a/b/") ≡ codes "a/b"
unfolding resolve_path clean trim_prefix
resolve_dotted = refl

resolve_above : resolve_path (codes "../a") ≡ codes "../a"
unfolding resolve_path clean trim_prefix
resolve_above = refl

-- An archive of a directory and a small file in it.
abbrev archive : Archive
archive =
    entry (codes "d/") (record file_info { mode = mode_dir }) [] none
      (entry (codes "d/f") file_info (codes "hi") none finish)

abbrev unpacked : Reader Text
unpacked = record {
  world = codes "hi";
  phase = finished none;
  tasks = [];
  waiting = 0;
  errors = none;
  mkdir_cache = codes "d" ∷ codes "." ∷ [];
  emitted = codes "d/f" ∷ [];
  ended = true;
}
