-- ===== src/Mem/Opens.antt =====
-- OpenFile on an idle in-memory store, without FlagTruncate: what it promises, by lookups of the
-- name and its parent, and that it does so.
use hackpadfs.Base.{
  ℕ, ◌%◌, ◌==◌, arith, Text, true, false, ◌&&◌, ◌||◌, not, Option, none, some, List, [], ◌∷◌, ◌≡◌,
  refl, sym, ◌∙◌, if◌then◌else◌, Bool-cases, Option-cases, inl, inr,
}
use hackpadfs.Errors.{
  Error, sentinel, path_error, err_invalid, err_not_exist, err_is_dir, Result, ok, err, is_error,
}
use hackpadfs.FilePath.{valid_path}
use hackpadfs.FilePath.Parent.{parent, path_dir-parent, valid_path-parent}
use hackpadfs.Base.Int.{pos}
use hackpadfs.Modes.{
  has_bit, is_read_write, is_dir, is_create, is_write_only, is_truncate, perm_of,
  perm_of-is_regular,
}
use hackpadfs.Blob.{Heap, returns, new_bytes_of}
use hackpadfs.KeyValue.Files.{FileData, new_file, save, saved, data_of}
use hackpadfs.KeyValue.Call.{◌>>=◌, pure}
use hackpadfs.KeyValue.Open.{
  Found, Opened, Access, read_only, write_only, read_write, access_of, failed_files, open_new,
  open_found, open_file, opened_as,
}
use hackpadfs.Mem.{Entry, Mem, load, put, file_record, mem_store}
use hackpadfs.Mem.Founds.{get_files-invalid, get_files-one, get_files-two}
use hackpadfs.Mem.Tree.{IsTree, put-IsTree, some-ne-none}
use hackpadfs.Mem.Keeps.{IsKept, returned}
use hackpadfs.Mem.Calls.{idle, stored, set_file_lem}

-- The lowest two bits of the flags are the access mode: 0 reads, 1 writes, 2 does both, and 3 only
-- writes.
abbrev access_mode : ℕ → Access
access_mode mode = if mode == 0 then read_only else if mode == 2 then read_write else write_only

access_of-mode : (flag : ℕ) → access_of flag ≡ access_mode (flag % 4)
unfolding access_of is_write_only is_read_write has_bit
access_of-mode flag = ground arith

module _ (records : List (Text × Entry)) (heap : Heap) (clock : ℕ) where
  abbrev refuse_open : Text → Error → Result (Opened Mem) × Mem
  refuse_open name e = (err (path_error "open" name e), idle records heap clock)

  -- The file that is opened: at its front, with the flags, and in the wrapper of its access mode.
  abbrev pub opens : ℕ → FileData Mem → Result (Opened Mem)
  opens flag f = ok (record {
    access = access_mode (flag % 4);
    handle = record { file_data = some f; listed = none; offset = pos 0; flag = flag };
  })

  -- A record that is there is opened, unless it is a directory to be written or made.
  abbrev open_there : Text → ℕ → Entry → Result (Opened Mem) × Mem
  open_there name flag e =
      if is_dir e.mode && (is_create flag || is_write_only flag)
      then refuse_open name (sentinel err_is_dir)
      else (opens flag (stored name e), idle records heap clock)

  -- A new file below a record that is there, with an empty blob, the permission bits and the time
  -- of the call; the file that is opened has that blob.
  abbrev open_missing : Text → ℕ → ℕ → Option Entry → Result (Opened Mem) × Mem
  open_missing name flag perm none = refuse_open name (sentinel err_not_exist)
  open_missing name flag perm (some above) =
      let (r, heap') = new_bytes_of [] heap in
      let e : Entry = record { contents = r; mode = perm_of perm; mod_time = clock } in
      let f : FileData Mem =
        record (new_file mem_store name (perm_of perm) (idle records heap clock)) {
          cached = some (ok r);
        } in
      (opens flag f, idle (put name e records) heap' clock)

  abbrev open_entry : Text → ℕ → ℕ → Option Entry → Result (Opened Mem) × Mem
  open_entry name flag perm (some e) = open_there name flag e
  open_entry name flag perm none =
      if is_create flag
      then open_missing name flag perm (load (parent name) records)
      else refuse_open name (sentinel err_not_exist)

  -- What OpenFile promises where the flags have no FlagTruncate.
  abbrev pub open_spec : Text → ℕ → ℕ → Result (Opened Mem) × Mem
  open_spec name flag perm =
      if not (valid_path name)
      then refuse_open name (sentinel err_invalid)
      else open_entry name flag perm (load name records)

  -- A new file is saved.
  save_new :
      (name : Text) (perm : ℕ)
      → valid_path name ≡ true
      → save mem_store
          (new_file mem_store name (perm_of perm) (idle records heap clock))
          (idle records heap clock)
        ≡ returns (
          ok tt,
          idle
              (put name
                (record {
                  contents = (new_bytes_of [] heap).0;
                  mode = perm_of perm;
                  mod_time = clock;
                })
                records)
              (new_bytes_of [] heap).1
              clock,
        )
  unfolding save new_file mem_store
  save_new name perm h =
      set_file_lem name (new_file mem_store name (perm_of perm) (idle records heap clock)) _ records
        heap _ clock h refl (λ b. refl)

  saved_new :
      (name : Text) (perm : ℕ)
      → saved mem_store
          (new_file mem_store name (perm_of perm) (idle records heap clock))
          (idle records heap clock)
        ≡ record (new_file mem_store name (perm_of perm) (idle records heap clock)) {
          cached = some (ok (new_bytes_of [] heap).0);
        }
  unfolding saved new_file data_of mem_store
  saved_new name perm = rw (perm_of-is_regular perm)

  there_lem :
      (name : Text) (flag perm : ℕ) (e : Entry) (fs : List (Found Mem))
      → (open_found mem_store name flag perm ((some (stored name e), none) ∷ fs) >>= λ f.
            pure f >>= λ f'. pure (opened_as mem_store flag f'))
          (idle records heap clock)
        ≡ returns (open_there name flag e)
  unfolding open_found file_record
  there_lem name flag perm e fs =
      elim (Bool-cases (is_dir e.mode && (is_create flag || is_write_only flag))) [
        | inl refused ↦ rw refused
        | inr fine ↦ rw (fine, access_of-mode flag)
      ]

  -- OpenFile on an idle in-memory store, without FlagTruncate, for every name: a name that is not
  -- valid, a directory with FlagCreate or with the low bits of FlagWriteOnly, and a missing file that
  -- is not to be made or whose parent is missing are refused with their own errors and nothing
  -- changes; a record that is there is opened as it is; any other file is made, with an empty blob
  -- that the opened file has too. What is opened can be read, written or both, as the two low bits of
  -- the flag say.
  pub open_file-refines :
      (name : Text) (flag perm : ℕ)
      → is_truncate flag ≡ false
      → open_file mem_store name flag perm (idle records heap clock)
        ≡ returns (open_spec name flag perm)
  unfolding open_file open_found open_new is_error failed_files
  open_file-refines name flag perm plain = elim (Bool-cases (valid_path name)) [
    | inr bad ↦ rw (get_files-invalid records heap clock name _ bad, bad)
    | inl good ↦ elim (Bool-cases (is_create flag)) [
      | inr old ↦
          rw (plain, good, old, get_files-one records heap clock name good)
            (elim (Option-cases (load name records)) [
              | inl missing ↦ rw (missing, old)
              | inr (e, there) ↦ rw there (there_lem name flag perm e [])
            ])
      | inl make ↦
          rw
            (
              plain,
              good,
              make,
              path_dir-parent name good,
              get_files-two records heap clock name (parent name) good
                  (valid_path-parent name good),
            )
            (elim (Option-cases (load name records)) [
              | inr (e, there) ↦ rw there (there_lem name flag perm e [])
              | inl missing ↦ rw missing (elim (Option-cases (load (parent name) records)) [
                | inl orphan ↦ rw (orphan, make)
                | inr (e, there) ↦
                    rw (
                      there,
                      make,
                      save_new name perm good,
                      saved_new name perm,
                      access_of-mode flag,
                    )
              ])
            ])
    ]
  ]

  open_missing-IsKept :
      (name : Text) (flag perm : ℕ) (o : Option Entry)
      → valid_path name ≡ true
      → load name records ≡ none
      → load (parent name) records ≡ o
      → ((d : Entry) → o ≡ some d → is_dir d.mode ≡ true)
      → IsTree records
      → IsKept (open_missing name flag perm o)
  open_missing-IsKept name flag perm none good missing at above t = (t, refl)
  open_missing-IsKept name flag perm (some d) good missing at above t = (
    put-IsTree records name _ t good (λ below. (d, at, above d refl))
        (λ d' at' dir. absurd (some-ne-none d' (sym at' ∙ missing))),
    refl,
  )

  open_spec-IsKept :
      (name : Text) (flag perm : ℕ)
      → ((d : Entry) → load (parent name) records ≡ some d → is_dir d.mode ≡ true)
      → IsTree records
      → IsKept (open_spec name flag perm)
  open_spec-IsKept name flag perm above t = elim (Bool-cases (valid_path name)) [
    | inr bad ↦ rw bad (t, refl)
    | inl good ↦ elim (Option-cases (load name records)) [
      | inr (e, there) ↦
          elim (Bool-cases (is_dir e.mode && (is_create flag || is_write_only flag))) [
            | inl refused ↦ rw (good, there, refused) (t, refl)
            | inr fine ↦ rw (good, there, fine) (t, refl)
          ]
      | inl missing ↦ elim (Bool-cases (is_create flag)) [
        | inr old ↦ rw (good, missing, old) (t, refl)
        | inl make ↦
            rw (good, missing, make)
              (open_missing-IsKept name flag perm _ good missing refl above t)
      ]
    ]
  ]

  -- On a tree, OpenFile without FlagTruncate of a name below a directory, or below nothing, leaves
  -- a tree and an unlocked mutex.
  pub open_file-IsKept :
      (name : Text) (flag perm : ℕ) (x : Result (Opened Mem) × Mem)
      → is_truncate flag ≡ false
      → IsTree records
      → ((d : Entry) → load (parent name) records ≡ some d → is_dir d.mode ≡ true)
      → open_file mem_store name flag perm (idle records heap clock) ≡ returns x
      → IsKept x
  open_file-IsKept name flag perm x plain t above =
      returned IsKept _ _ x (open_file-refines name flag perm plain)
        (open_spec-IsKept name flag perm above t)
