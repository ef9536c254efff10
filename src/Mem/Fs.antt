-- ===== src/Mem/Fs.antt =====
-- mem/fs.go: the operations of keyvalue.FS over a new in-memory store.
use hackpadfs.Base.{ℕ, Text}
use hackpadfs.Errors.{Result}
use hackpadfs.Fs.{FileInfo}
use hackpadfs.Blob.{Outcome}
use hackpadfs.KeyValue.Call.{Call}
use hackpadfs.KeyValue.Fs as kv
use hackpadfs.KeyValue.Open.{Opened, open_name, open_file}
use hackpadfs.Mem.{Mem, new_store, mem_store}

-- NewFS of package mem. The time is that of the first call.
unfoldable new_mem_fs : ℕ → Outcome (Result (Unit {0}) × Mem)
new_mem_fs clock = kv.new_fs mem_store (new_store clock)

-- FS of package mem. Rename takes fuel for the depth of the directories.
record MemFs : Type 0 where
  pub open_name : Text → Call Mem (Opened Mem)
  pub open_file : Text → ℕ → ℕ → Call Mem (Opened Mem)
  pub mkdir : Text → ℕ → Call Mem (Unit {0})
  pub mkdir_all : Text → ℕ → Call Mem (Unit {0})
  pub remove : Text → Call Mem (Unit {0})
  pub rename : ℕ → Text → Text → Call Mem (Unit {0})
  pub stat : Text → Call Mem FileInfo
  pub chmod : Text → ℕ → Call Mem (Unit {0})
  pub chtimes : Text → ℕ → ℕ → Call Mem (Unit {0})

unfoldable mem_fs : MemFs
mem_fs = record {
  open_name = open_name mem_store;
  open_file = open_file mem_store;
  mkdir = kv.mkdir mem_store;
  mkdir_all = kv.mkdir_all mem_store;
  remove = kv.remove mem_store;
  rename = kv.rename mem_store;
  stat = kv.stat mem_store;
  chmod = kv.chmod mem_store;
  chtimes = kv.chtimes mem_store;
}
