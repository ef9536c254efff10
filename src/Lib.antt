-- ===== src/Lib.antt =====
-- hackpadfs: the file system interfaces of the repository's root, and the file systems mount.FS,
-- keyvalue.FS with the in-memory store, os.FS, cache.ReadOnlyFS and tar.ReaderFS, with the sub file
-- systems, the blobs and the path locks below them.
--
-- How the parts interact. A caller uses the helpers of fs.go and file.go (Stat, Mkdir, OpenFile,
-- ...) on a file system; a helper calls the method where the file system has it, goes on into the
-- file system that a MountFS names for the path, or fails. A sub file system (sub.go) and mount.FS
-- (mount/fs.go) are such MountFS. keyvalue.FS (keyvalue/fs.go) keeps its files in a Store, through
-- a transaction for each operation; mem/store.go is a Store in memory, whose transactions hold its
-- mutex, and its files are blobs (keyvalue/blob/bytes.go). os.FS (os/) maps a path to one of the
-- system and its errors back, and calls package os. cache.ReadOnlyFS (cache/) opens files of a
-- source and keeps copies in a writable file system, with a path lock (internal/pathlock) around a
-- call. tar.ReaderFS (tar/) unpacks an archive in the background, with a pool of buffers.
--
-- Files and sources:
--   Base        shared names: Booleans, lists, windows of lists, Go strings, 64-bit integers.
--   Errors      errors.go and internal/fserrors; Errors/Strip is mount.go.
--   FilePath    ValidPath of fs.go and what is used of Go's package path. Names and Join turn
--               a valid path into the list of its names; Below and Parent are about prefixes and
--               the parent.
--   Modes       the flags of file.go, the mode bits, and the mode that Chmod of keyvalue sets.
--   Fs          the interfaces of fs.go and file.go as records of functions on a state. FileOps
--               is file.go (ChmodFile, SeekFile, ...), Dispatch, Trees and Reads are fs.go, Sub
--               is sub.go, and Copy is io.Copy of Go's library. SubLaws has the theorems on sub
--               file systems, TreeLaws and MadeDirs those on MkdirAll, and ReadLaws those on
--               ReadFile.
--   Mount       mount/fs.go: mount_point is mountPoint, add_mount is AddMount. Resolve and Laws
--               describe what a path resolves to, Add what AddMount changes.
--   Blob        keyvalue/blob/bytes.go over a heap: an array is the memory behind slices, a blob
--               is a window of one with a mutex. Contents has the invariant, Copies View, Slice
--               and Bytes, Writes Set, Sizes and Grow the changes of length. Dispatch is blob.go and
--               io.go, over a Slice that Bytes returns and that may be shared.
--   KeyValue    keyvalue/record.go, store.go and txn_store.go; Serial is the serial transaction,
--               Files is fileData of file.go, Handle and Listing the methods of its handles, Access
--               file_rwonly.go, and Open and Fs are fs.go, over any Store. Ancestors is about the
--               loop of findMissingDirs, HandleLaws about Seek, and SerialLaws about getFile over a
--               store without transactions.
--   Mem         mem/store.go, and Fs is mem/fs.go. Calls is about getFile and setFile on it, Founds
--               about getFiles, Spec describes the operations of keyvalue/fs.go by lookups, Refines,
--               Renames and Opens compare them with that, Children and ChildNames are about
--               ReadDirNames, Tree and Keeps are about the invariant of the tree.
--   IdbBlob     indexeddb/idbblob/blob.go: a blob over a Uint8Array. Sizes is about its length.
--   Os          os/path.go; Wrap is the wrapping of errors of os/fs.go and errors_windows.go, and
--               Calls the operations of os/fs.go and os/file.go over the calls of package os. Paths
--               and Names take rooted paths apart, RoundTrip is about ToOSPath and FromOSPath, and
--               Below about Sub and wrapErr.
--   PathLock    internal/pathlock/lock.go: goroutines in Lock and Unlock as a step relation, with
--               its Invariant and its Safety.
--   Cache       cache/fs.go, and Dir is cache/dir.go. Pages is about reading a directory in pages,
--               Stats about the infos that are kept, Copies about the copy that Open makes.
--   Tar         Pool is tar/bufferpool.go and PubSub tar/pubsub.go, as step relations; Invariant,
--               Moves and Waiters are about PubSub. Read, Unpack and Runs are tar/fs.go: reading
--               and writing one file, one round of the loop, and the steps of loop and background
--               tasks. Bytes is about writeFile, Ends and Emitted about the end of readErr.
--   Tests below a part has its tests and the examples at concrete inputs.
--
-- Conventions. A call that may block or panic has an Outcome; an error is a value of Result; state
-- is passed explicitly, and what a failed call has changed stays changed. The nil of an optional
-- interface or function is `none`. Strings are lists of bytes. A sync.Map is a list of its entries,
-- in any order. The clock of an in-memory store is a field that no operation changes. What package
-- os, the platform's path rules, JavaScript, archive/tar and the file systems below cache and tar
-- do is a parameter.
--
-- Fuel. io.Copy takes fuel for its rounds, since a reader may never end; Rename of mount.FS and
-- Open of cache.ReadOnlyFS pass it on. io.CopyBuffer of tar has fuel for each byte that is left
-- and two: a round that reads nothing ends it. ReadFile takes fuel for its reads. RemoveAll and
-- Rename of keyvalue.FS take fuel for the depth of the directories, and MkdirAll counts down from
-- the length of the path and two, more than a path has elements.
--
-- Not modelled: WalkDir of fs.go, which passes its arguments on to io/fs; the store of indexeddb,
-- which is left for later; examples and tests. Goroutines are interleaved in the path locks, the
-- buffer pool, the publication of paths and the reading of an archive, where a background task
-- goes on in up to three steps (its work, its send of an error, Done); a store is looked at between
-- transactions, and a cache between calls.
pub mod Base
pub mod Errors
pub mod FilePath
pub mod Modes
pub mod Fs
pub mod Mount
pub mod Blob
pub mod KeyValue
pub mod Mem
pub mod IdbBlob
pub mod Os
pub mod PathLock
pub mod Cache
pub mod Tar
