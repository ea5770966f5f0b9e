-- ===== src/Lib.antt =====
-- wwdedup: a FUSE file system that stores each block of data once. This library models its C++ code
-- and proves what its operations do to the tables, the cache and the storage file.
--
-- The program has four layers. wrap.cpp holds the C functions that FUSE calls; each runs a method of
-- DedupFS (dedupfs.cpp) in a try block. DedupFS looks files up with DataBase (database.cpp), which
-- keeps three tables in SQLite: files, file_blocks (which hash a block of a file has) and block_hashes
-- (the storage block of a hash, and how many file blocks use it). It reads and writes data with
-- BlocksCache (blockscache.cpp), which keeps storage blocks in memory, asks DataBase where a block
-- goes, and writes dirty blocks to the storage file from a thread of its own.
--
-- Files and the code that they model:
--   Types         dedup_types.h, dedup_types.cpp: storage_block, block_info, file_info
--   State         the tables of DataBase::init (database.cpp), the cache and the storage file of
--                 BlocksCache, the file_info of the running call, and what the environment decides
--   Sql           the statements of DataBase::prepareStatements (database.cpp), their execution by
--                 PreparedStmt and the transactions of Database (easySQLite/SqlDatabase.cpp). Sql.Statement
--                 is PreparedStmt itself (easySQLite/SqlPreparedStmt.h and .cpp) over Sql.Sqlite, the C
--                 functions of SQLite that it calls; theorems in its children Retry, Bindings and Runs
--   Database      database.cpp: Pointers (how objects are reached), Blocks (loadFileBlock,
--                 replaceStorageBlock, releaseStorageBlock), Files (getByPath, create, remove,
--                 ftruncate, utime, dirEmpty, readdir), Rename (rename), Resize (the statement
--                 of ftruncate by its bindings), Opening (the constructor, init, prepareStatements;
--                 theorems in Opening.Opened); theorems in Consistency, Release, Rewrite, Reload,
--                 Atomic, Directory, Unique, Keys and Listing
--   Cache         blockscache.cpp: Storage (constructor, _populateStorageBlock), Access
--                 (_getLockedFileBlock, _getStorageBlock, _writeBlock), Transfer (writeBuf, readBuf,
--                 truncate, sync), Writer (a round of run), Loop (the places of the thread in run,
--                 and the destructor that waits for it; theorems in Loop.Stopping), Threads (start, stop, getThreadInstance,
--                 and from dedupfs.cpp DedupFS::Instance, constructor and destructor); theorems in
--                 Locks, Failure, Flush, Eviction, Pieces, Reading, Cut, Releasing, Truncated,
--                 PastEnd, Holes, Signature and Lifetimes; Cache.Contents says what the cache and the
--                 storage file hold together, with the theorems on it in its child modules.
--                 Cache.Contents.Places has the abstract view of the whole store: a map from the file
--                 blocks of all files to their contents, through the tables, the cache and the
--                 storage file. _writeBlock (Frame), truncate (Truncate), a round of the writer thread
--                 (Persisted), a write with a round after it (Survives) and a read (Loaded) are compared
--                 with it
--   Fs            dedupfs.cpp in Calls, the handles of FUSE in Mount, DedupFS::Instance with what it
--                 leaves in the process in Service, wrap.cpp and the table of main.cpp in Wrap;
--                 theorems in Errors
--   Main          main.cpp: the arguments, the options of the mount, and main around fuse_main, which
--                 is a parameter; theorems in Arguments and Session
--   System        the whole: System.Running has the states of a mount with its writer thread as a step
--                 relation of FUSE calls, single moves of the thread, the stop and passing time;
--                 theorems in its children Watched and Synced
--   Effects       how C++ code ends: with a value, an exception, undefined behaviour or not at all
--   Prelude       lists, options and numbers
--   Examples      a small mount, and the theorems' instances on it
--
-- How state and errors are modelled. Code is a function from a state to an outcome and a state.
-- `throws` is a C++ exception, `aborts` undefined behaviour (a null or dangling pointer, a copy of
-- negative length), `hangs` a wait that never ends. A call of SQLite or of the storage file takes the
-- next entry of the list `faults`, which says whether it fails; after its end no call fails. A
-- transaction keeps the tables of its start, which a rollback restores. BEGIN within a transaction,
-- COMMIT and ROLLBACK outside one, and any of them that fails, throw; a failing ROLLBACK or COMMIT
-- leaves the transaction open.
--
-- SQL is a function on tables. The environment `Env` has what the repository leaves to others: the
-- key that SQLite gives to a new row, LIKE, boost's branch_path and leaf, MurmurHash3, the block size
-- that DataBase reads from the FUSE context, and the value of an uninitialised st_mode.
--
-- The model is sequential: one operation at a time, the round of the writer thread as one of them.
-- The mutex of a storage_block is taken and released within an operation and left out. The mutex of a
-- block_info is the field `locked`, as an exception can leave it locked. A weak_ptr lives as long as
-- the cache holds its object. Asserts are compiled out. Numbers are natural numbers, so times, sizes
-- and block numbers are taken to stay in the range of their C++ types, but where the code narrows them
-- to int, which is written out: times in the table files, and the chunk of a read behind the end of
-- the file. Use counts and depths are integers. The loops of writeBuf and readBuf run on fuel, one more than the size, which is enough as
-- each round but the last moves a whole block. The repeated rounds of the writer thread run on fuel, one
-- more than the cached blocks, which is enough as a round that asks to be repeated has evicted one.
-- The join of the writer thread runs on four moves, which is enough once `terminated` is set. The
-- objects of the threads (Cache.Threads) are a state of their own, as no operation above reads it.
--
-- A statement that failed is taken to be reset when it is used again, except in Sql.Statement and
-- Database.Resize, which follow its bindings. There a loop that waits for a locked database runs on
-- fuel, and Sql.Statement.Retry says how much is enough; what SQLite documents of bindings, steps and
-- resets is the hypothesis IsDocumented, which a small SQLite in Examples.Statements meets.
--
-- The writer thread is taken to have made `_blocks` when the first operation comes; it has not locked
-- writerMutex then.
--
-- Not modelled: the interleaving of two threads inside an operation or a round, the
-- calls of main that start libcds and configure SQLite, printing, code inside #if 0, the rest of easySQLite, MurmurHash3, and the
-- build files.
mod Prelude
pub mod Effects
pub mod Types
pub mod State
pub mod Sql
pub mod Database
pub mod Cache
pub mod Fs
pub mod Examples
pub mod Main
pub mod System
