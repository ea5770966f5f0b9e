-- ===== src/State.antt =====
-- The state that the operations share: the tables of the SQLite database, the cache of storage
-- blocks, the storage file, and the choices of the environment.
use wwdedup.Effects.{Exec, Outcome, ok}
use wwdedup.Prelude.{Bool, List, Option, [], false, refl, ℕ, ℤ, ◌∷◌, ◌≡◌}
use wwdedup.Types.{Bytes, FileInfo, FilePath, StorageBlock}

-- What is decided outside this repository: SQLite's keys and LIKE, boost's paths, the hash
-- function, and values that the code reads uninitialised.
pub record Env : Type 0 where
  -- the size that BlocksCache is built with, in bits
  pub block_size_bits : ℕ
  -- DataBase::block_size, which its constructor reads from the FUSE context itself
  pub db_block_size : ℕ
  -- MurmurHash3_x64_128 with HASH_SEED
  pub murmur : Bytes → Bytes
  -- the key that SQLite gives to a row inserted into a table with these keys
  pub new_rowid : List ℕ → ℕ
  -- text LIKE pattern: the pattern first
  pub like : FilePath → FilePath → Bool
  -- boost::filesystem::path::branch_path and leaf
  pub branch_path : FilePath → FilePath
  pub leaf : FilePath → FilePath
  -- S_ISDIR and S_ISREG are computed from these; the value of an uninitialised st_mode
  pub stale_mode : ℕ

pub record FileRow : Type 0 where
  pub id : ℕ
  pub path : FilePath
  pub depth : ℤ
  pub size : ℕ
  pub mode : ℕ
  pub uid : ℕ
  pub gid : ℕ
  pub mtime : ℤ
  pub ctime : ℤ

-- The column _ID of file_blocks is never read.
pub record FileBlockRow : Type 0 where
  pub file_id : ℕ
  pub offset : ℕ
  pub hash : Bytes

pub record HashRow : Type 0 where
  pub id : ℕ
  pub hash : Bytes
  pub use_count : ℤ

pub record Tables : Type 0 where
  pub files : List FileRow
  pub file_blocks : List FileBlockRow
  pub block_hashes : List HashRow

-- `faults` says which of the coming SQLite and file calls fail: an event list of the environment,
-- after which no call fails. `saved` holds the tables of an open transaction's start; `file` is
-- the file_info that the running call works on.
pub record World : Type 0 where
  pub tables : Tables
  pub saved : Option Tables
  pub last_insert_id : ℕ
  pub faults : List Bool
  pub blocks : List StorageBlock
  pub next_serial : ℕ
  pub disk : ℕ → Bytes
  pub disk_blocks : ℕ
  pub file : FileInfo
  pub now : ℕ
  pub write_triggered : Bool

abbrev pub M : Type 0 → Type 0
M A = Exec World A

take_fault : List Bool → World → Outcome Bool × World
take_fault [] w = (ok false, w)
take_fault (f ∷ fs) w = (ok f, record w { faults = fs })

-- Whether the next call fails.
unfoldable pub faulty : M Bool
unfolding take_fault
faulty w = take_fault w.faults w

take_fault-cases :
    (fs : List Bool) (w : World)
    → w.faults ≡ fs
    → (b : Bool) × (rest : List Bool) × (take_fault fs w ≡ (ok b, record w { faults = rest }))
unfolding take_fault
take_fault-cases [] w e = (false, w.faults, refl)
take_fault-cases (f ∷ fs) w e = (f, fs, refl)

-- `faulty` changes nothing but the list of faults.
pub faulty-cases :
    (w : World) → (b : Bool) × (rest : List Bool) × (faulty w ≡ (ok b, record w { faults = rest }))
unfolding faulty
faulty-cases w = take_fault-cases w.faults w refl
