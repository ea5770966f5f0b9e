-- ===== src/Cache/Contents.antt =====
-- What the cache and the storage file hold together: the content of each storage block, as
-- _populateStorageBlock would find it.
pub mod Rows
pub mod Blocks
pub mod Replaced
pub mod Writes
pub mod Written
pub mod Places
pub mod Others
pub mod Frame
pub mod Released
pub mod Cleared
pub mod Truncate
pub mod Persisted
pub mod Backed
pub mod Survives
pub mod Loaded
pub mod Locks
pub mod Reads
pub mod Named
pub mod RoundTrip
pub mod Prepared
pub mod Gathered
pub mod Wrapper
pub mod Flushed
pub mod Rounds
pub mod Durable
pub mod Shrinks
pub mod Repeats
pub mod Evicted
use wwdedup.Cache.Storage.{is_nil}
use wwdedup.Database.Pointers.{has_num, has_serial}
use wwdedup.Prelude.{
  Bool, Distinct, List, Option, find_first, if◌then◌else◌, ltb, none, not, some, ℕ, ◌≡◌,
}
use wwdedup.Sql.{has_hash}
use wwdedup.State.{Env, HashRow, World}
use wwdedup.Types.{Bytes, StorageBlock}

abbrev pub on_disk : (ℕ → Bytes) → ℕ → ℕ → Option Bytes
on_disk disk reach id = if ltb id reach then some (disk id) else none

-- A cached object that has data, or else the storage file.
abbrev pub held : (ℕ → Bytes) → ℕ → ℕ → Option StorageBlock → Option Bytes
held disk reach id none = on_disk disk reach id
held disk reach id (some b) = if is_nil b.content then on_disk disk reach id else some b.content

-- The content of storage block `id`: none where it would have to be read behind the end of the file.
unfoldable pub stored : ℕ → World → Option Bytes
unfolding is_nil
stored id w = held w.disk w.disk_blocks id (find_first (has_num id) w.blocks)

abbrev pub id_in : Option HashRow → Option ℕ
id_in none = none
id_in (some r) = some r.id

-- The storage block of a hash.
abbrev pub id_of : Bytes → List HashRow → Option ℕ
id_of k rs = id_in (find_first (has_hash k) rs)

abbrev pub num_of_block : StorageBlock → ℕ
num_of_block b = b.storage_block_num

abbrev pub serial_of : StorageBlock → ℕ
serial_of b = b.serial

abbrev pub content_in : (ℕ → Bytes) → ℕ → ℕ → List StorageBlock → Option Bytes
content_in disk reach id bs = held disk reach id (find_first (has_num id) bs)

-- Serials that were not given yet.
abbrev pub is_new : ℕ → StorageBlock → Bool
is_new upcoming b = not (ltb b.serial upcoming)

-- A content with this hash.
abbrev pub HoldsHash : Env → Bytes → Option Bytes → Type 0
HoldsHash env k o = (c : Bytes) × (o ≡ some c) × (env.murmur c ≡ k)

-- The cached objects: each number is there once, and objects do not share a serial, nor have one
-- that is still to be given.
pub record IsCache (upcoming : ℕ) (bs : List StorageBlock) : Type 0 where
  pub nums : Distinct has_num num_of_block bs
  pub serials : Distinct has_serial serial_of bs
  pub below : find_first (is_new upcoming) bs ≡ none

-- Each hash of the tables has a storage block that holds a content with that hash.
pub record IsStored (env : Env) (w : World) : Type 0 where
  pub holds :
      (k : Bytes) (id : ℕ) → id_of k w.tables.block_hashes ≡ some id → HoldsHash env k (stored id w)
  pub cache : IsCache w.next_serial w.blocks
