-- ===== src/Types.antt =====
-- dedup_types.h and dedup_types.cpp: the shared structs, the order of cached blocks and the
-- reference count of a file_info.
pub mod Order
pub mod Modes
use wwdedup.Prelude.{
  ℕ, zero, suc, ◌+◌, ◌-◌, Bool, true, false, Option, none, some, List, [], ◌≡◌, ltb, ◌==◌,
  if◌then◌else◌, ℤ, pos, negsuc,
}

abbrev pub Bytes : Type 0
Bytes = List ℕ

-- A path as its bytes.
abbrev pub FilePath : Type 0
FilePath = List ℕ

-- struct dedupfs_options
pub record Options : Type 0 where
  pub block_size_bits : ℕ
  pub block_size : ℕ
  pub db_url : FilePath

-- struct storage_block. `serial` is the identity of the heap object, which a weak_ptr names.
pub record StorageBlock : Type 0 where
  pub serial : ℕ
  pub storage_block_num : ℕ
  pub use_count : ℤ
  pub hash : Option Bytes
  pub content : Bytes
  pub dirty : Bool
  pub loaded : Bool
  pub atime : ℕ

-- storage_block(num), made at time `now`.
abbrev pub storage_block : ℕ → ℕ → ℕ → StorageBlock
storage_block serial now num = record {
  serial = serial;
  storage_block_num = num;
  use_count = pos 0;
  hash = none;
  content = [];
  dirty = false;
  loaded = false;
  atime = now;
}

-- void access()
abbrev pub access : ℕ → StorageBlock → StorageBlock
access now b = record b { atime = now }

-- struct block_info. `locked` is its mutex; `storage_block` is the weak_ptr, by serial.
pub record BlockInfo : Type 0 where
  pub file_block_num : ℕ
  pub storage_block_num : ℕ
  pub hash : Option Bytes
  pub locked : Bool
  pub loaded : Bool
  pub empty : Bool
  pub storage_block : Option ℕ

-- block_info(_fileBlockNum)
abbrev pub block_info : ℕ → BlockInfo
block_info n = record {
  file_block_num = n;
  storage_block_num = 0;
  hash = none;
  locked = false;
  loaded = false;
  empty = true;
  storage_block = none;
}

-- The fields of `struct stat` that the program uses.
pub record Stat : Type 0 where
  pub ino : ℕ
  pub size : ℕ
  pub mode : ℕ
  pub uid : ℕ
  pub gid : ℕ
  pub mtime : ℤ
  pub ctime : ℤ

-- struct file_info
pub record FileInfo : Type 0 where
  pub refcount : ℕ
  pub name : FilePath
  pub depth : ℤ
  pub st : Stat
  pub blocks : List BlockInfo

-- storage_block_comparator::operator(), on pointers that may be null.
unfoldable pub compare_blocks : Option StorageBlock → Option StorageBlock → ℤ
compare_blocks none none = pos 0
compare_blocks none (some b) = negsuc 0
compare_blocks (some a) none = pos 1
compare_blocks (some a) (some b) =
    if ltb a.storage_block_num b.storage_block_num
    then negsuc 0
    else if ltb b.storage_block_num a.storage_block_num
    then pos 1
    else pos 0

-- intrusive_ptr_add_ref
unfoldable pub add_ref : FileInfo → FileInfo
add_ref p = record p { refcount = p.refcount + 1 }

-- intrusive_ptr_release: none once the object is deleted. The caller holds a reference.
unfoldable pub release_ref : FileInfo → Option FileInfo
release_ref p = if p.refcount == 1 then none else some (record p { refcount = p.refcount - 1 })
