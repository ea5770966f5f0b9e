-- ===== src/Examples/OneFile.antt =====
-- Small tables and a world with one open file, which the instances share.
use wwdedup.Database.Consistency.{IsFresh}
use wwdedup.Database.Effect.{IsQuiet}
use wwdedup.Database.Files.{root}
use wwdedup.Examples.Setup.{blank_file, blank_world, max_key, small_env}
use wwdedup.Prelude.{
  List, [], arith, false, find_first, ltb, none, pos, refl, some, true, ℕ, ◌+◌, ◌==◌, ◌∷◌, ◌≡◌,
}
use wwdedup.Sql.{at_offset, has_hash}
use wwdedup.Sql.Counts.{IsConsistent, refs}
use wwdedup.State.{FileBlockRow, FileRow, HashRow, Tables, World}
use wwdedup.Types.{BlockInfo, Bytes, StorageBlock}

abbrev pub hash : Bytes
hash = 7 ∷ []

abbrev pub other_hash : Bytes
other_hash = 8 ∷ []

abbrev pub place_row : FileBlockRow
place_row = record { file_id = 2; offset = 0; hash = hash }

abbrev pub hash_row : HashRow
hash_row = record { id = 1; hash = hash; use_count = pos 1 }

abbrev pub root_row : FileRow
root_row = record {
  id = 1;
  path = root;
  depth = pos 0;
  size = 0;
  mode = 16877;
  uid = 0;
  gid = 0;
  mtime = pos 5;
  ctime = pos 5;
}

abbrev pub file_row : FileRow
file_row = record {
  id = 2;
  path = b'/' ∷ b'a' ∷ [];
  depth = pos 1;
  size = 2;
  mode = 33188;
  uid = 0;
  gid = 0;
  mtime = pos 5;
  ctime = pos 5;
}

-- The root directory, and one file of one block.
abbrev pub one_file : Tables
one_file = record {
  files = root_row ∷ file_row ∷ [];
  file_blocks = place_row ∷ [];
  block_hashes = hash_row ∷ [];
}

abbrev pub cached : StorageBlock
cached = record {
  serial = 0;
  storage_block_num = 1;
  use_count = pos 1;
  hash = some hash;
  content = 3 ∷ 4 ∷ [];
  dirty = false;
  loaded = true;
  atime = 9;
}

abbrev pub info : BlockInfo
info = record {
  file_block_num = 0;
  storage_block_num = 1;
  hash = some hash;
  locked = true;
  loaded = true;
  empty = false;
  storage_block = some 0;
}

abbrev pub one_world : World
one_world = record blank_world {
  tables = one_file;
  blocks = cached ∷ [];
  next_serial = 1;
  file = record blank_file {
    name = b'/' ∷ b'a' ∷ [];
    depth = pos 1;
    st = record { ino = 2; size = 2; mode = 33188; uid = 0; gid = 0; mtime = pos 5; ctime = pos 5 };
    blocks = info ∷ [];
  };
}

pub quiet : IsQuiet one_world
quiet = record { no_faults = refl; no_saved = refl }

above_max : (ks : List ℕ) (m : ℕ) → ltb (max_key ks) m ≡ true → find_first (λ k. k == m) ks ≡ none
above_max [] m h = refl
above_max (k ∷ ks) m h = ground (arith, above_max ks m)

pub fresh : IsFresh small_env
fresh ks = above_max ks (max_key ks + 1) (ground arith)

pub one_file-IsConsistent : IsConsistent one_file
unfolding at_offset has_hash refs
one_file-IsConsistent = record {
  ids = (refl, tt);
  hashes = (refl, tt);
  places = (refl, tt);
  balanced = λ h. ground arith;
}
