-- ===== src/Examples/Mounts.antt =====
-- Instances of the theorems on reading, on threads and on the storage file.
use wwdedup.Cache.Lifetimes.{end_thread-closes}
use wwdedup.Cache.Reading.{Covers, ReadPiece, read_buf-read_pieces, read_pieces}
use wwdedup.Cache.Signature.{open_storage-reopen}
use wwdedup.Cache.Storage.{open_storage, signature, zeros}
use wwdedup.Cache.Threads.{Threads, cache_of, end_thread, fs_of}
use wwdedup.Cache.Transfer.{read_buf}
use wwdedup.Effects.{ok, throws}
use wwdedup.Examples.OneFile.{one_world}
use wwdedup.Examples.Setup.{small_env}
use wwdedup.Prelude.{List, [], arith, false, none, refl, some, true, ◌++◌, ◌∷◌, ◌≡◌}

-- A new file of blocks of 16 bytes, opened again with 16 and with 32.
open_storage-reopen_example :
    let made = signature 16 (zeros 16) in
    (open_storage 16 true true (zeros 16) [] ≡ ok made)
    × (open_storage 16 true true (zeros 16) (made ++ []) ≡ ok (made ++ []))
    × (open_storage 32 true true (zeros 16) (made ++ []) ≡ throws)
open_storage-reopen_example =
    open_storage-reopen 16 32 true (zeros 16) (zeros 16) [] (omega arith) (omega arith)
      (omega arith) (omega arith) refl refl

read_buf-read_pieces_example :
    (ps : List ReadPiece) × ((read_buf small_env 4 1 one_world ≡ read_pieces small_env ps one_world)
      × Covers 2 1 ps 1)
read_buf-read_pieces_example = read_buf-read_pieces small_env 4 1 one_world (omega arith)

-- Thread 1 started the cache, and thread 2 works.
abbrev at_work : Threads
at_work = record {
  caches =
      record {
        thread = 2;
        object = record { db = some 0; terminated = none; writer = false; block_size_bits = 4 };
      }
      ∷ record {
        thread = 1;
        object = record { db = none; terminated = some false; writer = true; block_size_bits = 4 };
      }
      ∷ [];
  filesystems = record { thread = 2; db = 0 } ∷ [];
  storage = some [];
  databases = 0 ∷ [];
  next_db = 1;
}

-- The end of thread 2 closes the storage file under the writer thread of thread 1.
end_thread-closes_example :
    let after = (end_thread 2 at_work).1 in
    (after.storage ≡ none)
    × (cache_of 2 after ≡ none)
    × (fs_of 2 after ≡ none)
    × (cache_of 1 after ≡ cache_of 1 at_work)
    × (fs_of 1 after ≡ fs_of 1 at_work)
end_thread-closes_example =
    end_thread-closes 2 1 at_work
      (record {
        thread = 2;
        object = record { db = some 0; terminated = none; writer = false; block_size_bits = 4 };
      })
      refl refl
