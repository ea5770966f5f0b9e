-- ===== src/Cache/Contents/Survives.antt =====
-- _writeBlock and then a round of the writer thread: what a restart finds.
use wwdedup.Cache.Access.{write_block}
use wwdedup.Cache.Contents.{IsStored}
use wwdedup.Cache.Contents.Backed.{backed_filled, backed_recounted}
use wwdedup.Cache.Contents.Frame.{write_block-content_at}
use wwdedup.Cache.Contents.Persisted.{AllBacked, run_round-content_at, uncached}
use wwdedup.Cache.Contents.Places.{content_at}
use wwdedup.Cache.Contents.Writes.{
  filled, left, old_row, replaced_world, write_block-absent, write_block-present,
}
use wwdedup.Cache.Contents.Written.{write_block-IsStored}
use wwdedup.Cache.Storage.{is_nil}
use wwdedup.Cache.Writer.{run_round}
use wwdedup.Database.Consistency.{InStep, IsFresh}
use wwdedup.Database.Effect.{IsQuiet}
use wwdedup.Database.Pointers.{find_info, lock_weak}
use wwdedup.Database.Reload.{SameNum}
use wwdedup.Prelude.{
  Bool, Option, [], false, if◌then◌else◌, none, refl, some, ℕ, ◌&&◌, ◌==◌, ◌∙◌, ◌≡◌,
}
use wwdedup.Sql.Counts.{IsConsistent}
use wwdedup.State.{Env, HashRow, World}
use wwdedup.Types.{BlockInfo, Bytes}

module _ (env : Env) (n : ℕ) (c : Bytes) (w : World) (fb : BlockInfo) where
  abbrev Ready : World → Type 0
  Ready v = (v.faults ≡ []) × AllBacked v

  module _ (q : IsQuiet w) (f : find_info n w ≡ some fb) (z : is_nil c ≡ false)
      (backed : AllBacked w) (k : IsStored env w) where
    replaced_faults : (replaced_world env n c w fb).faults ≡ []
    replaced_faults = (left env n c w fb q).faults ∙ q.no_faults

    write_block-Ready :
        (row : Option HashRow) → old_row env n c w fb ≡ row → Ready (write_block env n c w).1
    write_block-Ready (some row) e =
        rw (write_block-present env n c w fb row e q)
          (replaced_faults, backed_recounted env n c w fb q z backed)
    write_block-Ready none e = rw (write_block-absent env n c w fb e q) (
      (filled env n c w fb q f k).faults ∙ replaced_faults,
      backed_filled env n c w fb q z backed f k,
    )

    -- Where no call fails, no transaction is open, SQLite gives a new row an unused key, the
    -- tables are consistent, the old storage block as the cache has it agrees with them and with
    -- the block_info of the file block, the content is not empty and the hash function gives no
    -- other content its hash, each hash of the tables has a storage block that holds a content of
    -- that hash, each number is once in the cache and each object has its own serial, and a cached
    -- object is dirty only with data, and clean with data only where the storage file has these
    -- data: after _writeBlock and then a round of the writer thread, the tables and the storage
    -- file alone, without the cache, have the content for the written file block, and for each
    -- other file block of any file what was stored for it.
    pub write_block-survives :
        (repeat : Bool) (i m : ℕ)
        → IsFresh env
        → IsConsistent w.tables
        → InStep w.file.st.ino n w.tables (lock_weak n w)
        → SameNum (lock_weak n w) fb
        → ((c' : Bytes) → env.murmur c' ≡ env.murmur c → c' ≡ c)
        → content_at i m (uncached (run_round repeat (write_block env n c w).1).1)
          ≡ (if (i == w.file.st.ino) && (m == n) then some c else content_at i m w)
    write_block-survives repeat i m fresh cons s same alone =
        let after = (write_block env n c w).1 in
        let ready = write_block-Ready (old_row env n c w fb) refl in
        let (done, kept) = write_block-IsStored env n c w fb q fresh cons s same f z k in
        run_round-content_at env repeat after ready.0 kept ready.1 i m
        ∙ write_block-content_at env n c w fb q cons s same f z k i m fresh alone
