-- ===== src/Cache/Contents/RoundTrip.antt =====
-- _writeBlock and then readBuf's piece of the same file block.
use wwdedup.Cache.Access.{write_block}
use wwdedup.Cache.Contents.{IsStored}
use wwdedup.Cache.Contents.Named.{named_absent, named_present, num_present, read_named, then_read}
use wwdedup.Cache.Contents.Writes.{
  fill_block_lem, filled_world, old_row, recounted, replaced_world, write_block-absent,
  write_block-present,
}
use wwdedup.Cache.Storage.{is_nil}
use wwdedup.Database.Effect.{IsQuiet, new_key}
use wwdedup.Database.Pointers.{find_info, lock_weak}
use wwdedup.Database.Reload.{num_after}
use wwdedup.Effects.{ok, ◌>>=◌, ◌>>◌}
use wwdedup.Prelude.{Option, drop, false, none, refl, some, subst, sym, take, ℕ, ◌==◌, ◌≡◌}
use wwdedup.Sql.{select_block_hash}
use wwdedup.State.{Env, HashRow, M, World}
use wwdedup.Types.{BlockInfo, Bytes}

abbrev pub write_then_read : Env → ℕ → Bytes → ℕ → ℕ → M Bytes
write_then_read env n c start len = write_block env n c >> then_read env n start len

module _ (env : Env) (n : ℕ) (c : Bytes) (w : World) (fb : BlockInfo) where
  by_row :
      (row : Option HashRow) (start len : ℕ)
      → old_row env n c w fb ≡ row
      → ((c' : Bytes) → env.murmur c' ≡ env.murmur c → c' ≡ c)
      → is_nil c ≡ false
      → IsQuiet w
      → find_info n w ≡ some fb
      → fb.empty ≡ false
      → (num_after (new_key env w.tables) (lock_weak n w) row fb == 0) ≡ false
      → IsStored env w
      → (write_then_read env n c start len w).0 ≡ ok (take len (drop start c))
  unfolding ◌>>=◌
  by_row (some row) start len e apart z q f m nz k = rw (write_block-present env n c w fb row e q) (
      read_named env n row.id start len c _ (recounted env n c w fb)
        (subst (λ x. (x == 0) ≡ false) (num_present _ (lock_weak n w) row fb) nz)
        (named_present env n c w fb row e apart q f m k))
  by_row none start len e apart z q f m nz k = rw (write_block-absent env n c w fb e q) (
      rw ((fill_block_lem n _ c (env.murmur c) _ (replaced_world env n c w fb)).0) (
        read_named env n _ start len c _ (filled_world env n c w fb).1
          (subst (λ o. (num_after (new_key env w.tables) (lock_weak n w) o fb == 0) ≡ false) (sym e)
            nz)
          (named_absent env n c w fb e z q f m k)))

  -- Where no call fails, no transaction is open, the hash function gives no other content this
  -- hash, the content is not empty, the block_info of the file block is there, is not empty and
  -- gets a storage block other than 0, each hash of the tables has a storage block that holds a
  -- content of that hash, and the cache has each number once: after _writeBlock and the unlocking,
  -- what readBuf copies of this file block is the content that was written, from the start of the
  -- piece on, whether the content was a new one or one that another file block has already.
  pub write_block-then_read :
      (start len : ℕ)
      → ((c' : Bytes) → env.murmur c' ≡ env.murmur c → c' ≡ c)
      → is_nil c ≡ false
      → IsQuiet w
      → find_info n w ≡ some fb
      → fb.empty ≡ false
      → (num_after
            (new_key env w.tables)
            (lock_weak n w)
            (select_block_hash (env.murmur c) w.tables)
            fb
          == 0)
        ≡ false
      → IsStored env w
      → (write_then_read env n c start len w).0 ≡ ok (take len (drop start c))
  write_block-then_read start len apart z q f m nz k =
      by_row (select_block_hash (env.murmur c) w.tables) start len refl apart z q f m nz k
