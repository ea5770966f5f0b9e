-- ===== src/Cache/Holes.antt =====
-- blockscache.cpp: a file block that the file_info knows as empty.
use wwdedup.Cache.Access.{
  attach_block, ensure_info, get_locked_file_block, get_storage_block, touch, unlock_info,
  write_block,
}
use wwdedup.Cache.Storage.{zeros}
use wwdedup.Cache.Transfer.{block_bytes, read_chunk}
use wwdedup.Database.Effect.{IsQuiet, quieted-eq, replace_result}
use wwdedup.Database.Pointers.{find_info, lock_in, lock_weak, set_info}
use wwdedup.Database.Reload.{InfoAfter, find_in-update_where, info_replaced}
use wwdedup.Effects.{ok, ◌>>=◌}
use wwdedup.Prelude.{false, none, refl, some, subst, true, ℕ, ◌≡◌}
use wwdedup.Sql.{select_block_hash}
use wwdedup.State.{Env, HashRow, World}
use wwdedup.Types.{BlockInfo, Bytes}

module _ (env : Env) (n start len : ℕ) (w : World) where
  hole_found :
      (b : BlockInfo)
      → find_info n w ≡ some b
      → find_info n (set_info n (λ i. record i { locked = true }) w)
        ≡ some (record b { locked = true })
  unfolding set_info
  hole_found b e = find_in-update_where n _ w.file.blocks b (λ a. refl) e

  read_hole :
      (b : BlockInfo)
      → find_info n w ≡ some b
      → b.locked ≡ false
      → b.empty ≡ true
      → b.storage_block ≡ none
      → (read_chunk env n start len w).0 ≡ ok (zeros len)
  unfolding read_chunk get_storage_block get_locked_file_block ensure_info attach_block touch
      block_bytes lock_in unlock_info ◌>>=◌
  read_hole b e l m s = rw (e, l, hole_found b e) (rw (s, m) (rw (hole_found b e, s) refl))

module _ (env : Env) (n start len : ℕ) (content : Bytes) (w : World) (fb : BlockInfo)
    (row : HashRow) where
  -- The block_info after the write: `empty` is as it was.
  abbrev deduplicated : BlockInfo
  deduplicated = record fb {
    hash = some (env.murmur content);
    storage_block_num = row.id;
    storage_block = none;
  }

  hole_written :
      IsQuiet w
      → lock_weak n w ≡ none
      → find_info n w ≡ some fb
      → select_block_hash (env.murmur content) w.tables ≡ some row
      → find_info n (write_block env n content w).1 ≡ some deduplicated
  unfolding write_block ◌>>=◌
  hole_written q s e f =
      let out = replace_result env n (env.murmur content) w none (some row) q s f in
      let info : InfoAfter env n (env.murmur content) none (some row) fb w =
        subst (InfoAfter env n (env.murmur content) none (some row) fb) (quieted-eq w q)
          (info_replaced env n (env.murmur content) w fb none (some row) s f e) in
      rw (out.0) info

  -- Where no call fails and no transaction is open, writing a content whose hash is stored already
  -- into a file block that the file_info has as empty and without a storage block, and reading the
  -- block again after its block_info was unlocked, gives zeros.
  pub write_block-read_chunk :
      IsQuiet w
      → lock_weak n w ≡ none
      → find_info n w ≡ some fb
      → fb.empty ≡ true
      → select_block_hash (env.murmur content) w.tables ≡ some row
      → (read_chunk env n start len (unlock_info n (write_block env n content w).1).1).0
        ≡ ok (zeros len)
  unfolding unlock_info set_info
  write_block-read_chunk q s e m f =
      read_hole env n start len (unlock_info n (write_block env n content w).1).1
        (record deduplicated { locked = false })
        (find_in-update_where n _ (write_block env n content w).1.file.blocks deduplicated
          (λ a. refl) (hole_written q s e f))
        refl m refl
