-- ===== src/Cache/Contents/Wrapper.antt =====
-- _writeBlockWrapper, and then readBuf's piece of the same file block.
use wwdedup.Cache.Access.{touch, unlock_info, write_block}
use wwdedup.Cache.Contents.{IsStored, id_in, id_of, stored}
use wwdedup.Cache.Contents.Gathered.{base_bytes, num_after_nonzero, old_bytes_lem, overlay_full}
use wwdedup.Cache.Contents.Locks.{Locks, Open, by_num, lock_lem, locked_either}
use wwdedup.Cache.Contents.Prepared.{IsStored-kept, KeepsContents, touch-KeepsContents}
use wwdedup.Cache.Contents.RoundTrip.{write_block-then_read, write_then_read}
use wwdedup.Cache.Storage.{block_size, is_nil, overlay}
use wwdedup.Cache.Transfer.{write_over, old_bytes, or_zeros, read_chunk, write_block_wrapper}
use wwdedup.Database.Effect.{IsQuiet, new_key}
use wwdedup.Database.Pointers.{
  find_in, find_info, has_num, has_serial, lock_serial, lock_weak, set_block,
}
use wwdedup.Database.Reload.{SameNum}
use wwdedup.Effects.{Outcome, aborts, continue, hangs, ok, throws, ◌>>=◌, ◌>>◌}
use wwdedup.Prelude.{
  true, ◌≤◌, ◌+◌, leb, sym, ==_refl, List, [], ap, arith, drop, false, find_first,
  find_first-update_where, length, refl, some, subst, take, ℕ, ◌==◌, ◌∙◌, ◌≡◌,
}
use wwdedup.Sql.{select_block_hash}
use wwdedup.State.{Env, HashRow, M, Tables, World}
use wwdedup.Types.{BlockInfo, Bytes, FileInfo, StorageBlock, access}

-- What _writeBlockWrapper has before it writes: the data, and the world.
record Prepares (env : Env) (n num start : ℕ) (chunk c : Bytes) (w v : World) : Type 0 where
  pub result :
      write_block_wrapper env chunk n start w
      ≡ (write_block env n (overlay start chunk (base_bytes env (length chunk) c)) >> unlock_info n)
          v
  pub keeps : KeepsContents w v
  pub open_info : Open n num v

KeepsContents-then : {w v u : World} → KeepsContents w v → KeepsContents v u → KeepsContents w u
KeepsContents-then k l = record {
  faults = l.faults ∙ k.faults;
  saved = l.saved ∙ k.saved;
  tables = l.tables ∙ k.tables;
  same = λ id. l.same id ∙ k.same id;
  cache = l.cache;
}

Open-file : (n num : ℕ) (w v : World) → v.file ≡ w.file → Open n num w → Open n num v
Open-file n num w v e (fb, info, full, number) =
    (fb, ap (λ (f : FileInfo). find_in n f.blocks) e ∙ info, full, number)

Locks-KeepsContents :
    (env : Env) (n num : ℕ) (w v : World) (b : StorageBlock)
    → Locks env n num w b v
    → KeepsContents w v
Locks-KeepsContents env n num w v b l = record {
  faults = l.faults;
  saved = l.saved;
  tables = l.tables;
  same = l.same;
  cache = l.cache;
}

touched_found :
    (env : Env) (n num : ℕ) (w v : World) (b : StorageBlock)
    → Locks env n num w b v
    → find_first (has_num b.storage_block_num) (set_block b.serial (access v.now) v).blocks
      ≡ some (access v.now b)
unfolding set_block
touched_found env n num w v b l =
    let (fb, info, full, number) = l.info in
    find_first-update_where (has_num b.storage_block_num) (has_serial b.serial) (access v.now)
      v.blocks (λ a. refl)
    ∙ rw (by_num fb.storage_block v.blocks b l.cache.nums (sym (lock_lem n v fb info) ∙ l.live))
        (rw (==_refl b.serial) refl)

module _ (env : Env) (n num start : ℕ) (chunk c : Bytes) (w : World) where
  abbrev from_old : StorageBlock → World → Outcome Bytes × World → Outcome (Unit {0}) × World
  from_old b v r =
      continue r.0
        (λ bytes. write_over env n start chunk (or_zeros (block_size env) bytes) >> unlock_info n)
        r.1

  wrapper_locked :
      (b : StorageBlock) (v : World)
      → Locks env n num w b v
      → write_block_wrapper env chunk n start w
        ≡ from_old b v (
            old_bytes env
              (length chunk)
              (some (access v.now b))
              (set_block b.serial (access v.now) v))
  unfolding write_block_wrapper touch ◌>>=◌
  wrapper_locked b v l = rw (l.result, l.live) refl

  -- From the state that the locking leaves.
  Locks-Prepares :
      (b : StorageBlock) (v : World)
      → w.faults ≡ []
      → (num == 0) ≡ false
      → is_nil c ≡ false
      → leb (start + length chunk) (block_size env) ≡ true
      → stored num w ≡ some c
      → Locks env n num w b v
      → (u : World) × Prepares env n num start chunk c w u
  unfolding set_block ◌>>=◌ write_over write_block
  Locks-Prepares b v q z f fits s l =
      let touched = set_block b.serial (access v.now) v in
      let keeps = touch-KeepsContents b.serial v.now v l.cache in
      let (bytes, u, out) =
        old_bytes_lem env (length chunk) (access v.now b) touched c (l.faults ∙ q) keeps.cache
          (touched_found env n num w v b l) (ground (arith, l.number, z)) f
          (keeps.same b.storage_block_num
            ∙ (l.same b.storage_block_num ∙ (ap (λ (x : ℕ). stored x w) l.number ∙ s))) in
      (
        u,
        record {
          result =
              wrapper_locked b v l ∙ ap (from_old b v) out.result ∙ written bytes u out.content;
          keeps =
              KeepsContents-then (Locks-KeepsContents env n num w v b l)
                (KeepsContents-then keeps out.keeps);
          open_info = Open-file n num v u out.file l.info;
        },
      )
    where
      written :
          (bytes : Bytes) (u : World)
          → or_zeros (block_size env) bytes ≡ base_bytes env (length chunk) c
          → from_old b v (ok bytes, u)
            ≡ (write_block env n (overlay start chunk (base_bytes env (length chunk) c))
                  >> unlock_info n)
                u
      written bytes u e = rw (e, fits) refl

  continue_twice :
      (r : Outcome (Unit {0}) × World) (f : M (Unit {0})) (g : M Bytes)
      → continue (continue r.0 (λ _. f) r.1).0 (λ _. g) (continue r.0 (λ _. f) r.1).1
        ≡ continue r.0 (λ _. f >> g) r.1
  unfolding ◌>>=◌
  continue_twice (ok a, u) f g = refl
  continue_twice (throws, u) f g = refl
  continue_twice (aborts, u) f g = refl
  continue_twice (hangs, u) f g = refl

  abbrev new_content : Bytes
  new_content = overlay start chunk (base_bytes env (length chunk) c)

  regrouped :
      (at len : ℕ) (u : World)
      → write_block_wrapper env chunk n start w ≡ (write_block env n new_content >> unlock_info n) u
      → (write_block_wrapper env chunk n start >> read_chunk env n at len) w
        ≡ write_then_read env n new_content at len u
  unfolding ◌>>=◌
  regrouped at len u e =
      rw e
        (continue_twice (write_block env n new_content u) (unlock_info n) (read_chunk env n at len))

  row_id :
      {u : World}
      → Prepares env n num start chunk c w u
      → (r : HashRow) → select_block_hash (env.murmur new_content) u.tables ≡ some r
      → id_of (env.murmur new_content) w.tables.block_hashes ≡ some r.id
  unfolding select_block_hash
  row_id p r e =
      sym (ap (λ (t : Tables). id_of (env.murmur new_content) t.block_hashes) p.keeps.tables)
      ∙ ap id_in e

  prepared_read :
      (at len : ℕ) (u : World)
      → ((ks : List ℕ) → (env.new_rowid ks == 0) ≡ false)
      → ((k : Bytes) (id : ℕ) → id_of k w.tables.block_hashes ≡ some id → (id == 0) ≡ false)
      → ((c' : Bytes) → env.murmur c' ≡ env.murmur new_content → c' ≡ new_content)
      → is_nil chunk ≡ false
      → (num == 0) ≡ false
      → IsQuiet w
      → IsStored env w
      → Prepares env n num start chunk c w u
      → (write_then_read env n new_content at len u).0 ≡ ok (take len (drop at new_content))
  unfolding select_block_hash
  prepared_read at len u keys ids apart f z q k p =
      let (fb, info, full, number) = p.open_info in
      write_block-then_read env n new_content u fb at len apart
        (overlay_full start chunk (base_bytes env (length chunk) c) f)
        (record { no_faults = p.keeps.faults ∙ q.no_faults; no_saved = p.keeps.saved ∙ q.no_saved })
        info full
        (num_after_nonzero (new_key env u.tables) (lock_weak n u) _ fb (keys _)
          (λ r e. ids (env.murmur new_content) r.id (row_id p r e)) (ground (arith, number, z)))
        (IsStored-kept env w u p.keeps k)

-- Where no call fails, no transaction is open, SQLite gives no row the key 0 and the tables have
-- none, the block_info of the file block is there, not locked, not empty and names a storage block
-- other than 0, a live weak_ptr of it is to an object of that number, the cache or the storage
-- file holds a content of that storage block that is not empty, each hash of the tables has a
-- storage block that holds a content of that hash, each number is once in the cache and each
-- object has its own serial, and the chunk is not empty and fits into the block from its place on,
-- and the hash function gives no other content the hash of what is written: what readBuf copies of
-- the file block after _writeBlockWrapper is the old content, or zeros where the chunk is a block
-- long or more, with the chunk laid over it from its place on.
pub write_block_wrapper-read_chunk :
    (env : Env) (n start : ℕ) (chunk c : Bytes) (w : World) (fb : BlockInfo) (at len : ℕ)
    → ((ks : List ℕ) → (env.new_rowid ks == 0) ≡ false)
    → ((k : Bytes) (id : ℕ) → id_of k w.tables.block_hashes ≡ some id → (id == 0) ≡ false)
    → ((c' : Bytes)
        → env.murmur c' ≡ env.murmur (overlay start chunk (base_bytes env (length chunk) c))
        → c' ≡ overlay start chunk (base_bytes env (length chunk) c))
    → is_nil chunk ≡ false
    → start + length chunk ≤ block_size env
    → is_nil c ≡ false
    → IsQuiet w
    → find_info n w ≡ some fb
    → fb.locked ≡ false
    → fb.empty ≡ false
    → (fb.storage_block_num == 0) ≡ false
    → SameNum (lock_weak n w) fb
    → IsStored env w
    → stored fb.storage_block_num w ≡ some c
    → ((write_block_wrapper env chunk n start >> read_chunk env n at len) w).0
      ≡ ok (take len (drop at (overlay start chunk (base_bytes env (length chunk) c))))
write_block_wrapper-read_chunk env n start chunk c w fb at len keys ids apart f fits g q e l m z s k
      h =
    let num = fb.storage_block_num in
    let (b, v, locks) =
      locked_either env n w fb (lock_serial fb.storage_block w.blocks) e l m refl
        (subst (λ o. SameNum o fb) (lock_lem n w fb e) s) k.cache in
    let (u, p) =
      Locks-Prepares env n num start chunk c w b v q.no_faults z g (ground (arith, fits)) h locks in
    rw (regrouped env n num start chunk c w at len u p.result)
      (prepared_read env n num start chunk c w at len u keys ids apart f z q k p)
