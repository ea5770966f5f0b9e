-- ===== src/Cache/Contents/Named.antt =====
-- What a file block names after _writeBlock.
use wwdedup.Cache.Access.{info_num, rewritten, unlock_info}
use wwdedup.Cache.Contents.{IsCache, IsStored, id_in, id_of, serial_of, stored}
use wwdedup.Cache.Contents.Blocks.{
  IsCache-filled_blocks, filled_blocks, find_first-insert_new, is_new-later,
}
use wwdedup.Cache.Contents.Locks.{lock_lem}
use wwdedup.Cache.Contents.Reads.{read_chunk-stored}
use wwdedup.Cache.Contents.Writes.{
  IsCache-replaced, filled, filled_world, holds_present, left, new_num, old_row, recounted,
  replaced_info, replaced_num, replaced_world, serial_at, stored-recounted, stored_filled,
}
use wwdedup.Cache.Storage.{is_nil}
use wwdedup.Cache.Transfer.{read_chunk}
use wwdedup.Database.Effect.{IsQuiet, new_key}
use wwdedup.Database.Pointers.{
  find_in, find_info, has_num, has_serial, lock_serial, lock_weak, set_info,
}
use wwdedup.Database.Reload.{SameNum, find_in-update_where, info_after, num-info_after, num_after}
use wwdedup.Effects.{ok, ◌>>=◌, ◌>>◌}
use wwdedup.Prelude.{
  ap, ==_refl, List, Option, [], arith, drop, false, find_first, find_first-key,
  find_first-update_where, find_first_holds, none, refl, some, subst, sym, take, ℕ, ◌==◌, ◌∙◌, ◌≡◌,
}
use wwdedup.Sql.{select_block_hash}
use wwdedup.State.{Env, HashRow, M, World}
use wwdedup.Types.{BlockInfo, Bytes, FileInfo, StorageBlock, storage_block}

abbrev pub unlocked : BlockInfo → BlockInfo
unlocked i = record i { locked = false }

-- The file block in `w` names storage block `num`, which holds the content.
pub record Names (n num : ℕ) (c : Bytes) (fb : BlockInfo) (w : World) : Type 0 where
  pub info : find_info n w ≡ some fb
  pub full : fb.empty ≡ false
  pub number : fb.storage_block_num ≡ num
  pub live : SameNum (lock_serial fb.storage_block w.blocks) fb
  pub cache : IsCache w.next_serial w.blocks
  pub content : stored num w ≡ some c
  pub quiet : w.faults ≡ []

abbrev pub then_read : Env → ℕ → ℕ → ℕ → M Bytes
then_read env n start len = unlock_info n >> read_chunk env n start len

pub same_unlocked :
    (o : Option StorageBlock) (fb : BlockInfo) → SameNum o fb → SameNum o (unlocked fb)
same_unlocked none fb s = tt
same_unlocked (some b) fb s = s

pub read_named :
    (env : Env) (n num start len : ℕ) (c : Bytes) (fb : BlockInfo) (w : World)
    → (num == 0) ≡ false
    → Names n num c fb w
    → (then_read env n start len w).0 ≡ ok (take len (drop start c))
unfolding unlock_info set_info stored ◌>>=◌
read_named env n num start len c fb w z k =
    let after = set_info n unlocked w in
    let info : find_info n after ≡ some (unlocked fb) =
      find_in-update_where n unlocked w.file.blocks fb (λ a. refl) k.info in
    read_chunk-stored env n start len after (unlocked fb) c k.quiet info refl k.full
      (ground (arith, k.number, z))
      (subst (λ o. SameNum o (unlocked fb)) (sym (lock_lem n after (unlocked fb) info))
        (same_unlocked _ fb k.live))
      k.cache (subst (λ x. stored x after ≡ some c) (sym k.number) k.content)

-- The weak_ptr that _writeBlock sets.
pub filled_live :
    (num : ℕ) (c h : Bytes) (now upcoming : ℕ) (o : Option StorageBlock) (bs : List StorageBlock)
    → find_first (has_num num) bs ≡ o
    → IsCache upcoming bs
    → (b : StorageBlock) × (find_first
          (has_serial (serial_at upcoming o))
          (filled_blocks num c h now upcoming o bs)
        ≡ some b)
      × (b.storage_block_num ≡ num)
filled_live num c h now upcoming none bs e k = (
  rewritten c h (storage_block upcoming now num),
  find_first-insert_new (has_serial upcoming) _ bs (==_refl upcoming)
      (is_new-later upcoming bs k.below).1,
  refl,
)
filled_live num c h now upcoming (some item) bs e k =
    let at : find_first (has_serial item.serial) bs ≡ some item =
      find_first-key has_serial serial_of (has_num num) bs item (λ a. ground arith)
        (==_refl item.serial) k.serials e in
    (
      rewritten c h item,
      find_first-update_where (has_serial item.serial) (has_serial item.serial) (rewritten c h) bs
            (λ a. refl)
          ∙ rw at (ground arith),
      ground (arith, find_first_holds (has_num num) bs item e),
    )

pub info_present :
    (id : ℕ) (h : Bytes) (sb : Option StorageBlock) (row : HashRow) (fb : BlockInfo)
    → info_after id h sb (some row) fb
      ≡ record fb { hash = some h; storage_block_num = row.id; storage_block = none }
info_present id h none row fb = refl
info_present id h (some b) row fb = refl

pub num_present :
    (id : ℕ) (sb : Option StorageBlock) (row : HashRow) (fb : BlockInfo)
    → num_after id sb (some row) fb ≡ row.id
num_present id none row fb = refl
num_present id (some b) row fb = refl

pub info_absent :
    (id : ℕ) (h : Bytes) (sb : Option StorageBlock) (fb : BlockInfo)
    → (info_after id h sb none fb).empty ≡ fb.empty
info_absent id h none fb = refl
info_absent id h (some b) fb = ground arith

module _ (env : Env) (n : ℕ) (c : Bytes) (w : World) (fb : BlockInfo) where
  pub found_row :
      (row : HashRow)
      → old_row env n c w fb ≡ some row
      → id_of (env.murmur c) w.tables.block_hashes ≡ some row.id
  unfolding select_block_hash
  found_row row e = ap id_in e

  pub named_present :
      (row : HashRow)
      → old_row env n c w fb ≡ some row
      → ((c' : Bytes) → env.murmur c' ≡ env.murmur c → c' ≡ c)
      → IsQuiet w
      → find_info n w ≡ some fb
      → fb.empty ≡ false
      → IsStored env w
      → Names n row.id c
          (record fb {
            hash = some (env.murmur c);
            storage_block_num = row.id;
            storage_block = none;
          })
          (recounted env n c w fb)
  named_present row e apart q f m k = record {
    info =
        replaced_info env n c w fb q f
        ∙ subst
            (λ o.
              some (info_after (new_key env w.tables) (env.murmur c) (lock_weak n w) o fb)
              ≡ some (record fb {
                hash = some (env.murmur c);
                storage_block_num = row.id;
                storage_block = none;
              }))
            (sym e)
            (ap some (info_present (new_key env w.tables) (env.murmur c) (lock_weak n w) row fb));
    full = m;
    number = refl;
    live = tt;
    cache = (holds_present env n c w fb row e q k).cache;
    content =
        let (c', there, same) = k.holds (env.murmur c) row.id (found_row row e) in
        stored-recounted env n c w fb q row.id ∙ there ∙ ap some (apart c' same);
    quiet = (left env n c w fb q).faults ∙ q.no_faults;
  }

  abbrev pub absent_info : BlockInfo
  absent_info = info_after (new_key env w.tables) (env.murmur c) (lock_weak n w) none fb

  abbrev pub found_block : Option StorageBlock
  found_block =
      find_first (has_num (info_num (find_info n (replaced_world env n c w fb))))
        (replaced_world env n c w fb).blocks

  abbrev pub attached_info : BlockInfo
  attached_info = record absent_info {
    storage_block = some (serial_at (replaced_world env n c w fb).next_serial found_block);
  }

  pub replaced_absent :
      old_row env n c w fb ≡ none
      → IsQuiet w
      → find_info n w ≡ some fb
      → find_info n (replaced_world env n c w fb) ≡ some absent_info
  replaced_absent e q f =
      subst
        (λ o.
          find_info n (replaced_world env n c w fb)
          ≡ some (info_after (new_key env w.tables) (env.murmur c) (lock_weak n w) o fb))
        e (replaced_info env n c w fb q f)

  pub absent_num :
      old_row env n c w fb ≡ none → absent_info.storage_block_num ≡ new_num env n c w fb
  absent_num e =
      (num-info_after env n (env.murmur c) w fb (new_key env w.tables) (lock_weak n w) none).0
      ∙ ap (λ o. num_after (new_key env w.tables) (lock_weak n w) o fb) (sym e)

  pub attached_live :
      old_row env n c w fb ≡ none
      → IsQuiet w
      → find_info n w ≡ some fb
      → IsStored env w
      → SameNum
          (lock_serial attached_info.storage_block (filled_world env n c w fb).1.blocks)
          attached_info
  attached_live e q f k =
      let after = replaced_world env n c w fb in
      let (b, there, num) =
        filled_live (info_num (find_info n after)) c (env.murmur c) after.now after.next_serial
          found_block after.blocks refl (IsCache-replaced env n c w fb q k.cache) in
      subst (λ o. SameNum o attached_info)
        (sym (
          ap (find_first (has_serial (serial_at after.next_serial found_block)))
            (filled env n c w fb q f k).blocks
          ∙ there))
        (num ∙ (replaced_num env n c w fb q f ∙ sym (absent_num e)))

  pub named_absent :
      old_row env n c w fb ≡ none
      → is_nil c ≡ false
      → IsQuiet w
      → find_info n w ≡ some fb
      → fb.empty ≡ false
      → IsStored env w
      → Names n (new_num env n c w fb) c attached_info (filled_world env n c w fb).1
  unfolding set_info
  named_absent e z q f m k =
      let fills = filled env n c w fb q f k in
      let after = replaced_world env n c w fb in
      record {
        info =
            ap (λ (i : FileInfo). find_in n i.blocks) fills.file
            ∙ find_in-update_where n _ after.file.blocks absent_info (λ a. refl)
                (replaced_absent e q f);
        full = info_absent _ _ (lock_weak n w) fb ∙ m;
        number = absent_num e;
        live = attached_live e q f k;
        cache =
            rw (fills.serial, fills.blocks)
              (IsCache-filled_blocks after.next_serial _ c (env.murmur c) _ _ after.blocks refl
                (IsCache-replaced env n c w fb q k.cache));
        content = stored_filled env n c w fb q f k (new_num env n c w fb) z ∙ ground arith;
        quiet = fills.faults ∙ ((left env n c w fb q).faults ∙ q.no_faults);
      }
