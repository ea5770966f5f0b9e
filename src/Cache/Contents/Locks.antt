-- ===== src/Cache/Contents/Locks.antt =====
-- _getLockedFileBlock against the content of the storage blocks.
use wwdedup.Cache.Access.{
  add_block, attach_block, ensure_info, get_locked_file_block, insert_block, place_block,
}
use wwdedup.Cache.Contents.{IsCache, content_in, held, num_of_block, serial_of, stored}
use wwdedup.Cache.Contents.Blocks.{
  IsCache-insert_block, content_in-inserted, find_first-insert_new, is_new-later,
}
use wwdedup.Cache.Storage.{is_nil}
use wwdedup.Database.Pointers.{
  find_info, has_file_num, has_num, has_serial, lock_in, lock_serial, lock_weak, set_info,
}
use wwdedup.Database.Reload.{SameNum, find_in-update_where}
use wwdedup.Effects.{ok, ◌>>=◌}
use wwdedup.Prelude.{
  ==_refl, Bool-cases, Distinct, List, Option, ap, arith, false, find_first, find_first-key,
  find_first_holds, inl, inr, none, pos, refl, some, subst, suc, sym, true, update_where, ℕ, ◌==◌,
  ◌∙◌, ◌≡◌,
}
use wwdedup.State.{Env, World}
use wwdedup.Types.{BlockInfo, StorageBlock, storage_block}

-- The object that stands for storage block `num` in the world `w`, and the world that its finding leaves.
-- The file block has a block_info that is not empty and names the storage block.
abbrev pub Open : ℕ → ℕ → World → Type 0
Open n num w =
    (fb : BlockInfo) × (find_info n w ≡ some fb) × (fb.empty ≡ false) × (fb.storage_block_num ≡ num)

pub record Locks (env : Env) (n num : ℕ) (w : World) (b : StorageBlock) (v : World) : Type 0 where
  pub result : get_locked_file_block env n w ≡ (ok tt, v)
  pub live : lock_weak n v ≡ some b
  pub number : b.storage_block_num ≡ num
  pub content : held w.disk w.disk_blocks num (some b) ≡ stored num w
  pub disk : v.disk ≡ w.disk
  pub reach : v.disk_blocks ≡ w.disk_blocks
  pub faults : v.faults ≡ w.faults
  pub saved : v.saved ≡ w.saved
  pub tables : v.tables ≡ w.tables
  pub same : (id : ℕ) → stored id v ≡ stored id w
  pub cache : IsCache v.next_serial v.blocks
  pub info : Open n num v

abbrev pub Locked : Env → ℕ → ℕ → World → Type 0
Locked env n num w = (b : StorageBlock) × (v : World) × Locks env n num w b v

pub lock_lem :
    (n : ℕ) (w : World) (fb : BlockInfo)
    → find_info n w ≡ some fb
    → lock_weak n w ≡ lock_serial fb.storage_block w.blocks
unfolding lock_in
lock_lem n w fb e = rw e refl

pub by_num :
    (o : Option ℕ) (bs : List StorageBlock) (b : StorageBlock)
    → Distinct has_num num_of_block bs
    → lock_serial o bs ≡ some b
    → find_first (has_num b.storage_block_num) bs ≡ some b
by_num none bs b d e = cc
by_num (some s) bs b d e =
    find_first-key has_num num_of_block (has_serial s) bs b (λ a. ground arith)
      (==_refl b.storage_block_num) d e

module _ (env : Env) (n : ℕ) (w : World) (fb : BlockInfo) where
  abbrev locked_world : World
  locked_world = record w {
    file = record w.file {
      blocks = update_where (has_file_num n) (λ i. record i { locked = true }) w.file.blocks;
    };
  }

  locked_info :
      find_info n w ≡ some fb → find_info n locked_world ≡ some (record fb { locked = true })
  locked_info e = find_in-update_where n _ w.file.blocks fb (λ a. refl) e

  -- A live weak_ptr.
  locked_live :
      (b : StorageBlock)
      → find_info n w ≡ some fb
      → fb.locked ≡ false
      → fb.empty ≡ false
      → lock_serial fb.storage_block w.blocks ≡ some b
      → b.storage_block_num ≡ fb.storage_block_num
      → IsCache w.next_serial w.blocks
      → Locked env n fb.storage_block_num w
  unfolding get_locked_file_block ensure_info attach_block set_info stored ◌>>=◌
  locked_live b e l m h num c =
      let live = lock_lem n locked_world (record fb { locked = true }) (locked_info e) ∙ h in
      (
        b,
        locked_world,
        record {
          result = rw (e, l, locked_info e, live) refl;
          live = live;
          number = num;
          content = ap (held w.disk w.disk_blocks fb.storage_block_num) (
              sym (
                subst (λ x. find_first (has_num x) w.blocks ≡ some b) num
                  (by_num fb.storage_block w.blocks b c.nums h)));
          disk = refl;
          reach = refl;
          faults = refl;
          saved = refl;
          tables = refl;
          same = λ id. refl;
          cache = c;
          info = (record fb { locked = true }, locked_info e, m, refl);
        },
      )

  abbrev attached_world : ℕ → World
  attached_world s = record locked_world {
    file = record w.file {
      blocks =
          update_where (has_file_num n) (λ i. record i { storage_block = some s })
            locked_world.file.blocks;
    };
  }

  attached_info :
      (s : ℕ)
      → find_info n w ≡ some fb
      → find_info n (attached_world s) ≡ some (record fb { locked = true; storage_block = some s })
  attached_info s e = find_in-update_where n _ _ _ (λ a. refl) (locked_info e)

  -- No live weak_ptr, and an object of that number.
  locked_cached :
      (b : StorageBlock)
      → find_info n w ≡ some fb
      → fb.locked ≡ false
      → fb.empty ≡ false
      → lock_serial fb.storage_block w.blocks ≡ none
      → find_first (has_num fb.storage_block_num) w.blocks ≡ some b
      → IsCache w.next_serial w.blocks
      → Locked env n fb.storage_block_num w
  unfolding get_locked_file_block ensure_info attach_block place_block set_info stored ◌>>=◌
  locked_cached b e l m h k c =
      let dead = lock_lem n locked_world (record fb { locked = true }) (locked_info e) ∙ h in
      (
        b,
        attached_world b.serial,
        record {
          result = rw (e, l, locked_info e, dead, m, k) refl;
          live =
              lock_lem n (attached_world b.serial) _ (attached_info b.serial e)
              ∙ find_first-key has_serial serial_of (has_num fb.storage_block_num) w.blocks b
                  (λ a. ground arith) (==_refl b.serial) c.serials k;
          number = ground (arith, find_first_holds (has_num fb.storage_block_num) w.blocks b k);
          content = ap (held w.disk w.disk_blocks fb.storage_block_num) (sym k);
          disk = refl;
          reach = refl;
          faults = refl;
          saved = refl;
          tables = refl;
          same = λ id. refl;
          cache = c;
          info = (
            record fb { locked = true; storage_block = some b.serial },
            attached_info b.serial e,
            m,
            refl,
          );
        },
      )

  abbrev placed : StorageBlock
  placed = record (storage_block w.next_serial w.now fb.storage_block_num) {
    use_count = pos 0;
    hash = fb.hash;
    loaded = true;
  }

  abbrev placed_world : World
  placed_world = record (attached_world w.next_serial) {
    blocks = insert_block placed w.blocks;
    next_serial = suc w.next_serial;
  }

  placed_same :
      (id : ℕ)
      → find_first (has_num fb.storage_block_num) w.blocks ≡ none
      → content_in w.disk w.disk_blocks id (insert_block placed w.blocks)
        ≡ content_in w.disk w.disk_blocks id w.blocks
  unfolding is_nil
  placed_same id k =
      content_in-inserted w.disk w.disk_blocks id placed w.blocks k
      ∙ elim (Bool-cases (id == fb.storage_block_num)) [
        | inl there ↦ rw there (
            ap (held w.disk w.disk_blocks id)
              (sym (subst (λ x. find_first (has_num x) w.blocks ≡ none) (ground (arith, there)) k)))
        | inr other ↦ rw other refl
      ]

  -- Neither.
  locked_placed :
      find_info n w ≡ some fb
      → fb.locked ≡ false
      → fb.empty ≡ false
      → lock_serial fb.storage_block w.blocks ≡ none
      → find_first (has_num fb.storage_block_num) w.blocks ≡ none
      → IsCache w.next_serial w.blocks
      → Locked env n fb.storage_block_num w
  unfolding get_locked_file_block ensure_info attach_block place_block set_info add_block stored
      ◌>>=◌
  locked_placed e l m h k c =
      let dead = lock_lem n locked_world (record fb { locked = true }) (locked_info e) ∙ h in
      (
        placed,
        placed_world,
        record {
          result = rw (e, l, locked_info e, dead, m, k) refl;
          live =
              lock_lem n placed_world _ (attached_info w.next_serial e)
              ∙ find_first-insert_new (has_serial w.next_serial) placed w.blocks
                  (==_refl w.next_serial) (is_new-later w.next_serial w.blocks c.below).1;
          number = refl;
          content = ap (held w.disk w.disk_blocks fb.storage_block_num) (sym k);
          disk = refl;
          reach = refl;
          faults = refl;
          saved = refl;
          tables = refl;
          same = λ id. placed_same id k;
          cache = IsCache-insert_block w.next_serial placed w.blocks refl k c;
          info = (
            record fb { locked = true; storage_block = some w.next_serial },
            attached_info w.next_serial e,
            m,
            refl,
          );
        },
      )

  locked_dead :
      (o : Option StorageBlock)
      → find_info n w ≡ some fb
      → fb.locked ≡ false
      → fb.empty ≡ false
      → lock_serial fb.storage_block w.blocks ≡ none
      → find_first (has_num fb.storage_block_num) w.blocks ≡ o
      → IsCache w.next_serial w.blocks
      → Locked env n fb.storage_block_num w
  locked_dead none e l m h k c = locked_placed e l m h k c
  locked_dead (some b) e l m h k c = locked_cached b e l m h k c

  pub locked_either :
      (o : Option StorageBlock)
      → find_info n w ≡ some fb
      → fb.locked ≡ false
      → fb.empty ≡ false
      → lock_serial fb.storage_block w.blocks ≡ o
      → SameNum o fb
      → IsCache w.next_serial w.blocks
      → Locked env n fb.storage_block_num w
  locked_either none e l m h num c = locked_dead _ e l m h refl c
  locked_either (some b) e l m h num c = locked_live b e l m h num c
