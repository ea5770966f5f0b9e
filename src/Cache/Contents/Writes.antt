-- ===== src/Cache/Contents/Writes.antt =====
-- _writeBlock against the content of the storage blocks.
use wwdedup.Cache.Access.{used_again, add_block, fill_block, info_num, write_block}
use wwdedup.Cache.Contents.{
  id_of, has_num, find_first, HoldsHash, IsCache, IsStored, content_in, stored,
}
use wwdedup.Cache.Contents.Blocks.{
  content_in-filled_blocks, IsCache-update_where, content_in-update_where, filled_blocks,
  next_after,
}
use wwdedup.Cache.Contents.Replaced.{
  id_of-present, LeavesCache, left-same, left_blocks, replace-Leaves,
}
use wwdedup.Cache.Storage.{is_nil}
use wwdedup.Database.Blocks.{dropped, replace_storage_block}
use wwdedup.Database.Consistency.{InStep}
use wwdedup.Database.Effect.{moved, IsQuiet, new_key, quieted-eq, replace_result}
use wwdedup.Database.Pointers.{find_info, has_serial, lock_weak, set_block, set_info}
use wwdedup.Database.Reload.{
  info_after, HasId-moved, InfoAfter, SameNum, info_replaced, num-info_after, num_after,
}
use wwdedup.Effects.{Outcome, ok, ◌>>=◌}
use wwdedup.Prelude.{
  ◌==◌, arith, if◌then◌else◌, sym, update_where, Option, ap, false, none, refl, some, subst, ℕ, ◌∙◌,
  ◌≡◌,
}
use wwdedup.Sql.{select_block_hash}
use wwdedup.Sql.Counts.{IsConsistent}
use wwdedup.State.{Tables, Env, HashRow, World}
use wwdedup.Types.{BlockInfo, Bytes, StorageBlock}

-- A change that leaves the tables, the storage file, and which objects there are.
abbrev pub serial_at : ℕ → Option StorageBlock → ℕ
serial_at new none = new
serial_at new (some item) = item.serial

pub record FillsCache (n num : ℕ) (c h : Bytes) (o : Option StorageBlock) (before after : World)
    : Type 0 where
  pub blocks : after.blocks ≡ filled_blocks num c h before.now before.next_serial o before.blocks
  pub serial : after.next_serial ≡ next_after before.next_serial o
  pub tables : after.tables ≡ before.tables
  pub disk : after.disk ≡ before.disk
  pub reach : after.disk_blocks ≡ before.disk_blocks
  pub faults : after.faults ≡ before.faults
  pub file :
      after.file
      ≡ (set_info n
          (λ i. record i { storage_block = some (serial_at before.next_serial o) })
          before).file

pub fill_block_lem :
    (n num : ℕ) (c h : Bytes) (o : Option StorageBlock) (w : World)
    → ((fill_block n num c h o w).0 ≡ ok tt) × FillsCache n num c h o w (fill_block n num c h o w).1
unfolding fill_block set_block set_info add_block ◌>>=◌
fill_block_lem n num c h none w = (
  refl,
  record {
    blocks = refl;
    serial = refl;
    tables = refl;
    disk = refl;
    reach = refl;
    faults = refl;
    file = refl;
  },
)
fill_block_lem n num c h (some item) w = (
  refl,
  record {
    blocks = refl;
    serial = refl;
    tables = refl;
    disk = refl;
    reach = refl;
    faults = refl;
    file = refl;
  },
)

module _ (env : Env) (n : ℕ) (c : Bytes) (w : World) (fb : BlockInfo) where
  abbrev pub written_hash : Bytes
  written_hash = env.murmur c

  abbrev pub old_row : Option HashRow
  old_row = select_block_hash written_hash w.tables

  abbrev pub replaced_world : World
  replaced_world = (replace_storage_block env n written_hash w).1

  abbrev pub new_num : ℕ
  new_num = num_after (new_key env w.tables) (lock_weak n w) old_row fb

  pub replaced_info :
      IsQuiet w
      → find_info n w ≡ some fb
      → find_info n replaced_world
        ≡ some (info_after (new_key env w.tables) written_hash (lock_weak n w) old_row fb)
  replaced_info q k =
      subst (InfoAfter env n written_hash (lock_weak n w) old_row fb) (quieted-eq w q)
        (info_replaced env n written_hash w fb (lock_weak n w) old_row refl refl k)

  pub replaced_num :
      IsQuiet w → find_info n w ≡ some fb → info_num (find_info n replaced_world) ≡ new_num
  replaced_num q k =
      ap info_num (replaced_info q k)
      ∙ (num-info_after env n written_hash w fb (new_key env w.tables) (lock_weak n w) old_row).0

  pub left : IsQuiet w → LeavesCache (left_blocks (lock_weak n w) old_row w.blocks) w replaced_world
  left q = replace-Leaves env n written_hash w (lock_weak n w) old_row q refl refl

  pub stored_replaced : IsQuiet w → (id : ℕ) → stored id replaced_world ≡ stored id w
  unfolding stored
  stored_replaced q id =
      let l = left q in
      rw (l.disk, l.reach, l.blocks)
        (left-same (lock_weak n w) old_row w.blocks
          (λ bs.
            content_in w.disk w.disk_blocks id bs ≡ content_in w.disk w.disk_blocks id w.blocks)
          refl
          (λ s.
            content_in-update_where w.disk w.disk_blocks id (has_serial s) dropped w.blocks
              (λ b. (refl, (refl, refl)))))

  pub IsCache-replaced :
      IsQuiet w
      → IsCache w.next_serial w.blocks
      → IsCache replaced_world.next_serial replaced_world.blocks
  IsCache-replaced q k =
      let l = left q in
      rw (l.serial, l.blocks)
        (left-same (lock_weak n w) old_row w.blocks (IsCache w.next_serial) k (λ s.
          IsCache-update_where w.next_serial (has_serial s) dropped w.blocks (λ b. refl) (λ b. refl)
            k))

  abbrev pub recounted : World
  recounted = record replaced_world {
    blocks =
        update_where (has_num (info_num (find_info n replaced_world))) used_again
          replaced_world.blocks;
  }

  abbrev pub filled_world : Outcome (Unit {0}) × World
  filled_world =
      fill_block n (info_num (find_info n replaced_world)) c written_hash
        (find_first (has_num (info_num (find_info n replaced_world))) replaced_world.blocks)
        replaced_world

  pub write_block-present :
      (row : HashRow) → old_row ≡ some row → IsQuiet w → write_block env n c w ≡ (ok tt, recounted)
  unfolding write_block ◌>>=◌
  write_block-present row e q =
      rw ((replace_result env n written_hash w (lock_weak n w) old_row q refl refl).0, e) refl

  pub write_block-absent : old_row ≡ none → IsQuiet w → write_block env n c w ≡ filled_world
  unfolding write_block ◌>>=◌
  write_block-absent e q =
      rw ((replace_result env n written_hash w (lock_weak n w) old_row q refl refl).0, e) refl

  pub moved_tables :
      IsQuiet w
      → replaced_world.tables
        ≡ moved w.file.st.ino n written_hash (new_key env w.tables) (lock_weak n w) old_row w.tables
  moved_tables q = (replace_result env n written_hash w (lock_weak n w) old_row q refl refl).1

  pub stored-recounted : IsQuiet w → (id : ℕ) → stored id recounted ≡ stored id w
  unfolding stored
  stored-recounted q id =
      content_in-update_where replaced_world.disk replaced_world.disk_blocks id _ used_again
        replaced_world.blocks (λ b. (refl, (refl, refl)))
      ∙ stored_replaced q id

  pub moved_with :
      (row : Option HashRow) (k : Bytes) (id : ℕ)
      → old_row ≡ row
      → IsQuiet w
      → id_of k replaced_world.tables.block_hashes ≡ some id
      → id_of k
          (moved w.file.st.ino n written_hash
            (new_key env w.tables)
            (lock_weak n w)
            row
            w.tables).block_hashes
        ≡ some id
  moved_with row k id e q f =
      subst
        (λ o.
          id_of k
            (moved w.file.st.ino n written_hash (new_key env w.tables) (lock_weak n w) o
              w.tables).block_hashes
          ≡ some id)
        e (sym (ap (λ (t : Tables). id_of k t.block_hashes) (moved_tables q)) ∙ f)

  pub holds_present :
      (row : HashRow) → old_row ≡ some row → IsQuiet w → IsStored env w → IsStored env recounted
  holds_present row e q k = record {
    holds = λ h id f. subst (HoldsHash env h) (sym (stored-recounted q id)) (
        k.holds h id (
          sym (
            id_of-present h written_hash w.file.st.ino n (new_key env w.tables) (lock_weak n w) row
              w.tables)
          ∙ moved_with (some row) h id e q f));
    cache =
        IsCache-update_where _ _ used_again _ (λ b. refl) (λ b. refl) (IsCache-replaced q k.cache);
  }

  module _ (q : IsQuiet w) (f : find_info n w ≡ some fb) (k : IsStored env w) where
    pub filled :
        FillsCache n
          (info_num (find_info n replaced_world))
          c
          written_hash
          (find_first (has_num (info_num (find_info n replaced_world))) replaced_world.blocks)
          replaced_world
          filled_world.1
    filled = (fill_block_lem n _ c written_hash _ replaced_world).1

    pub stored_as_filled :
        (id : ℕ)
        → is_nil c ≡ false
        → stored id filled_world.1 ≡ (
            if id == info_num (find_info n replaced_world)
            then some c
            else stored id replaced_world)
    unfolding stored
    stored_as_filled id z =
        rw (filled.disk, filled.reach, filled.blocks)
          (content_in-filled_blocks replaced_world.disk replaced_world.disk_blocks id _ c
            written_hash _ _ _ replaced_world.blocks (IsCache-replaced q k.cache).serials refl z)

    pub stored_filled :
        (id : ℕ)
        → is_nil c ≡ false
        → stored id filled_world.1 ≡ (if id == new_num then some c else stored id w)
    stored_filled id z =
        subst (λ o. stored id filled_world.1 ≡ (if id == new_num then some c else o))
          (stored_replaced q id)
          (subst
            (λ x. stored id filled_world.1 ≡ (if id == x then some c else stored id replaced_world))
            (replaced_num q f) (stored_as_filled id z))

    pub id_of-written :
        (id : ℕ)
        → old_row ≡ none
        → IsConsistent w.tables
        → InStep w.file.st.ino n w.tables (lock_weak n w)
        → SameNum (lock_weak n w) fb
        → id_of written_hash replaced_world.tables.block_hashes ≡ some id
        → id ≡ new_num
    unfolding select_block_hash
    id_of-written id e cons s same g =
        let (row, found, num) =
          HasId-moved w.file.st.ino n written_hash (new_key env w.tables) w.tables (lock_weak n w)
            old_row fb cons s same refl in
        let there =
          sym (ap (λ (t : Tables). id_of written_hash t.block_hashes) (moved_tables q)) ∙ g in
        ground (arith, there, found, num)
