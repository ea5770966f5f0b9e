-- ===== src/Cache/Contents/Written.antt =====
-- _writeBlock keeps what the storage blocks hold.
use wwdedup.Cache.Access.{write_block}
use wwdedup.Cache.Contents.{IsStored, id_of, stored}
use wwdedup.Cache.Contents.Blocks.{IsCache-filled_blocks}
use wwdedup.Cache.Contents.Replaced.{id_of-other}
use wwdedup.Cache.Contents.Writes.{
  IsCache-replaced, fill_block_lem, filled, filled_world, holds_present, id_of-written, moved_with,
  new_num, old_row, replaced_world, stored_filled, write_block-absent, write_block-present,
  written_hash,
}
use wwdedup.Cache.Storage.{is_nil}
use wwdedup.Database.Consistency.{InStep, IsFresh, fresh_id}
use wwdedup.Database.Effect.{IsQuiet, new_key}
use wwdedup.Database.Pointers.{find_info, lock_weak}
use wwdedup.Cache.Contents.{HoldsHash}
use wwdedup.Database.Reload.{SameNum, num_after}
use wwdedup.Effects.{ok}
use wwdedup.Prelude.{
  subst, Bool, Bool-cases, Option, ap, arith, eqb, eqb_iff, false, find_first, if◌then◌else◌, inl,
  inr, none, refl, some, sym, ℕ, ◌==◌, ◌∙◌, ◌≡◌,
}
use wwdedup.Sql.{has_hash, select_block_hash}
use wwdedup.Sql.Counts.{IsConsistent}
use wwdedup.State.{Env, HashRow, Tables, World}
use wwdedup.Types.{BlockInfo, Bytes}

module _ (env : Env) (n : ℕ) (c : Bytes) (w : World) (fb : BlockInfo) where
  pub none_there :
      (old_row env n c w fb) ≡ none
      → find_first (has_hash (written_hash env n c w fb)) w.tables.block_hashes ≡ none
  unfolding select_block_hash
  none_there e = e

  pub not_written :
      (id : ℕ)
      → (old_row env n c w fb) ≡ none
      → (id == num_after (new_key env w.tables) (lock_weak n w) none fb) ≡ false
      → (id == (new_num env n c w fb)) ≡ false
  not_written id e apart =
      subst (λ o. (id == num_after (new_key env w.tables) (lock_weak n w) o fb) ≡ false) (sym e)
        apart

  holds_absent :
      (old_row env n c w fb) ≡ none
      → IsFresh env
      → IsConsistent w.tables
      → InStep w.file.st.ino n w.tables (lock_weak n w)
      → SameNum (lock_weak n w) fb
      → find_info n w ≡ some fb
      → is_nil c ≡ false
      → IsQuiet w
      → IsStored env w
      → IsStored env (filled_world env n c w fb).1
  holds_absent e fresh cons s same f z q k = record {
    holds = λ h id g.
        let there =
          sym (ap (λ (t : Tables). id_of h t.block_hashes) (filled env n c w fb q f k).tables)
          ∙ g in
        elim (Bool-cases (eqb (written_hash env n c w fb) h)) [
          | inl this ↦
              let at = (eqb_iff (written_hash env n c w fb) h).0 this in
              let num = id_of-written env n c w fb q f k id e cons s same (
                subst (λ x. id_of x (replaced_world env n c w fb).tables.block_hashes ≡ some id)
                  (sym at) there) in
              (c, stored_filled env n c w fb q f k id z ∙ ground (arith, num), at)
          | inr other ↦
              let (old, apart) =
                id_of-other h (written_hash env n c w fb) w.file.st.ino n (new_key env w.tables) id
                  (lock_weak n w) fb w.tables cons (fresh_id env w.tables fresh) (none_there e) same
                  other (moved_with env n c w fb none h id e q there) in
              subst (HoldsHash env h)
                (sym (
                  stored_filled env n c w fb q f k id z
                  ∙ ap (λ (b : Bool). if b then some c else stored id w) (not_written id e apart)))
                (k.holds h id old)
        ];
    cache =
        rw ((filled env n c w fb q f k).serial, (filled env n c w fb q f k).blocks)
          (IsCache-filled_blocks (replaced_world env n c w fb).next_serial _ c
            (written_hash env n c w fb) _ _ (replaced_world env n c w fb).blocks refl
            (IsCache-replaced env n c w fb q k.cache));
  }

  by_row :
      (row : Option HashRow)
      → (old_row env n c w fb) ≡ row
      → IsFresh env
      → IsConsistent w.tables
      → InStep w.file.st.ino n w.tables (lock_weak n w)
      → SameNum (lock_weak n w) fb
      → find_info n w ≡ some fb
      → is_nil c ≡ false
      → IsQuiet w
      → IsStored env w
      → ((write_block env n c w).0 ≡ ok tt) × IsStored env (write_block env n c w).1
  by_row (some row) e fresh cons s same f z q k =
      rw (write_block-present env n c w fb row e q) (refl, holds_present env n c w fb row e q k)
  by_row none e fresh cons s same f z q k = rw (write_block-absent env n c w fb e q) (
    (fill_block_lem n _ c (written_hash env n c w fb) _ (replaced_world env n c w fb)).0,
    holds_absent e fresh cons s same f z q k,
  )

  -- Where no call fails, no transaction is open, SQLite gives a new row an unused key, the tables
  -- are consistent, the old storage block as the cache has it agrees with them and with the
  -- block_info of the file block, and the content is not empty: if each hash of the tables has a
  -- storage block in which the cache or the storage file holds a content of that hash, each number
  -- is once in the cache and each object has its own serial, then _writeBlock succeeds and leaves
  -- that so.
  pub write_block-IsStored :
      IsQuiet w
      → IsFresh env
      → IsConsistent w.tables
      → InStep w.file.st.ino n w.tables (lock_weak n w)
      → SameNum (lock_weak n w) fb
      → find_info n w ≡ some fb
      → is_nil c ≡ false
      → IsStored env w
      → ((write_block env n c w).0 ≡ ok tt) × IsStored env (write_block env n c w).1
  write_block-IsStored q fresh cons s same f z k =
      by_row (old_row env n c w fb) refl fresh cons s same f z q k
