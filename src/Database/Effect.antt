-- ===== src/Database/Effect.antt =====
-- What replaceStorageBlock and releaseStorageBlock do to the tables where no call fails.
use wwdedup.Database.Blocks.{replace_storage_block}
use wwdedup.Database.Pointers.{lock_weak}
use wwdedup.Effects.{◌>>=◌, ok}
use wwdedup.Prelude.{
  is_some, Bool-cases, Option, [], arith, eqb_ℤ, if◌then◌else◌, inl, inr, map, none, pos, some,
  subst, ℕ, ◌-ℤ◌, ◌≡◌,
}
use wwdedup.Sql.{
  increase_use_count, insert_block_hash, replace_file_block, select_block_hash, set_use_count,
  update_block_hash,
}
use wwdedup.State.{Env, HashRow, Tables, World}
use wwdedup.Types.{Bytes, StorageBlock}

-- No call fails, and no transaction is open.
pub record IsQuiet (w : World) : Type 0 where
  pub no_faults : w.faults ≡ []
  pub no_saved : w.saved ≡ none

-- The tables after replaceStorageBlock: `row` is what the new hash was found in, `id` the key of an
-- allocation, and `sb` the old storage block.
abbrev pub moved : ℕ → ℕ → Bytes → ℕ → Option StorageBlock → Option HashRow → Tables → Tables
moved i n h id none (some row) t = replace_file_block i n h (increase_use_count h t)
moved i n h id none none t = replace_file_block i n h (insert_block_hash h id t)
moved i n h id (some b) (some row) t =
    set_use_count (b.use_count -ℤ pos 1) b.storage_block_num
      (replace_file_block i n h (increase_use_count h t))
moved i n h id (some b) none t =
    if eqb_ℤ b.use_count (pos 1)
    then set_use_count b.use_count b.storage_block_num
        (replace_file_block i n h (update_block_hash h b.storage_block_num t))
    else set_use_count (b.use_count -ℤ pos 1) b.storage_block_num
        (replace_file_block i n h (insert_block_hash h id t))

abbrev pub new_key : Env → Tables → ℕ
new_key env t = env.new_rowid (map (λ (r : HashRow). r.id) t.block_hashes)

abbrev pub quieted : World → World
quieted w = record w { faults = []; saved = none }

pub quieted-eq : (w : World) → IsQuiet w → quieted w ≡ w
quieted-eq w q = ground (arith, q.no_faults, q.no_saved)

-- What replaceStorageBlock returns, and the tables that it leaves.
abbrev Replaced : Env → ℕ → Bytes → Option StorageBlock → Option HashRow → World → Type 0
Replaced env n h sb row w =
    ((replace_storage_block env n h w).0 ≡ ok (is_some row))
    × ((replace_storage_block env n h w).1.tables
        ≡ moved w.file.st.ino n h (new_key env w.tables) sb row w.tables)

module _ (env : Env) (n : ℕ) (h : Bytes) (w : World) where
  replaced :
      (sb : Option StorageBlock) (row : Option HashRow)
      → lock_weak n w ≡ sb
      → select_block_hash h w.tables ≡ row
      → Replaced env n h sb row (quieted w)
  unfolding replace_storage_block ◌>>=◌
  replaced none none e f = (rw (e, f), rw (e, f))
  replaced none (some row) e f = (rw (e, f), rw (e, f))
  replaced (some b) none e f = elim (Bool-cases (eqb_ℤ b.use_count (pos 1))) [
    | inl one ↦ (rw (e, f, one), rw (e, f, one))
    | inr many ↦ (rw (e, f, many), rw (e, f, many))
  ]
  replaced (some b) (some row) e f = (rw (e, f), rw (e, f))

  pub replace_result :
      (sb : Option StorageBlock) (row : Option HashRow)
      → IsQuiet w
      → lock_weak n w ≡ sb
      → select_block_hash h w.tables ≡ row
      → Replaced env n h sb row w
  replace_result sb row q e f =
      subst (Replaced env n h sb row) (quieted-eq w q) (replaced sb row e f)
