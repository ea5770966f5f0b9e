-- ===== src/Database/Rewrite.antt =====
-- A file block that is written again with the hash that it has.
use wwdedup.Database.Blocks.{replace_storage_block}
use wwdedup.Database.Effect.{IsQuiet, new_key, replace_result}
use wwdedup.Database.Pointers.{lock_weak}
use wwdedup.Prelude.{
  List, ap, arith, eqb_refl, find_first, find_first-update_where, find_first_holds, pos, some, sym,
  update_where, ℕ, ℤ, ◌-ℤ◌, ◌∙◌, ◌≡◌,
}
use wwdedup.Sql.{
  add_use, at_offset, has_hash, increase_use_count, replace_file_block, select_block_hash,
  set_use_count,
}
use wwdedup.Sql.Counts.{IsConsistent, has_hash-eqb, refs, uses, uses-set}
use wwdedup.Sql.Moves.{ids-increase, refs-replace_old}
use wwdedup.State.{Env, FileBlockRow, HashRow, Tables, World}
use wwdedup.Types.{Bytes, StorageBlock}

increased :
    (k : Bytes) (rs : List HashRow) (old : HashRow)
    → find_first (has_hash k) rs ≡ some old
    → find_first (has_hash k) (update_where (has_hash k) (add_use (pos 1)) rs)
      ≡ some (add_use (pos 1) old)
increased k rs old g =
    rw
      (find_first-update_where (has_hash k) (has_hash k) (add_use (pos 1)) rs
        (λ a. has_hash-eqb k (add_use (pos 1) a) ∙ sym (has_hash-eqb k a)))
      (ground (arith, g, find_first_holds (has_hash k) rs old g))

-- The tables after such a write: the row of the hash has one use less, the references are as many.
same_uses :
    (i n : ℕ) (id : ℕ) (t : Tables) (r : FileBlockRow) (old : HashRow) (c : ℤ)
    → IsConsistent t
    → find_first (has_hash r.hash) t.block_hashes ≡ some old
    → uses r.hash
        (set_use_count c old.id
          (replace_file_block i n r.hash (increase_use_count r.hash t))).block_hashes
      ≡ c
unfolding increase_use_count replace_file_block set_use_count
same_uses i n id t r old c k g = ground (
  arith,
  uses-set r.hash r.hash (update_where (has_hash r.hash) (add_use (pos 1)) t.block_hashes)
      (add_use (pos 1) old) c (increased r.hash t.block_hashes old g) (ids-increase r.hash t k.ids),
  eqb_refl r.hash,
)

same_refs :
    (i n : ℕ) (t : Tables) (r : FileBlockRow) (c : ℤ) (id : ℕ)
    → IsConsistent t
    → find_first (at_offset i n) t.file_blocks ≡ some r
    → refs r.hash
        (set_use_count c id
          (replace_file_block i n r.hash (increase_use_count r.hash t))).file_blocks
      ≡ refs r.hash t.file_blocks
unfolding increase_use_count set_use_count replace_file_block
same_refs i n t r c id k e = omega (arith, refs-replace_old i n r.hash r.hash t r k.places e)

pred_ne : (a : ℤ) (m : ℕ) → a -ℤ pos 1 ≡ pos m → a ≡ pos m → ⊥
unfolding ◌-ℤ◌
pred_ne a m h k = ground arith

uses-found :
    (k : Bytes) (t : Tables) (old : HashRow)
    → find_first (has_hash k) t.block_hashes ≡ some old
    → uses k t.block_hashes ≡ old.use_count
uses-found k t old g = ground (arith, g)

module _ (env : Env) (n : ℕ) (w : World) (b : StorageBlock) (r : FileBlockRow) (old : HashRow) where
  -- Where no call fails and no transaction is open, writing a file block again with the hash that
  -- it has, from a cached storage block that agrees with consistent tables, takes one from the use
  -- count of the hash while as many file blocks have it as before: the tables are no longer
  -- consistent.
  pub rewrite_loses_use :
      IsQuiet w
      → IsConsistent w.tables
      → lock_weak n w ≡ some b
      → find_first (at_offset w.file.st.ino n) w.tables.file_blocks ≡ some r
      → find_first (has_hash r.hash) w.tables.block_hashes ≡ some old
      → b.storage_block_num ≡ old.id
      → b.use_count ≡ old.use_count
      → let after = (replace_storage_block env n r.hash w).1.tables in
        (uses r.hash after.block_hashes ≡ old.use_count -ℤ pos 1)
        × (refs r.hash after.file_blocks ≡ refs r.hash w.tables.file_blocks)
        × ¬ IsConsistent after
  unfolding select_block_hash
  rewrite_loses_use q c e f g num count =
      let out = replace_result env n r.hash w (some b) (some old) q e g in
      let u =
        same_uses w.file.st.ino n (new_key env w.tables) w.tables r old (b.use_count -ℤ pos 1) c
          g in
      let s = same_refs w.file.st.ino n w.tables r (b.use_count -ℤ pos 1) old.id c f in
      rw (out.1, num)
        (
          u ∙ ap (λ (x : ℤ). x -ℤ pos 1) count,
          s,
          λ after.
              pred_ne b.use_count _ (sym u ∙ (after.balanced r.hash ∙ ap pos s))
                (count ∙ (sym (uses-found r.hash w.tables old g) ∙ c.balanced r.hash)),
        )
