-- ===== src/Cache/Contents/Loaded.antt =====
-- readBuf's piece of a file block against what is stored for it.
use wwdedup.Cache.Contents.{IsCache, id_in, stored}
use wwdedup.Cache.Contents.Places.{content_at, content_in_row, content_of}
use wwdedup.Cache.Contents.Reads.{read_chunk-stored}
use wwdedup.Cache.Transfer.{read_chunk}
use wwdedup.Database.Pointers.{find_info, lock_weak}
use wwdedup.Database.Reload.{SameNum}
use wwdedup.Effects.{ok}
use wwdedup.Prelude.{
  Option, Option-cases, [], ap, arith, drop, false, find_first, inl, inr, none, some, subst, sym,
  take, ℕ, ◌==◌, ◌∙◌, ◌≡◌,
}
use wwdedup.Sql.{FileBlock, at_offset, get_file_block, has_hash, join_hash}
use wwdedup.State.{Env, FileBlockRow, World}
use wwdedup.Types.{BlockInfo, Bytes}

stored-joined :
    (w : World) (row : FileBlock) (c : Bytes) (o : Option FileBlockRow)
    → join_hash w.tables o ≡ some row
    → content_in_row w o ≡ some c
    → stored row.id w ≡ some c
stored-joined w row c none e k = cc
stored-joined w row c (some r) e k =
    elim (Option-cases (find_first (has_hash r.hash) w.tables.block_hashes)) [
      | inl lost ↦ absurd (ground (arith, k, lost))
      | inr (h, found) ↦
          let num : h.id ≡ row.id = ground (arith, e, found) in
          ap (λ x. stored x w) (sym num) ∙ sym (ap (content_of w) (ap id_in found)) ∙ k
    ]

-- Where the block_info of a file block is there, not locked, not empty and names the storage block
-- other than 0 that the query of loadFileBlock gives for the file block, a live weak_ptr of it is
-- to an object of that number, the cache has each number once, no call fails, and something is
-- stored for the file block: what readBuf copies of it is what is stored for it, through the
-- tables, the cache and the storage file, from the start of the piece on.
pub read_chunk-content_at :
    (env : Env) (n start len : ℕ) (w : World) (fb : BlockInfo) (row : FileBlock) (c : Bytes)
    → w.faults ≡ []
    → find_info n w ≡ some fb
    → fb.locked ≡ false
    → fb.empty ≡ false
    → (fb.storage_block_num == 0) ≡ false
    → SameNum (lock_weak n w) fb
    → get_file_block w.file.st.ino n w.tables ≡ some row
    → row.id ≡ fb.storage_block_num
    → IsCache w.next_serial w.blocks
    → content_at w.file.st.ino n w ≡ some c
    → (read_chunk env n start len w).0 ≡ ok (take len (drop start c))
unfolding content_at get_file_block
read_chunk-content_at env n start len w fb row c q e l m z s g same k h =
    read_chunk-stored env n start len w fb c q e l m z s k (
      subst (λ x. stored x w ≡ some c) same
        (stored-joined w row c (find_first (at_offset w.file.st.ino n) w.tables.file_blocks) g h))
