-- ===== src/Cache/Contents/Released.antt =====
-- releaseStorageBlock against what is stored for the file blocks.
use wwdedup.Cache.Contents.{id_of, stored}
use wwdedup.Cache.Contents.Places.{content_at, content_in_row, content_of}
use wwdedup.Cache.Contents.Rows.{id_of-update_where}
use wwdedup.Database.Blocks.{release_storage_block}
use wwdedup.Database.Effect.{IsQuiet, quieted, quieted-eq}
use wwdedup.Database.Pointers.{find_info}
use wwdedup.Database.Release.{HasHash, release_result}
use wwdedup.Effects.{◌>>=◌}
use wwdedup.Prelude.{
  ap, Bool-cases, List, Option, [], arith, find_first, if◌then◌else◌, inl, inr, none, not, pos,
  refl, select, some, subst, ℕ, ◌&&◌, ◌-ℤ◌, ◌==◌, ◌∙◌, ◌∷◌, ◌≡◌,
}
use wwdedup.Sql.{at_offset, decrease_use_count, delete_file_block, has_hash}
use wwdedup.State.{Env, FileBlockRow, Tables, World}
use wwdedup.Types.{BlockInfo, Bytes}

selected :
    (i m j n : ℕ) (rs : List FileBlockRow)
    → find_first (at_offset i m) (select (λ b. not (at_offset j n b)) rs)
      ≡ (if (i == j) && (m == n) then none else find_first (at_offset i m) rs)
unfolding at_offset
selected i m j n [] = ground arith
selected i m j n (r ∷ rs) = ground (arith, selected i m j n rs)

abbrev LeavesBlocks : Env → ℕ → World → Type 0
LeavesBlocks env n w =
    let after = (release_storage_block env n w).1 in
    (after.blocks ≡ w.blocks) × (after.disk ≡ w.disk) × (after.disk_blocks ≡ w.disk_blocks)

module _ (env : Env) (n : ℕ) (h : Bytes) (w : World) where
  blocks_left :
      (info : Option BlockInfo)
      → find_info n w ≡ info
      → HasHash env n h w info
      → LeavesBlocks env n (quieted w)
  unfolding release_storage_block ◌>>=◌
  blocks_left (some b) e k = (rw (e, k), rw (e, k), rw (e, k))
  blocks_left none e (big, (row, found, k)) =
      (rw (e, big, found), rw (e, big, found), rw (e, big, found))

  abbrev after : World
  after = (release_storage_block env n w).1

  module _ (q : IsQuiet w) (k : HasHash env n h w (find_info n w)) where
    stored_kept : (id : ℕ) → stored id after ≡ stored id w
    unfolding stored
    stored_kept id =
        let (blocks, disk, reach) =
          subst (LeavesBlocks env n) (quieted-eq w q) (blocks_left (find_info n w) refl k) in
        rw (blocks, disk, reach) refl

    tables_after : after.tables ≡ decrease_use_count h (delete_file_block w.file.st.ino n w.tables)
    tables_after = (release_result env n h w q k).1

    id_kept : (g : Bytes) → id_of g after.tables.block_hashes ≡ id_of g w.tables.block_hashes
    unfolding decrease_use_count delete_file_block
    id_kept g =
        ap (λ (t : Tables). id_of g t.block_hashes) tables_after
        ∙ id_of-update_where g (has_hash h) (λ r. record r { use_count = r.use_count -ℤ pos 1 })
            w.tables.block_hashes (λ r. refl) (λ r. refl)

    of_kept : (o : Option ℕ) → content_of after o ≡ content_of w o
    of_kept none = refl
    of_kept (some id) = stored_kept id

    row_kept : (o : Option FileBlockRow) → content_in_row after o ≡ content_in_row w o
    row_kept none = refl
    row_kept (some r) = rw (id_kept r.hash) (of_kept (id_of r.hash w.tables.block_hashes))

    rows_after :
        (i m : ℕ)
        → find_first (at_offset i m) after.tables.file_blocks ≡ (
            if (i == w.file.st.ino) && (m == n)
            then none
            else find_first (at_offset i m) w.tables.file_blocks)
    unfolding decrease_use_count delete_file_block
    rows_after i m =
        ap (λ (t : Tables). find_first (at_offset i m) t.file_blocks) tables_after
        ∙ selected i m w.file.st.ino n w.tables.file_blocks

    -- Where no call fails, no transaction is open, and releaseStorageBlock finds a hash for the file
    -- block, the file block then has nothing stored, and each other one has what it had.
    pub release-content_at :
        (i m : ℕ)
        → content_at i m after
          ≡ (if (i == w.file.st.ino) && (m == n) then none else content_at i m w)
    unfolding content_at
    release-content_at i m =
        rw (rows_after i m) (elim (Bool-cases ((i == w.file.st.ino) && (m == n))) [
          | inl this ↦ rw this refl
          | inr other ↦ rw other (row_kept (find_first (at_offset i m) w.tables.file_blocks))
        ])
