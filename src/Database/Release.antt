-- ===== src/Database/Release.antt =====
-- releaseStorageBlock where no call fails: the use counts, and file blocks that have no hash.
use wwdedup.Database.Blocks.{release_storage_block}
use wwdedup.Database.Effect.{IsQuiet, quieted, quieted-eq}
use wwdedup.Database.Pointers.{find_info}
use wwdedup.Effects.{◌>>=◌, aborts, ok}
use wwdedup.Prelude.{
  Bool-cases, Option, false, find_first, inl, inr, ltb, none, refl, some, subst, true, ℕ, ◌*◌, ◌≡◌,
  ◌⊎◌,
}
use wwdedup.Sql.{
  FileBlock, at_offset, decrease_use_count, delete_file_block, get_file_block, has_hash,
}
use wwdedup.Sql.Counts.{IsConsistent}
use wwdedup.Sql.Inserts.{IsConsistent-released}
use wwdedup.State.{Env, FileBlockRow, HashRow, World}
use wwdedup.Types.{BlockInfo, Bytes}

-- The hash that releaseStorageBlock finds for file block n: in the block_info that the file has,
-- or else in the tables.
abbrev pub HasHash : Env → ℕ → Bytes → World → Option BlockInfo → Type 0
HasHash env n h w (some b) = b.hash ≡ some h
HasHash env n h w none =
    (ltb w.file.st.size (n * env.db_block_size) ≡ false)
    × ((row : FileBlock) × (get_file_block w.file.st.ino n w.tables ≡ some row) × (row.hash ≡ h))

abbrev Released : Env → ℕ → Bytes → World → Type 0
Released env n h w =
    ((num : ℕ) × ((release_storage_block env n w).0 ≡ ok num))
    × ((release_storage_block env n w).1.tables
        ≡ decrease_use_count h (delete_file_block w.file.st.ino n w.tables))

module _ (env : Env) (n : ℕ) (h : Bytes) (w : World) where
  released :
      (info : Option BlockInfo)
      → find_info n w ≡ info
      → HasHash env n h w info
      → Released env n h (quieted w)
  unfolding release_storage_block ◌>>=◌
  released (some b) e k = ((b.storage_block_num, rw (e, k)), rw (e, k))
  released none e (big, (row, found, k)) = ((row.id, rw (e, big, found)), rw (e, big, found, k))

  pub release_result : IsQuiet w → HasHash env n h w (find_info n w) → Released env n h w
  release_result q k = subst (Released env n h) (quieted-eq w q) (released (find_info n w) refl k)

  -- Where no call fails, no transaction is open, the tables are consistent, the file block has a
  -- row whose hash has a row, and releaseStorageBlock takes that hash from the block_info of the
  -- file or, where there is none and the block does not start behind the end of the file, from the
  -- tables, it succeeds and leaves the tables consistent.
  pub release-IsConsistent :
      (r : FileBlockRow) (old : HashRow)
      → IsQuiet w
      → IsConsistent w.tables
      → find_first (at_offset w.file.st.ino n) w.tables.file_blocks ≡ some r
      → find_first (has_hash r.hash) w.tables.block_hashes ≡ some old
      → r.hash ≡ h
      → HasHash env n h w (find_info n w)
      → ((num : ℕ) × ((release_storage_block env n w).0 ≡ ok num))
        × IsConsistent (release_storage_block env n w).1.tables
  release-IsConsistent r old q c e g same k =
      let out = release_result q k in
      (out.0, rw (out.1, ← same) (IsConsistent-released w.file.st.ino n w.tables old r c e g))

-- A hole is released through a null hash: the file block has neither a block_info nor a row, or a
-- block_info that was never given a hash.
abbrev pub IsHole : Env → ℕ → World → Option BlockInfo → Type 0
IsHole env n w (some b) = b.hash ≡ none
IsHole env n w none =
    (ltb w.file.st.size (n * env.db_block_size) ≡ true)
    ⊎ (get_file_block w.file.st.ino n w.tables ≡ none)

module _ (env : Env) (n : ℕ) (w : World) where
  released_hole :
      (info : Option BlockInfo)
      → find_info n w ≡ info
      → IsHole env n w info
      → (release_storage_block env n (quieted w)).0 ≡ aborts
  unfolding release_storage_block ◌>>=◌
  released_hole (some b) e k = rw (e, k)
  released_hole none e (inl small) = rw (e, small)
  released_hole none e (inr missing) =
      elim (Bool-cases (ltb w.file.st.size (n * env.db_block_size))) [
        | inl small ↦ rw (e, small)
        | inr big ↦ rw (e, big, missing)
      ]

  -- Where no call fails and no transaction is open, releaseStorageBlock of a file block that has
  -- no hash, because its block_info was never given one, or because it has no block_info and
  -- starts behind the end of the file or has no row, dereferences a null pointer.
  pub release_hole :
      IsQuiet w → IsHole env n w (find_info n w) → (release_storage_block env n w).0 ≡ aborts
  release_hole q k =
      subst (λ v. (release_storage_block env n v).0 ≡ aborts) (quieted-eq w q)
        (released_hole (find_info n w) refl k)
