-- ===== src/Cache/Releasing.antt =====
-- releaseStorageBlock within the loop of truncate: what it leaves, and what it keeps of the other
-- file blocks.
-- The world after releaseStorageBlock of file block n, whose hash is h.
use wwdedup.Database.Blocks.{release_storage_block}
use wwdedup.Database.Effect.{IsQuiet, quieted, quieted-eq}
use wwdedup.Database.Pointers.{find_in, find_info, remove_info}
use wwdedup.Database.Release.{HasHash}
use wwdedup.Effects.{ok, ◌>>=◌}
use wwdedup.Prelude.{
  Option, arith, false, find_first, find_first-select-not, find_first-select_wide,
  find_first-update_where, if◌then◌else◌, none, pos, refl, some, subst, sym, ℕ, ◌-ℤ◌, ◌==◌, ◌∙◌,
  ◌≡◌,
}
use wwdedup.Sql.{at_offset, decrease_use_count, delete_file_block, get_file_block, has_hash}
use wwdedup.Sql.Counts.{hash-found}
use wwdedup.State.{Env, FileBlockRow, HashRow, World}
use wwdedup.Types.{BlockInfo, Bytes}

abbrev pub released_world : ℕ → Bytes → World → World
released_world n h w = record (remove_info n w) {
  tables = decrease_use_count h (delete_file_block w.file.st.ino n w.tables);
}

abbrev Released : Env → ℕ → Bytes → World → Type 0
Released env n h w = (num : ℕ) × (release_storage_block env n w ≡ (ok num, released_world n h w))

-- File block n has a row and the row's hash has one, and releaseStorageBlock finds that hash.
pub record CanRelease (env : Env) (n : ℕ) (w : World) : Type 0 where
  pub row : FileBlockRow
  pub old : HashRow
  pub there : find_first (at_offset w.file.st.ino n) w.tables.file_blocks ≡ some row
  pub counted : find_first (has_hash row.hash) w.tables.block_hashes ≡ some old
  pub known : HasHash env n row.hash w (find_info n w)

module _ (env : Env) (n : ℕ) (h : Bytes) (w : World) where
  Released-quieted :
      (info : Option BlockInfo)
      → find_info n w ≡ info
      → HasHash env n h w info
      → Released env n h (quieted w)
  unfolding release_storage_block remove_info ◌>>=◌
  Released-quieted (some b) e k = (b.storage_block_num, rw (e, k) refl)
  Released-quieted none e (big, (row, found, k)) = (row.id, rw (e, big, found, k) refl)

  pub released_lem : IsQuiet w → HasHash env n h w (find_info n w) → Released env n h w
  released_lem q k =
      subst (Released env n h) (quieted-eq w q) (Released-quieted (find_info n w) refl k)

-- Another file block of the file.
module _ (env : Env) (n m : ℕ) (h : Bytes) (w : World) (ne : (m == n) ≡ false) where
  pub row_stays :
      find_first (at_offset w.file.st.ino m) (released_world n h w).tables.file_blocks
      ≡ find_first (at_offset w.file.st.ino m) w.tables.file_blocks
  unfolding decrease_use_count delete_file_block at_offset
  row_stays = find_first-select_wide _ _ w.tables.file_blocks (λ a e. ground (arith, e, ne))

  info_stays : find_info m (released_world n h w) ≡ find_info m w
  unfolding remove_info find_in
  info_stays = find_first-select_wide _ _ w.file.blocks (λ a e. ground (arith, e, ne))

  hash_stays :
      (k : Bytes) (old : HashRow)
      → find_first (has_hash k) w.tables.block_hashes ≡ some old
      → (new : HashRow) × (find_first (has_hash k) (released_world n h w).tables.block_hashes
          ≡ some new)
        × (new.hash ≡ old.hash)
  unfolding decrease_use_count delete_file_block has_hash
  hash_stays k old e = (
    if has_hash h old then record old { use_count = old.use_count -ℤ pos 1 } else old,
    find_first-update_where (has_hash k) (has_hash h) _ w.tables.block_hashes (λ a. refl)
        ∙ rw e refl,
    ground arith,
  )

  known_stays :
      (c : CanRelease env m w) (info : Option BlockInfo)
      → HasHash env m c.row.hash w info
      → HasHash env m c.row.hash (released_world n h w) info
  unfolding remove_info get_file_block
  known_stays c (some b) k = k
  known_stays c none (big, k) =
      let (new, found, same) = hash_stays c.row.hash c.old c.counted in
      (
        big,
        (
          record { id = new.id; hash = new.hash; use_count = new.use_count },
          rw (row_stays ∙ c.there) (rw found refl),
          hash-found c.row.hash _ new found,
        ),
      )

  pub CanRelease-stays : CanRelease env m w → CanRelease env m (released_world n h w)
  unfolding remove_info
  CanRelease-stays c =
      let (new, found, same) = hash_stays c.row.hash c.old c.counted in
      record {
        row = c.row;
        old = new;
        there = row_stays ∙ c.there;
        counted = found;
        known =
            subst (HasHash env m c.row.hash (released_world n h w)) (sym info_stays)
              (known_stays c (find_info m w) c.known);
      }

pub row_gone :
    (n : ℕ) (h : Bytes) (w : World)
    → find_first (at_offset w.file.st.ino n) (released_world n h w).tables.file_blocks ≡ none
unfolding decrease_use_count delete_file_block
row_gone n h w = find_first-select-not (at_offset w.file.st.ino n) w.tables.file_blocks
