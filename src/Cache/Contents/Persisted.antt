-- ===== src/Cache/Contents/Persisted.antt =====
-- The writer thread against what is stored for the file blocks.
-- What a restart finds: the tables and the storage file, without the cache.
use wwdedup.Cache.Contents.{IsStored, id_of, stored}
use wwdedup.Cache.Contents.Durable.{run_round-on_disk}
use wwdedup.Cache.Contents.Flushed.{IsBacked}
use wwdedup.Cache.Contents.Places.{content_at, content_in_row, content_of}
use wwdedup.Cache.Contents.Rounds.{run_round-quiet, saved_world, woken}
use wwdedup.Cache.Flush.{after_block, flushed}
use wwdedup.Cache.Writer.{run_round}
use wwdedup.Database.Pointers.{has_num, set_block}
use wwdedup.Prelude.{
  ap, Bool, Bool-cases, List, Option, [], find_first, inl, inr, length, ltb, none, refl, some, sym,
  ℕ, ◌∙◌, ◌∷◌, ◌≡◌,
}
use wwdedup.Sql.{at_offset}
use wwdedup.State.{Env, FileBlockRow, Tables, World}
use wwdedup.Types.{Bytes, StorageBlock}

abbrev pub uncached : World → World
uncached w = record w { blocks = [] }

abbrev pub AllBacked : World → Type 0
AllBacked w = (id : ℕ) → IsBacked w (find_first (has_num id) w.blocks)

tables-flushed : (bs : List StorageBlock) (w : World) → (flushed bs w).tables ≡ w.tables
unfolding set_block
tables-flushed [] w = refl
tables-flushed (b ∷ bs) w =
    tables-flushed bs (after_block b w)
    ∙ elim (Bool-cases b.dirty) [ inl d ↦ rw d refl | inr c ↦ rw c refl ]

module _ (env : Env) (repeat : Bool) (w : World) (q : w.faults ≡ []) (k : IsStored env w)
    (backed : AllBacked w) where
  tables-run_round : (run_round repeat w).1.tables ≡ w.tables
  tables-run_round =
      rw (run_round-quiet repeat w q k.cache.serials)
        (elim (Bool-cases (ltb 500 (length (saved_world repeat w).blocks))) [
          | inl big ↦ rw big (tables-flushed w.blocks (woken repeat w))
          | inr small ↦ rw small (tables-flushed w.blocks (woken repeat w))
        ])

  -- What a hash of the tables had is in the storage file.
  of_hash :
      (h : Bytes) (o : Option ℕ)
      → id_of h w.tables.block_hashes ≡ o
      → content_of (uncached (run_round repeat w).1) o ≡ content_of w o
  unfolding stored
  of_hash h none e = refl
  of_hash h (some id) e =
      let (c, there, same) = k.holds h id e in
      (run_round-on_disk repeat w id c q k.cache (backed id) there).0 ∙ sym there

  of_row :
      (o : Option FileBlockRow)
      → content_in_row (uncached (run_round repeat w).1) o ≡ content_in_row w o
  of_row none = refl
  of_row (some r) =
      ap
        (λ (t : Tables). content_of (uncached (run_round repeat w).1) (id_of r.hash t.block_hashes))
        tables-run_round
      ∙ of_hash r.hash (id_of r.hash w.tables.block_hashes) refl

  -- Where no call fails: a round of the writer thread leaves in the tables and the storage file alone
  -- what was stored for each file block.
  pub run_round-content_at :
      (i m : ℕ) → content_at i m (uncached (run_round repeat w).1) ≡ content_at i m w
  unfolding content_at
  run_round-content_at i m =
      ap
        (λ (t : Tables).
          content_in_row (uncached (run_round repeat w).1)
            (find_first (at_offset i m) t.file_blocks))
        tables-run_round
      ∙ of_row (find_first (at_offset i m) w.tables.file_blocks)
