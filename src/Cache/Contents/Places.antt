-- ===== src/Cache/Contents/Places.antt =====
-- What is stored for each file block of each file: the table of file blocks, the table of hashes,
-- and then the cache and the storage file.
-- A hash that a row of file_blocks has is counted.
use wwdedup.Cache.Contents.{id_in, id_of, stored}
use wwdedup.Prelude.{
  Bool, List, Option, Option-cases, [], ap, arith, eqb, eqb_refl, find_first, find_first_holds, inl,
  inr, none, refl, some, true, ℕ, ◌∷◌, ◌≡◌, ◌≤◌,
}
use wwdedup.Sql.{at_offset, has_hash}
use wwdedup.Sql.Counts.{IsConsistent, refs}
use wwdedup.State.{FileBlockRow, Tables, World}
use wwdedup.Types.{Bytes}

pub refs-found :
    (k : Bytes) (p : FileBlockRow → Bool) (rs : List FileBlockRow) (r : FileBlockRow)
    → find_first p rs ≡ some r
    → eqb r.hash k ≡ true
    → 1 ≤ refs k rs
unfolding refs
refs-found k p [] r e h = cc
refs-found k p (x ∷ rs) r e h = ground (arith, e, h, refs-found k p rs r)

-- What is stored for a place: none where it has no row.
abbrev pub content_of : World → Option ℕ → Option Bytes
content_of w none = none
content_of w (some id) = stored id w

abbrev pub content_in_row : World → Option FileBlockRow → Option Bytes
content_in_row w none = none
content_in_row w (some r) = content_of w (id_of r.hash w.tables.block_hashes)

unfoldable pub content_at : ℕ → ℕ → World → Option Bytes
content_at i n w = content_in_row w (find_first (at_offset i n) w.tables.file_blocks)

pub content_at-row :
    (i n : ℕ) (w : World) (r : FileBlockRow) (id : ℕ)
    → find_first (at_offset i n) w.tables.file_blocks ≡ some r
    → id_of r.hash w.tables.block_hashes ≡ some id
    → content_at i n w ≡ stored id w
unfolding content_at
content_at-row i n w r id e f = rw (e, f) refl

pub content_at-none :
    (i n : ℕ) (w : World)
    → find_first (at_offset i n) w.tables.file_blocks ≡ none
    → content_at i n w ≡ none
unfolding content_at
content_at-none i n w e = rw e refl

-- The hash of a row has a storage block.
pub found-named :
    (p : FileBlockRow → Bool) (t : Tables) (r : FileBlockRow)
    → IsConsistent t
    → find_first p t.file_blocks ≡ some r
    → (id : ℕ) × (id_of r.hash t.block_hashes ≡ some id)
found-named p t r c e = elim (Option-cases (find_first (has_hash r.hash) t.block_hashes)) [
  | inl lost ↦ absurd (
      ground
        (arith, lost, c.balanced r.hash, refs-found r.hash p t.file_blocks r e (eqb_refl r.hash)))
  | inr (row, f) ↦ (row.id, ap id_in f)
]

pub place-row :
    (i n : ℕ) (t : Tables) (r : FileBlockRow)
    → find_first (at_offset i n) t.file_blocks ≡ some r
    → (r.file_id ≡ i) × (r.offset ≡ n)
unfolding at_offset
place-row i n t r e =
    let there = find_first_holds (at_offset i n) t.file_blocks r e in
    (ground (arith, there), ground (arith, there))
