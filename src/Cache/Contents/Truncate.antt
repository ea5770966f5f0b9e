-- ===== src/Cache/Contents/Truncate.antt =====
-- BlocksCache::truncate against what is stored for the file blocks.
use native.Mathlib.Nat.{one-le-pow}
use wwdedup.Cache.Contents.{id_of, stored}
use wwdedup.Cache.Contents.Cleared.{release_blocks-content_at}
use wwdedup.Cache.Contents.Places.{content_at, content_in_row, content_of}
use wwdedup.Cache.Cut.{blocks_up_to_lem}
use wwdedup.Cache.Releasing.{CanRelease, released_world}
use wwdedup.Cache.Storage.{block_size}
use wwdedup.Cache.Transfer.{blocks_up_to, release_blocks, truncate}
use wwdedup.Cache.Truncated.{
  AllCanRelease, release-Advances, release_blocks-IsConsistent, with_blocks,
}
use wwdedup.Database.Effect.{IsQuiet}
use wwdedup.Database.Files.{ftruncate}
use wwdedup.Database.Pointers.{remove_info}
use wwdedup.Effects.{ok, ◌>>=◌}
use wwdedup.Prelude.{
  Bool, Option, ap, arith, false, find_first, if◌then◌else◌, leb, ltb, none, pos, refl, some, suc,
  sym, true, zero, ℕ, ◌&&◌, ◌*◌, ◌+◌, ◌-◌, ◌<◌, ◌==◌, ◌∙◌, ◌≡◌,
}
use wwdedup.Sql.{at_offset, execute_update, update_file_size}
use wwdedup.Sql.Counts.{IsConsistent}
use wwdedup.State.{Env, FileBlockRow, World}

abbrev Leaves : Env → ℕ → ℕ → World → Type 0
Leaves env rounds cur w =
    let after = (release_blocks env rounds cur w).1 in IsQuiet after × (after.file.st ≡ w.file.st)

release_blocks-Leaves :
    (env : Env) (rounds cur : ℕ) (w : World)
    → IsQuiet w
    → IsConsistent w.tables
    → AllCanRelease env cur rounds w
    → Leaves env rounds cur w
unfolding release_blocks ◌>>=◌ remove_info
release_blocks-Leaves env zero cur w q c all = (q, refl)
release_blocks-Leaves env (suc rounds) cur w q c all =
    let r = release-Advances env rounds cur w q c all in
    let rest =
      release_blocks-Leaves env rounds (suc cur) (with_blocks r.bs (released_world cur r.hash w))
        r.quiet r.consistent r.others in
    rw r.released (rw r.uncached rest)

-- The update of the size keeps what is stored.
module _ (size : ℕ) (w : World) where
  abbrev resized : World
  resized = record w {
    tables = update_file_size size w.file.st.ino w.tables;
    file = record w.file { st = record w.file.st { size = size } };
  }

  ftruncate-resized :
      IsQuiet w → (w.file.st.size == size) ≡ false → ftruncate (pos size) w ≡ (ok (pos 0), resized)
  unfolding ftruncate execute_update ◌>>=◌
  ftruncate-resized q ne = rw (ne, q.no_faults) refl

  IsConsistent-resized : IsConsistent w.tables → IsConsistent resized.tables
  unfolding update_file_size
  IsConsistent-resized c = record {
    ids = c.ids;
    hashes = c.hashes;
    places = c.places;
    balanced = c.balanced;
  }

  of_resized : (o : Option ℕ) → content_of resized o ≡ content_of w o
  unfolding stored
  of_resized none = refl
  of_resized (some id) = refl

  row_resized : (o : Option FileBlockRow) → content_in_row resized o ≡ content_in_row w o
  unfolding update_file_size
  row_resized none = refl
  row_resized (some r) = of_resized (id_of r.hash w.tables.block_hashes)

  content_at-resized : (i m : ℕ) → content_at i m resized ≡ content_at i m w
  unfolding content_at update_file_size
  content_at-resized i m = row_resized (find_first (at_offset i m) w.tables.file_blocks)

module _ (env : Env) (new : ℕ) (w : World) where
  -- The file blocks that start behind the new end and before the old one.
  abbrev pub is_cut : ℕ → Bool
  is_cut m = leb new (m * block_size env) && ltb (m * block_size env) w.file.st.size

  abbrev start : ℕ
  start = blocks_up_to (block_size env) 0 new

  abbrev rounds : ℕ
  rounds = blocks_up_to (block_size env) 1 w.file.st.size - start

  abbrev cleared_world : World
  cleared_world = (release_blocks env rounds start w).1

  module _ (q : IsQuiet w) (c : IsConsistent w.tables) (smaller : new < w.file.st.size)
      (all : (m : ℕ) → is_cut m ≡ true → CanRelease env m w) where
    positive : 0 < block_size env
    positive = one-le-pow env.block_size_bits 2 (omega arith)

    cut_range : (m : ℕ) → (leb start m && ltb m (start + rounds)) ≡ is_cut m
    cut_range m =
        let e = blocks_up_to_lem (block_size env) new w.file.st.size m positive smaller in
        ground (arith, e.0, e.1)

    in_range : AllCanRelease env start rounds w
    in_range m lo hi = all m (sym (cut_range m) ∙ ground (arith, lo, hi))

    resizes : (cleared_world.file.st.size == new) ≡ false
    resizes =
        let l = release_blocks-Leaves env rounds start w q c in_range in
        rw (l.1) (ground (arith, smaller))

    truncated : truncate env (pos new) w ≡ (ok (pos 0), resized new cleared_world)
    unfolding truncate ◌>>=◌
    truncated =
        let l = release_blocks-Leaves env rounds start w q c in_range in
        let out = release_blocks-IsConsistent env rounds start w q c in_range in
        let big : leb w.file.st.size new ≡ false = ground (arith, smaller) in
        rw big (rw (out.0) (ftruncate-resized new cleared_world l.0 resizes))

    -- Where no call fails, no transaction is open, the tables are consistent, the new size is less
    -- than the size, and each file block that starts at or behind the new end and before the old
    -- one has a row whose hash has a row and which releaseStorageBlock finds: truncate returns 0,
    -- sets the size in the file, leaves the tables consistent, and then just those file blocks of
    -- the file have nothing stored, while each other one of any file, also one that shared a
    -- storage block with them, has what it had.
    pub truncate-content_at :
        ((truncate env (pos new) w).0 ≡ ok (pos 0))
        × ((truncate env (pos new) w).1.file.st.size ≡ new)
        × IsConsistent (truncate env (pos new) w).1.tables
        × ((i m : ℕ)
            → content_at i m (truncate env (pos new) w).1
              ≡ (if (i == w.file.st.ino) && is_cut m then none else content_at i m w))
    truncate-content_at =
        let out = release_blocks-IsConsistent env rounds start w q c in_range in
        rw truncated (
          refl,
          refl,
          IsConsistent-resized new cleared_world (out.1.0),
          λ i m.
              content_at-resized new cleared_world i m
              ∙ release_blocks-content_at env rounds start i m w q c in_range
              ∙ ap (λ b. if (i == w.file.st.ino) && b then none else content_at i m w)
                  (cut_range m),
        )
