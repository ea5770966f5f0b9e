-- ===== src/Cache/Contents/Cleared.antt =====
-- The loop of truncate against what is stored for the file blocks.
use wwdedup.Cache.Contents.{id_of, stored}
use wwdedup.Cache.Contents.Blocks.{content_in-update_where}
use wwdedup.Cache.Contents.Places.{content_at, content_in_row, content_of}
use wwdedup.Cache.Contents.Released.{release-content_at}
use wwdedup.Cache.Releasing.{released_world}
use wwdedup.Cache.Transfer.{drop_cached, release_blocks}
use wwdedup.Cache.Truncated.{AllCanRelease, release-Advances, with_blocks}
use wwdedup.Database.Blocks.{dropped}
use wwdedup.Database.Effect.{IsQuiet}
use wwdedup.Database.Pointers.{has_num}
use wwdedup.Effects.{Outcome, ◌>>=◌}
use wwdedup.Prelude.{
  sym, Bool-cases, Option, ap, arith, find_first, if◌then◌else◌, inl, inr, leb, ltb, none, refl,
  some, suc, update_where, zero, ℕ, ◌&&◌, ◌+◌, ◌==◌, ◌∙◌, ◌≡◌,
}
use wwdedup.Sql.{at_offset}
use wwdedup.Sql.Counts.{IsConsistent}
use wwdedup.State.{Env, FileBlockRow, World}

module _ (num : ℕ) (w : World) where
  abbrev uncached : World
  uncached = record w { blocks = update_where (has_num num) dropped w.blocks }

  of_uncached : (o : Option ℕ) → content_of uncached o ≡ content_of w o
  unfolding stored
  of_uncached none = refl
  of_uncached (some id) =
      content_in-update_where w.disk w.disk_blocks id (has_num num) dropped w.blocks
        (λ b. (refl, (refl, refl)))

  row_uncached : (o : Option FileBlockRow) → content_in_row uncached o ≡ content_in_row w o
  row_uncached none = refl
  row_uncached (some r) = of_uncached (id_of r.hash w.tables.block_hashes)

  content_at-drop_cached : (i m : ℕ) → content_at i m (drop_cached num w).1 ≡ content_at i m w
  unfolding drop_cached content_at
  content_at-drop_cached i m = elim (Bool-cases (num == 0)) [
    | inl zero_num ↦ rw zero_num refl
    | inr other ↦ rw other (row_uncached (find_first (at_offset i m) w.tables.file_blocks))
  ]

-- The loop of truncate removes just what is stored for the file blocks of its range.
pub release_blocks-content_at :
    (env : Env) (rounds cur i m : ℕ) (w : World)
    → IsQuiet w
    → IsConsistent w.tables
    → AllCanRelease env cur rounds w
    → content_at i m (release_blocks env rounds cur w).1 ≡ (
        if (i == w.file.st.ino) && (leb cur m && ltb m (cur + rounds))
        then none
        else content_at i m w)
unfolding release_blocks ◌>>=◌
release_blocks-content_at env zero cur i m w q c all = ground arith
release_blocks-content_at env (suc rounds) cur i m w q c all =
    let r = release-Advances env rounds cur w q c all in
    let v = released_world cur r.hash w in
    let rest =
      release_blocks-content_at env rounds (suc cur) i m (with_blocks r.bs v) r.quiet r.consistent
        r.others in
    let uncached : content_at i m (with_blocks r.bs v) ≡ content_at i m v =
      sym (ap (λ (x : Outcome (Unit {0}) × World). content_at i m x.1) r.uncached)
      ∙ content_at-drop_cached r.num v i m in
    let released : content_at i m v
        ≡ (if (i == w.file.st.ino) && (m == cur) then none else content_at i m w) =
      sym (ap (λ (x : Outcome ℕ × World). content_at i m x.1) r.released)
      ∙ release-content_at env cur r.hash w q r.known i m in
    rw r.released (rw r.uncached (rest ∙ ground (arith, uncached, released)))
