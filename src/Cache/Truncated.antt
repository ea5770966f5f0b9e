-- ===== src/Cache/Truncated.antt =====
-- blockscache.cpp: what the loop of truncate leaves in the tables.
-- The cache may change between two releases.
use wwdedup.Cache.Releasing.{
  CanRelease, CanRelease-stays, released_lem, released_world, row_gone, row_stays,
}
use wwdedup.Cache.Transfer.{drop_cached, release_blocks}
use wwdedup.Database.Blocks.{dropped, release_storage_block}
use wwdedup.Database.Effect.{IsQuiet}
use wwdedup.Database.Pointers.{find_info, has_num, remove_info}
use wwdedup.Database.Release.{HasHash}
use wwdedup.Effects.{ok, ◌>>=◌}
use wwdedup.Prelude.{
  Bool-cases, List, Option, arith, find_first, if◌then◌else◌, inl, inr, leb, ltb, none, refl, some,
  subst, suc, update_where, zero, ℕ, ◌&&◌, ◌+◌, ◌<◌, ◌==◌, ◌∙◌, ◌≡◌, ◌≤◌,
}
use wwdedup.Sql.{at_offset}
use wwdedup.Sql.Counts.{IsConsistent}
use wwdedup.Sql.Inserts.{IsConsistent-released}
use wwdedup.State.{Env, World}
use wwdedup.Types.{BlockInfo, Bytes, StorageBlock}

abbrev pub with_blocks : List StorageBlock → World → World
with_blocks bs w = record w { blocks = bs }

IsQuiet-released_world :
    (n : ℕ) (h : Bytes) (w : World) (bs : List StorageBlock)
    → IsQuiet w
    → IsQuiet (with_blocks bs (released_world n h w))
unfolding remove_info
IsQuiet-released_world n h w bs q = record { no_faults = q.no_faults; no_saved = q.no_saved }

drop_cached_lem :
    (num : ℕ) (w : World)
    → (bs : List StorageBlock) × (drop_cached num w ≡ (ok tt, with_blocks bs w))
unfolding drop_cached
drop_cached_lem num w = elim (Bool-cases (num == 0)) [
  | inl zero_num ↦ (w.blocks, rw zero_num refl)
  | inr other ↦ (update_where (has_num num) dropped w.blocks, rw other refl)
]

abbrev pub Cleared : ℕ → ℕ → World → World → Type 0
Cleared cur rounds before after =
    IsConsistent after.tables
    × ((m : ℕ)
        → find_first (at_offset before.file.st.ino m) after.tables.file_blocks ≡ (
            if leb cur m && ltb m (cur + rounds)
            then none
            else find_first (at_offset before.file.st.ino m) before.tables.file_blocks))

abbrev pub AllCanRelease : Env → ℕ → ℕ → World → Type 0
AllCanRelease env cur rounds w = (m : ℕ) → cur ≤ m → m < cur + rounds → CanRelease env m w

CanRelease-with_blocks :
    (env : Env) (m : ℕ) (bs : List StorageBlock) (w : World)
    → CanRelease env m w
    → CanRelease env m (with_blocks bs w)
CanRelease-with_blocks env m bs w c = record {
  row = c.row;
  old = c.old;
  there = c.there;
  counted = c.counted;
  known = known_with (find_info m w) c.known;
}
  where
    known_with :
        (info : Option BlockInfo)
        → HasHash env m c.row.hash w info
        → HasHash env m c.row.hash (with_blocks bs w) info
    known_with none k = k
    known_with (some b) k = k

row_left :
    (env : Env) (n m : ℕ) (h : Bytes) (w : World)
    → find_first (at_offset w.file.st.ino m) (released_world n h w).tables.file_blocks
      ≡ (if m == n then none else find_first (at_offset w.file.st.ino m) w.tables.file_blocks)
row_left env n m h w = elim (Bool-cases (m == n)) [
  | inl same ↦ rw same (
      subst
        (λ x.
          find_first (at_offset w.file.st.ino x) (released_world n h w).tables.file_blocks ≡ none)
        (ground (arith, same)) (row_gone n h w))
  | inr other ↦ rw other (row_stays env n m h w other)
]

-- One round of the loop, and what the next one finds.
pub record Advances (env : Env) (rounds cur : ℕ) (w : World) : Type 0 where
  pub num : ℕ
  pub bs : List StorageBlock
  pub hash : Bytes
  pub known : HasHash env cur hash w (find_info cur w)
  pub released : release_storage_block env cur w ≡ (ok num, released_world cur hash w)
  pub uncached :
      drop_cached num (released_world cur hash w)
      ≡ (ok tt, with_blocks bs (released_world cur hash w))
  pub quiet : IsQuiet (with_blocks bs (released_world cur hash w))
  pub consistent : IsConsistent (released_world cur hash w).tables
  pub others : AllCanRelease env (suc cur) rounds (with_blocks bs (released_world cur hash w))

pub release-Advances :
    (env : Env) (rounds cur : ℕ) (w : World)
    → IsQuiet w
    → IsConsistent w.tables
    → AllCanRelease env cur (suc rounds) w
    → Advances env rounds cur w
release-Advances env rounds cur w q c all =
    let here = all cur (omega arith) (omega arith) in
    let h = here.row.hash in
    let (num, out) = released_lem env cur h w q here.known in
    let (bs, dropped_out) = drop_cached_lem num (released_world cur h w) in
    record {
      num = num;
      bs = bs;
      hash = h;
      known = here.known;
      released = out;
      uncached = dropped_out;
      quiet = IsQuiet-released_world cur h w bs q;
      consistent =
          IsConsistent-released w.file.st.ino cur w.tables here.old here.row c here.there
            here.counted;
      others = λ m lo hi. CanRelease-with_blocks env m bs (released_world cur h w) (
          CanRelease-stays env cur m h w (ground (arith, lo))
            (all m (omega (arith, lo)) (omega (arith, hi))));
    }

-- Where no call fails, no transaction is open, the tables are consistent, and each file block of
-- the range has a row whose hash has a row and which releaseStorageBlock finds, the loop of
-- truncate succeeds, leaves the tables consistent, and of the file's rows it removes just those of
-- the range.
pub release_blocks-IsConsistent :
    (env : Env) (rounds cur : ℕ) (w : World)
    → IsQuiet w
    → IsConsistent w.tables
    → AllCanRelease env cur rounds w
    → ((release_blocks env rounds cur w).0 ≡ ok tt)
      × Cleared cur rounds w (release_blocks env rounds cur w).1
unfolding release_blocks ◌>>=◌
release_blocks-IsConsistent env zero cur w q c all = (refl, (c, λ m. ground arith))
release_blocks-IsConsistent env (suc rounds) cur w q c all =
    let r = release-Advances env rounds cur w q c all in
    let rest =
      release_blocks-IsConsistent env rounds (suc cur)
        (with_blocks r.bs (released_world cur r.hash w)) r.quiet r.consistent r.others in
    rw r.released (
      rw r.uncached
        (rest.0, (rest.1.0, λ m. rest.1.1 m ∙ ground (arith, row_left env cur m r.hash w))))
