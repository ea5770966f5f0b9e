-- ===== src/Database/Directory.antt =====
-- create, remove and getByPath against each other, where no call fails.
use wwdedup.Database.Files.{create, info_of, new_row, root}
use wwdedup.Effects.{ok, ◌>>=◌}
use wwdedup.Prelude.{
  as_int, [], arith, eqb, eqb_iff, false, find_first-append, if◌then◌else◌, map, none, pos, refl,
  some, subst, true, ℕ, ℤ, ◌++◌, ◌+ℤ◌, ◌==◌, ◌∷◌, ◌≡◌, ◌≢◌,
}
use wwdedup.Sql.{get_by_path_row, has_path}
use wwdedup.State.{Env, FileRow, World}
use wwdedup.Types.{FilePath}
use wwdedup.Types.Modes.{is_dir}

abbrev NoFaults : World → World
NoFaults w = record w { faults = [] }

-- The world after a file was created at time `now` below a directory of this depth.
abbrev pub with_file : Env → FilePath → ℤ → ℕ → World → World
with_file env p depth mode w = record w {
  tables = record w.tables {
    files =
        w.tables.files
        ++ new_row (env.new_rowid (map (λ (r : FileRow). r.id) w.tables.files)) p depth mode w.now
          ∷ [];
  };
}

pub get_by_path_row-with_file :
    (env : Env) (p q : FilePath) (depth : ℤ) (mode : ℕ) (w : World)
    → get_by_path_row p w.tables ≡ none
    → get_by_path_row q (with_file env p depth mode w).tables ≡ (
        if eqb p q
        then some (
            new_row (env.new_rowid (map (λ (r : FileRow). r.id) w.tables.files)) p depth mode w.now)
        else get_by_path_row q w.tables)
unfolding get_by_path_row has_path
get_by_path_row-with_file env p q depth mode w m = ground (
  arith,
  find_first-append (has_path q) w.tables.files (
      new_row (env.new_rowid (map (λ (r : FileRow). r.id) w.tables.files)) p depth mode w.now ∷ []),
  eqb_iff p q,
  m,
)

module _ (env : Env) (p : FilePath) (mode : ℕ) (w : World) where
  created :
      (dir : FileRow)
      → eqb p root ≡ false
      → get_by_path_row (env.branch_path p) w.tables ≡ some dir
      → (dir.id == 0) ≡ false
      → is_dir dir.mode ≡ true
      → get_by_path_row p w.tables ≡ none
      → create env p mode (NoFaults w)
        ≡ (ok (pos 0), with_file env p (dir.depth +ℤ pos 1) mode (NoFaults w))
  unfolding create info_of ◌>>=◌
  created dir e f g d m = rw (e, f, g, d, m) (rw m refl)

  -- Where no call fails, the path is not the root and has no row, and its parent has a row of a
  -- directory with a key other than 0, create succeeds, and then the path has an empty file of the
  -- given mode, one deeper than its parent and with the present time as an int for its times,
  -- while every other path finds what it found before.
  pub create-get_by_path :
      (dir : FileRow)
      → w.faults ≡ []
      → p ≢ root
      → get_by_path_row (env.branch_path p) w.tables ≡ some dir
      → dir.id ≢ 0
      → is_dir dir.mode ≡ true
      → get_by_path_row p w.tables ≡ none
      → ((create env p mode w).0 ≡ ok (pos 0))
        × ((q : FilePath)
            → get_by_path_row q (create env p mode w).1.tables ≡ (
                if eqb p q
                then some (record {
                  id = env.new_rowid (map (λ (r : FileRow). r.id) w.tables.files);
                  path = p;
                  depth = dir.depth +ℤ pos 1;
                  size = 0;
                  mode = mode;
                  uid = 0;
                  gid = 0;
                  mtime = as_int w.now;
                  ctime = as_int w.now;
                })
                else get_by_path_row q w.tables))
  create-get_by_path dir nf e f g d m =
      let step : create env p mode w ≡ (ok (pos 0), with_file env p (dir.depth +ℤ pos 1) mode w) =
        subst (λ v. create env p mode v ≡ (ok (pos 0), with_file env p (dir.depth +ℤ pos 1) mode v))
          (ground (arith, nf))
          (created dir (ground (arith, eqb_iff p root)) f (ground arith) d m) in
      (rw step refl, λ q. rw step (get_by_path_row-with_file env p q (dir.depth +ℤ pos 1) mode w m))
