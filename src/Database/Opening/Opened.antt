-- ===== src/Database/Opening/Opened.antt =====
-- database.cpp: what the constructor of a DataBase leaves.
use wwdedup.Cache.Flush.{NoFaults}
use wwdedup.Database.Directory.{get_by_path_row-with_file, with_file}
use wwdedup.Database.Files.{new_row, create, info_of, root}
use wwdedup.Database.Opening.{
  Process, Schema, attempt, create_root, init_once, needs, open_database, prepare_each,
  prepare_statements,
}
use wwdedup.Effects.{Exec, ok, throws, ◌>>=◌}
use wwdedup.Prelude.{
  Bool, Bool-cases, List, Option, [], arith, eqb, eqb_iff, false, if◌then◌else◌, inl, inr, map, neg,
  none, pos, refl, some, subst, sym, true, ℤ, ◌&&◌, ◌==◌, ◌∷◌, ◌≡◌, ◌⊎◌,
}
use wwdedup.Sql.{get_by_path_row}
use wwdedup.State.{Env, FileRow, World, faulty, faulty-cases}
use wwdedup.Types.{FilePath}
use wwdedup.Types.Modes.{eexist}

abbrev pub drained : List Bool → Process → Process
drained rest p = record p { world = record p.world { faults = rest } }

attempt-cases :
    (p : Process)
    → (failed : Bool) × (rest : List Bool) × (attempt p
        ≡ (if failed then throws else ok tt, drained rest p))
unfolding attempt ◌>>=◌
attempt-cases p = by_fault (faulty-cases p.world)
  where
    by_fault :
        ((b : Bool) × (rest : List Bool) × (faulty p.world
            ≡ (ok b, record p.world { faults = rest })))
        → (failed : Bool) × (rest : List Bool) × (attempt p
            ≡ (if failed then throws else ok tt, drained rest p))
    by_fault (true, rest, e) = (true, rest, rw e refl)
    by_fault (false, rest, e) = (false, rest, rw e refl)

-- `m` throws, and takes some calls that may fail.
abbrev pub Throws : Exec Process (Unit {0}) → Process → Type 0
Throws m p = (rest : List Bool) × (m p ≡ (throws, drained rest p))

abbrev lacks : List (Schema → Bool) → Schema → Bool
lacks [] s = false
lacks (need ∷ ns) s = if need s then lacks ns s else true

prepare_each-lacking :
    (ns : List (Schema → Bool)) (p : Process)
    → lacks ns p.schema ≡ true
    → Throws (prepare_each ns) p
unfolding prepare_each ◌>>=◌
prepare_each-lacking [] p h = absurd (ground (arith, h))
prepare_each-lacking (need ∷ ns) p h =
    by_attempt (λ rest k. prepare_each-lacking ns (drained rest p) k) (attempt-cases p)
  where
    Later : Type 0
    Later =
        (rest : List Bool) → lacks ns p.schema ≡ true → Throws (prepare_each ns) (drained rest p)

    by_need :
        Later
        → (rest : List Bool) → attempt p ≡ (ok tt, drained rest p)
        → (need p.schema ≡ true) ⊎ (need p.schema ≡ false)
        → Throws (prepare_each (need ∷ ns)) p
    by_need later rest e (inl there) =
        let (end, k) =
          later rest (subst (λ b. (if b then lacks ns p.schema else true) ≡ true) there h) in
        (end, rw e (rw there k))
    by_need later rest e (inr gone) = (rest, rw e (rw gone refl))

    by_attempt :
        Later
        → ((failed : Bool) × (rest : List Bool) × (attempt p
              ≡ (if failed then throws else ok tt, drained rest p)))
        → Throws (prepare_each (need ∷ ns)) p
    by_attempt later (true, rest, e) = (rest, rw e refl)
    by_attempt later (false, rest, e) = by_need later rest e (Bool-cases (need p.schema))

abbrev pub is_complete : Schema → Bool
is_complete s = s.has_files && (s.has_file_blocks && s.has_block_hashes)

incomplete_lacks : (s : Schema) → is_complete s ≡ false → lacks needs s ≡ true
incomplete_lacks s h = ground (arith, h)

module _ (env : Env) (s : Schema) (w : World) where
  -- A process in which init has run.
  abbrev ran : Process
  ran = record { init_done = true; schema = s; world = w }

  ran-lacking : is_complete s ≡ false → Throws (open_database env) ran
  unfolding open_database init_once prepare_statements ◌>>=◌
  ran-lacking h = by_attempt (attempt-cases ran)
    where
      by_attempt :
          ((failed : Bool) × (rest : List Bool) × (attempt ran
              ≡ (if failed then throws else ok tt, drained rest ran)))
          → Throws (open_database env) ran
      by_attempt (true, rest, e) = (rest, rw e refl)
      by_attempt (false, rest, e) =
          let (end, k) = prepare_each-lacking needs (drained rest ran) (incomplete_lacks s h) in
          (end, rw e (rw k refl))

-- Once init has run in the process and left a table out, every constructor of a DataBase throws,
-- and leaves the state as it is: init is never run again.
pub open_database-lacking :
    (env : Env) (p : Process)
    → p.init_done ≡ true
    → is_complete p.schema ≡ false
    → Throws (open_database env) p
open_database-lacking env p done h =
    subst (λ b. Throws (open_database env) (record p { init_done = b })) (sym done)
      (ran-lacking env p.schema p.world h)

-- A row that getByPath takes for one.
abbrev pub HasKey : Option FileRow → Type 0
HasKey none = Unit {0}
HasKey (some r) = (r.id == 0) ≡ false

-- The world after create("/").
abbrev rooted : Env → Option FileRow → World → World
rooted env none w = with_file env root (pos 0) 16877 w
rooted env (some r) w = w

abbrev root_code : Option FileRow → ℤ
root_code none = pos 0
root_code (some r) = neg eexist

create-root :
    (env : Env) (w : World) (row : Option FileRow)
    → get_by_path_row root w.tables ≡ row
    → HasKey row
    → create env root 16877 (NoFaults w) ≡ (ok (root_code row), rooted env row (NoFaults w))
unfolding create info_of eqb ◌>>=◌
create-root env w none e h = rw e (rw e refl)
create-root env w (some r) e h = rw e (rw h refl)

abbrev all_tables : Schema
all_tables = record { has_files = true; has_file_blocks = true; has_block_hashes = true }

-- A process where no call fails.
abbrev quiet : Bool → Schema → World → Process
quiet done s w = record { init_done = done; schema = s; world = NoFaults w }

attempt-quiet :
    (done : Bool) (s : Schema) (w : World) → attempt (quiet done s w) ≡ (ok tt, quiet done s w)
unfolding attempt ◌>>=◌
attempt-quiet done s w = refl

init_once-quiet :
    (done : Bool) (s : Schema) (w : World)
    → (done ≡ true → s ≡ all_tables)
    → init_once (quiet done s w) ≡ (ok tt, quiet true all_tables w)
unfolding init_once attempt ◌>>=◌
init_once-quiet false s w k = refl
init_once-quiet true s w k = rw (k refl) refl

prepare_statements-quiet :
    (w : World) → prepare_statements (quiet true all_tables w) ≡ (ok tt, quiet true all_tables w)
unfolding prepare_statements attempt ◌>>=◌
prepare_statements-quiet w = refl

create_root-quiet :
    (env : Env) (w : World) (row : Option FileRow)
    → get_by_path_row root w.tables ≡ row
    → HasKey row
    → create_root env (quiet true all_tables w) ≡ (
      ok tt,
      record { init_done = true; schema = all_tables; world = rooted env row (NoFaults w) },
    )
unfolding create_root
create_root-quiet env w row e h = rw (create-root env w row e h) refl

opens :
    (env : Env) (done : Bool) (s : Schema) (w : World) (row : Option FileRow)
    → get_by_path_row root w.tables ≡ row
    → HasKey row
    → (done ≡ true → s ≡ all_tables)
    → open_database env (quiet done s w) ≡ (
      ok tt,
      record { init_done = true; schema = all_tables; world = rooted env row (NoFaults w) },
    )
unfolding open_database ◌>>=◌
opens env done s w row e h k = rw (attempt-quiet done s w) (
    rw (init_once-quiet done s w k)
      (rw (prepare_statements-quiet w) (create_root-quiet env w row e h)))

-- The row of the root directory: the old one, or one that is made now.
abbrev pub root_row : Env → World → Option FileRow → FileRow
root_row env w none =
    new_row (env.new_rowid (map (λ (r : FileRow). r.id) w.tables.files)) root (pos 0) 16877 w.now
root_row env w (some r) = r

found-rooted :
    (env : Env) (w : World) (row : Option FileRow) (q : FilePath)
    → get_by_path_row root w.tables ≡ row
    → get_by_path_row q (rooted env row w).tables
      ≡ (if eqb root q then some (root_row env w row) else get_by_path_row q w.tables)
found-rooted env w none q e = get_by_path_row-with_file env root q (pos 0) 16877 w e
found-rooted env w (some r) q e = elim (Bool-cases (eqb root q)) [
  | inl same ↦
      rw same (subst (λ x. get_by_path_row x w.tables ≡ some r) ((eqb_iff root q).0 same) e)
  | inr other ↦ rw other refl
]

complete_tables : (s : Schema) → is_complete s ≡ true → s ≡ all_tables
complete_tables s h = ground (arith, h)

abbrev pub Opens : Env → World → Process → Type 0
Opens env w p =
    let after = (open_database env p).1 in
    ((open_database env p).0 ≡ ok tt)
    × ((after.init_done ≡ true) × (is_complete after.schema ≡ true))
    × ((q : FilePath)
        → get_by_path_row q after.world.tables ≡ (
            if eqb root q
            then some (root_row env w (get_by_path_row root w.tables))
            else get_by_path_row q w.tables))

-- Where no call fails, init has made all tables if it has run, and a row of the root directory has
-- a key other than 0, the constructor of a DataBase succeeds: init has run and all tables are
-- there, the path "/" finds the row that it found before, or else that of a directory made now,
-- with the present time as an int for its times, and every other path finds what it found before.
pub open_database-root :
    (env : Env) (p : Process)
    → p.world.faults ≡ []
    → (p.init_done ≡ true → is_complete p.schema ≡ true)
    → HasKey (get_by_path_row root p.world.tables)
    → Opens env p.world p
open_database-root env p e k h =
    subst (λ f. Opens env p.world (record p { world = record p.world { faults = f } })) (sym e)
      (rw
        (opens env p.init_done p.schema p.world (get_by_path_row root p.world.tables) refl h
          (λ done. complete_tables p.schema (k done)))
        (
          refl,
          (refl, refl),
          λ q. found-rooted env (NoFaults p.world) (get_by_path_row root p.world.tables) q refl,
        ))
