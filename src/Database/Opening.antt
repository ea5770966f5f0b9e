-- ===== src/Database/Opening.antt =====
-- database.cpp: a DataBase is made: the constructor, init, which runs once in a process, and
-- prepareStatements.
pub mod Opened
use wwdedup.Database.Files.{create, root}
use wwdedup.Effects.{Exec, gets, ignore, modify, pure, throw, try_catch, ◌>>=◌, ◌>>◌}
use wwdedup.Prelude.{Bool, List, [], false, if◌then◌else◌, true, ◌&&◌, ◌+◌, ◌∷◌}
use wwdedup.State.{Env, M, World, faulty}
use wwdedup.Types.Modes.{s_ifdir}

-- Which tables there are.
pub record Schema : Type 0 where
  pub has_files : Bool
  pub has_file_blocks : Bool
  pub has_block_hashes : Bool

-- The state of the process: init_flag, the schema and the shared state.
pub record Process : Type 0 where
  pub init_done : Bool
  pub schema : Schema
  pub world : World

abbrev pub in_world : {A : Type 0} → M A → Exec Process A
in_world m p = let (r, w) = m p.world in (r, record p { world = w })

-- A call of SQLite that throws where it fails.
unfoldable pub attempt : Exec Process (Unit {0})
unfolding faulty
attempt = do failed ← in_world faulty; if failed then throw else pure tt

-- A statement is prepared and executed with retry.
abbrev pub execute_new : (Schema → Schema) → Exec Process (Unit {0})
execute_new f = do attempt; attempt; modify (λ p. record p { schema = f p.schema })

-- DataBase::init. A table that is there already is left as it is.
unfoldable pub init_database : Exec Process (Unit {0})
unfolding attempt
init_database =
    try_catch
      (do
        execute_new (λ s. s)
        execute_new (λ s. record s { has_files = true })
        execute_new (λ s. record s { has_file_blocks = true })
        execute_new (λ s. record s { has_block_hashes = true })
        execute_new (λ s. s))
      (pure tt)

-- The tables that the statements of DataBase::prepareStatements need, in their order.
abbrev pub needs : List (Schema → Bool)
needs =
    (λ s. s.has_files)
    ∷ (λ s. s.has_file_blocks && s.has_block_hashes)
    ∷ (λ s. s.has_file_blocks)
    ∷ (λ s. s.has_block_hashes)
    ∷ (λ s. s.has_block_hashes)
    ∷ (λ s. s.has_block_hashes)
    ∷ (λ s. s.has_block_hashes)
    ∷ (λ s. s.has_block_hashes)
    ∷ (λ s. s.has_block_hashes)
    ∷ (λ s. s.has_file_blocks)
    ∷ (λ s. s.has_files)
    ∷ []

-- A statement cannot be prepared where a table of it is missing.
unfoldable pub prepare_each : List (Schema → Bool) → Exec Process (Unit {0})
unfolding attempt
prepare_each [] = pure tt
prepare_each (need ∷ ns) = do
  attempt
  there ← gets (λ p. need p.schema)
  if there then prepare_each ns else throw

-- DataBase::prepareStatements
unfoldable pub prepare_statements : Exec Process (Unit {0})
unfolding prepare_each
prepare_statements = prepare_each needs

-- std::call_once(init_flag, &DataBase::init, this), of which no exception comes
unfoldable pub init_once : Exec Process (Unit {0})
unfolding init_database
init_once = do
  done ← gets (λ p. p.init_done)
  if done then pure tt else (do init_database; modify (λ p. record p { init_done = true }))

-- The try block of the constructor.
unfoldable pub create_root : Env → Exec Process (Unit {0})
create_root env = try_catch (ignore (in_world (create env root (s_ifdir + 0o755)))) (pure tt)

-- DataBase::DataBase
unfoldable pub open_database : Env → Exec Process (Unit {0})
open_database env = do attempt; init_once; prepare_statements; create_root env
