-- ===== src/Database/Atomic.antt =====
-- What a transaction leaves behind when a call in it fails.
use wwdedup.Database.Blocks.{
  choose_block, cleared, deref, drop_use, dropped, filled, load_file_block, release_body,
  release_storage_block, released_info, replace_body, replace_storage_block, store_use,
}
use wwdedup.Database.Pointers.{find_info, lock_weak, remove_info, set_info}
use wwdedup.Effects.{Outcome, modify, ok, pure, throw, throws, ◌>>=◌, ◌>>◌}
use wwdedup.Effects.Logic.{
  Fails-throw, Fails-if, Ends-bind, Ends, Ends-throws, Fails, Fails-bind, Fails-try, Guards,
  Guards-abort, Guards-bind, Guards-gets, Guards-if, Guards-modify, Guards-pure, Guards-throw,
  NoThrow, NoThrow-Fails, NoThrow-modify, guard_rules,
}
use wwdedup.Prelude.{Bool, List, Option, false, inl, inr, none, refl, some, true, ℕ, ◌≡◌, ◌⊎◌}
use wwdedup.Sql.{
  decrease_use_count, delete_file_block, execute_insert_hash, execute_update, get_file_block,
  insert_block_hash, query, replace_file_block, select_block_hash, set_use_count, transaction_begin,
  transaction_commit, transaction_rollback,
}
use wwdedup.State.{M, Env, HashRow, Tables, World, faulty, faulty-cases}
use wwdedup.Types.{BlockInfo, Bytes, StorageBlock, block_info}

-- A transaction is open since the tables were t.
abbrev pub Saved : Tables → World → Type 0
Saved t w = w.saved ≡ some t

pub NoThrow-faulty : NoThrow faulty
NoThrow-faulty = record { at = λ w. let (b, rest, e) = faulty-cases w in rw e tt }

module _ {t : Tables} where
  Guards-faulty : Guards (Saved t) faulty
  Guards-faulty = record { at = λ w h. let (b, rest, e) = faulty-cases w in rw e h }

  Guards-query : {A : Type 0} (f : Tables → A) → Guards (Saved t) (query f)
  unfolding query
  Guards-query f =
      Guards-bind faulty _ Guards-faulty
        (λ b. Guards-if b _ _ Guards-throw (Guards-gets (λ (w : World). f w.tables)))

  Guards-execute_update : (f : Tables → Tables) → Guards (Saved t) (execute_update f)
  unfolding execute_update
  Guards-execute_update f =
      Guards-bind faulty _ Guards-faulty
        (λ b. Guards-if b _ _ Guards-throw (Guards-modify _ (λ w h. h)))

  Guards-execute_insert_hash :
      (env : Env) (h : Bytes) → Guards (Saved t) (execute_insert_hash env h)
  unfolding execute_insert_hash
  Guards-execute_insert_hash env h = Guards-bind _ _ (Guards-gets _) (λ id.
      Guards-bind _ _ (Guards-execute_update (insert_block_hash h id))
        (λ _. Guards-modify _ (λ w k. k)))

  Fails-transaction_commit : Fails (Saved t) transaction_commit
  unfolding transaction_commit
  Fails-transaction_commit = Fails-bind _ _ Guards-faulty λ b.
      Fails-bind _ _ (Guards-gets _)
        λ saved. Fails-if _ _ _ Fails-throw (NoThrow-Fails _ (NoThrow-modify _))

  Fails-commit : {A : Type 0} (a : A) → Fails (Saved t) (transaction_commit >> pure a)
  Fails-commit a = record {
    at = λ w h.
        Ends-bind (λ _ _. Unit {0}) (λ _ _. Unit {0}) (Saved t) transaction_commit _ w
          (Fails-transaction_commit.at w h) (λ _ _ _. tt);
  }

  Guards-set_info : (n : ℕ) (f : BlockInfo → BlockInfo) → Guards (Saved t) (modify (set_info n f))
  unfolding set_info
  Guards-set_info n f = Guards-modify _ (λ w h. h)

  Guards-drop_use : (sb : Option StorageBlock) → Guards (Saved t) (drop_use sb)
  unfolding drop_use
  Guards-drop_use none = Guards-pure none
  Guards-drop_use (some b) =
      Guards-bind _ _ (Guards-modify _ (λ w h. h)) (λ _. Guards-pure (some (dropped b)))

ruleset saved_rules = (
  guard_rules, Guards-query, Guards-execute_update, Guards-execute_insert_hash, Guards-set_info,
  Guards-drop_use,
)

module _ {t : Tables} (env : Env) (n : ℕ) (h : Bytes) where
  Guards-choose_block :
      (sb : Option StorageBlock) (row : Option HashRow)
      → Guards (Saved t) (choose_block env n h sb row)
  unfolding choose_block
  Guards-choose_block sb none = search saved_rules depth 12
  Guards-choose_block sb (some row) = search saved_rules depth 12

  Guards-store_use : (sb : Option StorageBlock) → Guards (Saved t) (store_use sb)
  unfolding store_use
  Guards-store_use none = Guards-pure tt
  Guards-store_use (some b) = Guards-execute_update (set_use_count b.use_count b.storage_block_num)

  Fails-replace_body : (sb : Option StorageBlock) → Fails (Saved t) (replace_body env n h sb)
  unfolding replace_body
  Fails-replace_body sb = Fails-bind _ _ (Guards-set_info n _) λ _.
      Fails-bind _ _ (Guards-query (select_block_hash h)) λ row.
        Fails-bind _ _ (Guards-choose_block sb row) λ chosen.
          Fails-bind _ _ (Guards-gets (λ w. w.file.st.ino)) λ ino.
            Fails-bind _ _ (Guards-execute_update (replace_file_block ino n h))
              λ _. Fails-bind _ _ (Guards-store_use (chosen.1)) λ _. Fails-commit (chosen.0)

module _ {t : Tables} (env : Env) (n : ℕ) where
  Guards-load_file_block : (b : BlockInfo) → Guards (Saved t) (load_file_block env b)
  unfolding load_file_block
  Guards-load_file_block b = Guards-bind _ _ (Guards-gets _) λ file.
      Guards-if _ _ _ (Guards-pure (cleared b)) (
        Guards-bind _ _ (Guards-query (get_file_block file.st.ino b.file_block_num))
          (λ row. Guards-pure (filled b row)))

  Guards-released_info : (info : Option BlockInfo) → Guards (Saved t) (released_info env n info)
  unfolding released_info
  Guards-released_info none =
      Guards-bind _ _ (Guards-load_file_block (block_info n)) (λ loaded. Guards-pure (loaded.0))
  Guards-released_info (some b) = Guards-pure _

  Guards-deref : (h : Option Bytes) → Guards (Saved t) (deref h)
  unfolding deref
  Guards-deref none = Guards-abort
  Guards-deref (some h) = Guards-pure h

  Guards-remove_info : Guards (Saved t) (modify (remove_info n))
  unfolding remove_info
  Guards-remove_info = Guards-modify _ (λ w h. h)

  Fails-release_body : Fails (Saved t) (release_body env n)
  unfolding release_body
  Fails-release_body = Fails-bind _ _ (Guards-gets (find_info n)) λ cached.
      Fails-bind _ _ Guards-remove_info λ _. Fails-bind _ _ (Guards-released_info cached) λ block.
        Fails-bind _ _ (Guards-gets (λ w. w.file.st.ino)) λ ino.
          Fails-bind _ _ (Guards-execute_update (delete_file_block ino n)) λ _.
            Fails-bind _ _ (Guards-deref block.hash) λ h.
              Fails-bind _ _ (Guards-execute_update (decrease_use_count h))
                λ _. Fails-commit block.storage_block_num

-- `m` throws and changes nothing.
abbrev pub Refuses : {A : Type 0} → M A → World → Type 0
Refuses m w = (rest : List Bool) × (m w ≡ (throws, record w { faults = rest }))

-- A transaction that began with the tables t is open, and nothing ends it: both transactions of
-- DataBase throw, and leave it open.
abbrev pub IsStuck : Env → Tables → World → Type 0
IsStuck env t w =
    (w.saved ≡ some t)
    × ((n : ℕ) (h : Bytes) → Refuses (replace_storage_block env n h) w)
    × ((n : ℕ) → Refuses (release_storage_block env n) w)

-- The tables are those of t, or the transaction that began with them stays open.
abbrev pub IsUndone : Env → Tables → World → Type 0
IsUndone env t w = (w.tables ≡ t) ⊎ IsStuck env t w

Begun : Bool → World → List Bool → Outcome (Unit {0}) × World
Begun true w rest = (throws, record w { faults = rest })
Begun false w rest = (ok tt, record w { faults = rest; saved = some w.tables })

transaction_begin-cases :
    (w : World)
    → w.saved ≡ none
    → (b : Bool) × (rest : List Bool) × (transaction_begin w ≡ Begun b w rest)
unfolding transaction_begin Begun ◌>>=◌
transaction_begin-cases w k = by_fault (faulty-cases w)
  where
    by_fault :
        ((b : Bool) × (rest : List Bool) × (faulty w ≡ (ok b, record w { faults = rest })))
        → (b : Bool) × (rest : List Bool) × (transaction_begin w ≡ Begun b w rest)
    by_fault (true, rest, e) = (true, rest, rw e refl)
    by_fault (false, rest, e) = (false, rest, rw e (rw k refl))

begin_within : (t : Tables) (w : World) → w.saved ≡ some t → Refuses transaction_begin w
unfolding transaction_begin ◌>>=◌
begin_within t w k = by_fault (faulty-cases w)
  where
    by_fault :
        ((b : Bool) × (rest : List Bool) × (faulty w ≡ (ok b, record w { faults = rest })))
        → Refuses transaction_begin w
    by_fault (true, rest, e) = (rest, rw e refl)
    by_fault (false, rest, e) = (rest, rw e (rw k refl))

saved-IsStuck : (env : Env) (t : Tables) (w : World) → w.saved ≡ some t → IsStuck env t w
unfolding replace_storage_block release_storage_block ◌>>=◌
saved-IsStuck env t w k =
    let (rest, e) = begin_within t w k in (k, (λ n h. (rest, rw e refl)), (λ n. (rest, rw e refl)))

module _ (env : Env) (t : Tables) where
  rollback_after :
      (b : Bool) (rest : List Bool) (w : World)
      → faulty w ≡ (ok b, record w { faults = rest })
      → w.saved ≡ some t
      → Ends (λ _. IsUndone env t) (IsUndone env t) (transaction_rollback w)
  unfolding transaction_rollback ◌>>=◌
  rollback_after true rest w e k = rw e (inr (saved-IsStuck env t (record w { faults = rest }) k))
  rollback_after false rest w e k = rw e (rw k (inl refl))

  -- The handler of both transactions.
  rollback-IsUndone :
      (A : Type 0) (w : World)
      → Saved t w
      → Ends {A = A} (λ _ _. Unit {0}) (IsUndone env t) ((transaction_rollback >> throw) w)
  rollback-IsUndone A w k =
      let (b, rest, e) = faulty-cases w in
      Ends-bind (λ _. IsUndone env t) (λ _ _. Unit {0}) (IsUndone env t) transaction_rollback _ w
        (rollback_after b rest w e k) (λ _ v h. h)

module _ (env : Env) (n : ℕ) (w : World) where
  replace-Ends :
      (h : Bytes)
      → ((b : Bool) × (rest : List Bool) × (transaction_begin w ≡ Begun b w rest))
      → Ends (λ _ _. Unit {0}) (IsUndone env w.tables) (replace_storage_block env n h w)
  unfolding replace_storage_block Begun ◌>>=◌
  replace-Ends h (true, rest, e) = rw e (inl refl)
  replace-Ends h (false, rest, e) = rw e (
      Fails-try (Saved w.tables) (IsUndone env w.tables) (replace_body env n h (lock_weak n w)) _ _
        (Fails-replace_body env n h (lock_weak n w)) refl
        (λ v s. rollback-IsUndone env w.tables Bool v s))

  release-Ends :
      ((b : Bool) × (rest : List Bool) × (transaction_begin w ≡ Begun b w rest))
      → Ends (λ _ _. Unit {0}) (IsUndone env w.tables) (release_storage_block env n w)
  unfolding release_storage_block Begun ◌>>=◌
  release-Ends (true, rest, e) = rw e (inl refl)
  release-Ends (false, rest, e) = rw e (
      Fails-try (Saved w.tables) (IsUndone env w.tables) (release_body env n) _ _
        (Fails-release_body env n) refl (λ v s. rollback-IsUndone env w.tables ℕ v s))

  -- Where no transaction is open before and replaceStorageBlock throws, whichever calls failed,
  -- the tables are as before it, or the rollback failed too: then the transaction that began with
  -- those tables is still open, and every replaceStorageBlock and releaseStorageBlock throws and
  -- leaves everything as it is.
  pub replace_failure :
      (h : Bytes)
      → w.saved ≡ none
      → (replace_storage_block env n h w).0 ≡ throws
      → IsUndone env w.tables (replace_storage_block env n h w).1
  replace_failure h k =
      Ends-throws (IsUndone env w.tables) _ (replace-Ends h (transaction_begin-cases w k))

  -- Where no transaction is open before and releaseStorageBlock throws, whichever calls failed,
  -- the tables are as before it, or the rollback failed too: then the transaction that began with
  -- those tables is still open, and every replaceStorageBlock and releaseStorageBlock throws and
  -- leaves everything as it is.
  pub release_failure :
      w.saved ≡ none
      → (release_storage_block env n w).0 ≡ throws
      → IsUndone env w.tables (release_storage_block env n w).1
  release_failure k =
      Ends-throws (IsUndone env w.tables) _ (release-Ends (transaction_begin-cases w k))
