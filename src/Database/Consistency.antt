-- ===== src/Database/Consistency.antt =====
-- replaceStorageBlock and releaseStorageBlock against the use counts of the tables.
use wwdedup.Database.Blocks.{replace_storage_block}
use wwdedup.Database.Effect.{IsQuiet, moved, new_key, replace_result}
use wwdedup.Database.Pointers.{lock_weak}
use wwdedup.Effects.{ok}
use wwdedup.Prelude.{
  is_some, Bool-cases, List, Option, [], arith, eqb_ℤ, eqb_ℤ_iff, find_first, inl, inr, map, none,
  pos, refl, some, sym, ℕ, ◌==◌, ◌∙◌, ◌∷◌, ◌≡◌, ◌≢◌,
}
use wwdedup.Sql.{at_offset, has_hash, select_block_hash}
use wwdedup.Sql.Counts.{IsConsistent, has_id}
use wwdedup.Sql.Inserts.{IsConsistent-allocated_new, IsConsistent-allocated_old}
use wwdedup.Sql.Keeps.{IsConsistent-in_place, IsConsistent-present_new, IsConsistent-present_old}
use wwdedup.State.{Env, FileBlockRow, HashRow, Tables, World}
use wwdedup.Types.{Bytes, StorageBlock}

-- The old storage block of file block n, as the cache has it, agrees with the tables.
abbrev pub InStep : ℕ → ℕ → Tables → Option StorageBlock → Type 0
InStep i n t none = find_first (at_offset i n) t.file_blocks ≡ none
InStep i n t (some b) =
    (r : FileBlockRow) × (old : HashRow) × (find_first (at_offset i n) t.file_blocks ≡ some r)
    × (find_first (has_hash r.hash) t.block_hashes ≡ some old)
    × (b.storage_block_num ≡ old.id)
    × (b.use_count ≡ old.use_count)

-- The key that the engine gives is new.
abbrev pub IsFresh : Env → Type 0
IsFresh env = (ks : List ℕ) → find_first (λ k. k == env.new_rowid ks) ks ≡ none

ids-map :
    (id : ℕ) (rs : List HashRow)
    → find_first (λ k. k == id) (map (λ (r : HashRow). r.id) rs) ≡ none
    → find_first (has_id id) rs ≡ none
ids-map id [] h = refl
ids-map id (r ∷ rs) h = ground (arith, ids-map id rs)

pub fresh_id :
    (env : Env) (t : Tables)
    → IsFresh env
    → find_first (has_id (new_key env t)) t.block_hashes ≡ none
fresh_id env t fresh = ids-map (new_key env t) t.block_hashes (fresh _)

IsConsistent-moved :
    (i n : ℕ) (h : Bytes) (id : ℕ) (t : Tables) (sb : Option StorageBlock) (row : Option HashRow)
    → IsConsistent t
    → InStep i n t sb
    → find_first (has_hash h) t.block_hashes ≡ row
    → find_first (has_id id) t.block_hashes ≡ none
    → ((r : FileBlockRow) → find_first (at_offset i n) t.file_blocks ≡ some r → r.hash ≢ h)
    → IsConsistent (moved i n h id sb row t)
IsConsistent-moved i n h id t none none c e f fresh ne =
    IsConsistent-allocated_new i n h id t c e f fresh
IsConsistent-moved i n h id t none (some row) c e f fresh ne =
    IsConsistent-present_new i n h t row c e f
IsConsistent-moved i n h id t (some b) (some row) c (r, old, e, g, num, count) f fresh ne =
    rw (num, count) (IsConsistent-present_old i n h t row old r c e g f (ne r e))
IsConsistent-moved i n h id t (some b) none c (r, old, e, g, num, count) f fresh ne =
    elim (Bool-cases (eqb_ℤ b.use_count (pos 1))) [
      | inl one ↦ rw one (
          rw (num, count)
            (IsConsistent-in_place i n h t old r c e g f (sym count ∙ (eqb_ℤ_iff _ _).0 one)))
      | inr many ↦
          rw many (rw (num, count) (IsConsistent-allocated_old i n h id t old r c e g f fresh))
    ]

module _ (env : Env) (n : ℕ) (h : Bytes) (w : World) where
  -- Where no call fails, no transaction is open, SQLite gives a new row an unused key, the tables
  -- are consistent (keys are unique and each use count is the number of file blocks with that
  -- hash), the old storage block as the cache has it agrees with them, and the new hash differs
  -- from the old one, replaceStorageBlock succeeds, tells whether the hash was present, and leaves
  -- the tables consistent.
  pub replace-IsConsistent :
      IsQuiet w
      → IsFresh env
      → IsConsistent w.tables
      → InStep w.file.st.ino n w.tables (lock_weak n w)
      → ((r : FileBlockRow)
          → find_first (at_offset w.file.st.ino n) w.tables.file_blocks ≡ some r
          → r.hash ≢ h)
      → ((replace_storage_block env n h w).0 ≡ ok (is_some (select_block_hash h w.tables)))
        × IsConsistent (replace_storage_block env n h w).1.tables
  unfolding select_block_hash
  replace-IsConsistent q fresh c s ne =
      let out =
        replace_result env n h w (lock_weak n w) (select_block_hash h w.tables) q refl refl in
      (
        out.0,
        rw (out.1) (
            IsConsistent-moved w.file.st.ino n h (new_key env w.tables) w.tables (lock_weak n w)
              (select_block_hash h w.tables) c s refl (fresh_id env w.tables fresh) ne),
      )
