-- ===== src/Cache/Locks.antt =====
-- blockscache.cpp: the mutex of a block_info, which _getLockedFileBlock locks and _writeBlockWrapper
-- unlocks as its last step.
use wwdedup.Cache.Access.{get_locked_file_block}
use wwdedup.Database.Blocks.{
  choose_block, drop_use, dropped, store_use, use_allocated, use_in_place, use_present,
}
use wwdedup.Database.Pointers.{find_in, find_info, has_file_num, set_block, set_info}
use wwdedup.Effects.{hangs, modify, ◌>>=◌}
use wwdedup.Effects.Logic.{
  Guards, Guards-bind, Guards-gets, Guards-if, Guards-modify, Guards-pure, Guards-throw,
}
use wwdedup.Prelude.{
  List, Option, ap, arith, false, find_first-update_where, if◌then◌else◌, none, refl, some, true,
  update_where, ℕ, ◌==◌, ◌≡◌,
}
use wwdedup.Sql.{
  transaction_begin, restore, transaction_commit, transaction_rollback, execute_insert_hash,
  execute_update, insert_block_hash, query,
}
use wwdedup.State.{Env, HashRow, Tables, World, faulty, faulty-cases}
use wwdedup.Types.{BlockInfo, Bytes, StorageBlock}

-- The block_info of file block n is there and locked.
abbrev pub IsLocked : ℕ → World → Type 0
IsLocked n w = (b : BlockInfo) × (find_info n w ≡ some b) × (b.locked ≡ true)

pub locked_hangs :
    (env : Env) (n : ℕ) (w : World) → IsLocked n w → (get_locked_file_block env n w).0 ≡ hangs
unfolding get_locked_file_block ◌>>=◌
locked_hangs env n w (b, e, l) = rw (e, l) refl

module _ (n : ℕ) where
  Locked-update_where :
      (m : ℕ) (f : BlockInfo → BlockInfo) (bs : List BlockInfo)
      → ((a : BlockInfo) → (f a).file_block_num ≡ a.file_block_num)
      → ((a : BlockInfo) → a.locked ≡ true → (f a).locked ≡ true)
      → (b : BlockInfo) × (find_in n bs ≡ some b) × (b.locked ≡ true)
      → (b : BlockInfo) × (find_in n (update_where (has_file_num m) f bs) ≡ some b)
        × (b.locked ≡ true)
  unfolding find_in
  Locked-update_where m f bs kn kl (b, e, l) = (
    if has_file_num m b then f b else b,
    rw
        (find_first-update_where (has_file_num n) (has_file_num m) f bs
          (λ a. ap (λ (x : ℕ). x == n) (kn a)))
        (rw e refl),
    ground (arith, kl b l, l),
  )

  pub Guards-set_info :
      (m : ℕ) (f : BlockInfo → BlockInfo)
      → ((a : BlockInfo) → (f a).file_block_num ≡ a.file_block_num)
      → ((a : BlockInfo) → a.locked ≡ true → (f a).locked ≡ true)
      → Guards (IsLocked n) (modify (set_info m f))
  unfolding set_info
  Guards-set_info m f kn kl = Guards-modify _ (λ w h. Locked-update_where m f w.file.blocks kn kl h)

  pub Guards-faulty : Guards (IsLocked n) faulty
  Guards-faulty = record { at = λ w h. let (b, rest, e) = faulty-cases w in rw e h }

  pub Guards-world :
      (f : World → World) → ((w : World) → (f w).file ≡ w.file) → Guards (IsLocked n) (modify f)
  Guards-world f k = Guards-modify f (λ w h. rw (k w) h)

  pub Guards-execute_update : (f : Tables → Tables) → Guards (IsLocked n) (execute_update f)
  unfolding execute_update
  Guards-execute_update f =
      Guards-bind faulty _ Guards-faulty
        (λ b. Guards-if b _ _ Guards-throw (Guards-world _ (λ w. refl)))

  pub Guards-query : {A : Type 0} (f : Tables → A) → Guards (IsLocked n) (query f)
  unfolding query
  Guards-query f =
      Guards-bind faulty _ Guards-faulty
        (λ b. Guards-if b _ _ Guards-throw (Guards-gets (λ (w : World). f w.tables)))

  Guards-drop_use : (sb : Option StorageBlock) → Guards (IsLocked n) (drop_use sb)
  unfolding drop_use set_block
  Guards-drop_use none = Guards-pure none
  Guards-drop_use (some b) =
      Guards-bind _ _ (Guards-world _ (λ w. refl)) (λ _. Guards-pure (some (dropped b)))

  Guards-use_present :
      (h : Bytes) (sb : Option StorageBlock) (row : HashRow)
      → Guards (IsLocked n) (use_present n h sb row)
  unfolding use_present
  Guards-use_present h sb row =
      Guards-bind _ _ (Guards-set_info n _ (λ a. refl) (λ a l. l))
        λ _. Guards-bind _ _ (Guards-execute_update _) λ _. Guards-drop_use sb

  Guards-use_allocated :
      (env : Env) (h : Bytes) (sb : Option StorageBlock)
      → Guards (IsLocked n) (use_allocated env n h sb)
  unfolding use_allocated execute_insert_hash
  Guards-use_allocated env h sb =
      Guards-bind _ _
        (Guards-bind _ _ (Guards-gets _) λ id.
          Guards-bind _ _ (Guards-execute_update (insert_block_hash h id))
            λ _. Guards-world _ (λ w. refl))
        λ _.
          Guards-bind _ _ (Guards-gets _) λ id.
            Guards-bind _ _ (Guards-set_info n _ (λ a. refl) (λ a l. l)) λ _. Guards-drop_use sb

  Guards-use_in_place :
      (h : Bytes) (sb : Option StorageBlock) → Guards (IsLocked n) (use_in_place h sb)
  unfolding use_in_place
  Guards-use_in_place h sb = Guards-bind _ _ (Guards-execute_update _) (λ _. Guards-pure sb)

  pub Guards-choose_block :
      (env : Env) (h : Bytes) (sb : Option StorageBlock) (row : Option HashRow)
      → Guards (IsLocked n) (choose_block env n h sb row)
  unfolding choose_block
  Guards-choose_block env h sb (some row) =
      Guards-bind _ _ (Guards-use_present h sb row) (λ left. Guards-pure (true, left))
  Guards-choose_block env h sb none =
      Guards-bind _ _ (Guards-if _ _ _ (Guards-use_in_place h sb) (Guards-use_allocated env h sb))
        (λ left. Guards-pure (false, left))

  pub Guards-store_use : (sb : Option StorageBlock) → Guards (IsLocked n) (store_use sb)
  unfolding store_use
  Guards-store_use none = Guards-pure tt
  Guards-store_use (some b) = Guards-execute_update _

  pub Guards-transaction_begin : Guards (IsLocked n) transaction_begin
  unfolding transaction_begin
  Guards-transaction_begin = Guards-bind faulty _ Guards-faulty λ b.
      Guards-bind _ _ (Guards-gets _)
        λ saved. Guards-if _ _ _ Guards-throw (Guards-world _ (λ w. refl))

  pub Guards-transaction_commit : Guards (IsLocked n) transaction_commit
  unfolding transaction_commit
  Guards-transaction_commit = Guards-bind faulty _ Guards-faulty λ b.
      Guards-bind _ _ (Guards-gets _)
        λ saved. Guards-if _ _ _ Guards-throw (Guards-world _ (λ w. refl))

  Guards-restore : (saved : Option Tables) → Guards (IsLocked n) (restore saved)
  Guards-restore none = Guards-throw
  Guards-restore (some t) = Guards-world _ (λ w. refl)

  pub Guards-transaction_rollback : Guards (IsLocked n) transaction_rollback
  unfolding transaction_rollback
  Guards-transaction_rollback = Guards-bind faulty _ Guards-faulty λ b.
      Guards-bind _ _ (Guards-gets _) λ saved. Guards-if _ _ _ Guards-throw (Guards-restore saved)
