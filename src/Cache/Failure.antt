-- ===== src/Cache/Failure.antt =====
-- blockscache.cpp: _writeBlockWrapper where a call in it throws.
use wwdedup.Cache.Access.{
  add_block, add_info, attach_block, ensure_info, fill_block, get_locked_file_block, place_block,
  touch, unlock_info, write_block,
}
use wwdedup.Cache.Locks.{
  Guards-transaction_rollback, Guards-transaction_commit, Guards-transaction_begin,
  Guards-choose_block, Guards-execute_update, Guards-faulty, Guards-query, Guards-set_info,
  Guards-store_use, Guards-transaction_begin, Guards-transaction_commit,
  Guards-transaction_rollback, Guards-world, IsLocked, locked_hangs,
}
use wwdedup.Cache.Storage.{overlay, block_size, populate}
use wwdedup.Cache.Transfer.{write_over, old_bytes, write_block_wrapper}
use wwdedup.Database.Blocks.{cleared, filled, load_file_block, replace_body, replace_storage_block}
use wwdedup.Database.Pointers.{find_in, find_info, has_file_num, set_block, set_info}
use wwdedup.Effects.{gets, hangs, pure, throws, ◌>>=◌}
use wwdedup.Effects.Logic.{
  Guards-abort, Ends-bind, Ends, Ends-if, Ends-throws, Fails-bind, Guards, Guards-bind, Guards-gets,
  Guards-if, Guards-pure, Guards-throw, Guards-try, NoThrow-Fails, NoThrow-modify,
}
use wwdedup.Prelude.{
  ◌+◌, leb, Bool-cases, List, Option, [], arith, find_first-update_where, find_first_holds,
  if◌then◌else◌, inl, inr, length, ltb, none, refl, some, true, update_where, ℕ, ℤ, ◌*◌, ◌∙◌, ◌∷◌,
  ◌≡◌,
}
use wwdedup.Sql.{FileBlock, get_file_block, query}
use wwdedup.State.{Env, World}
use wwdedup.Types.{BlockInfo, Bytes, StorageBlock, access, block_info}

module _ (env : Env) (n : ℕ) where
  Guards-replace_body :
      (h : Bytes) (sb : Option StorageBlock) → Guards (IsLocked n) (replace_body env n h sb)
  unfolding replace_body
  Guards-replace_body h sb = Guards-bind _ _ (Guards-set_info n n _ (λ a. refl) (λ a l. l)) λ _.
      Guards-bind _ _ (Guards-query n _) λ row.
        Guards-bind _ _ (Guards-choose_block n env h sb row) λ chosen.
          Guards-bind _ _ (Guards-gets _) λ ino. Guards-bind _ _ (Guards-execute_update n _) λ _.
            Guards-bind _ _ (Guards-store_use n (chosen.1))
              λ _. Guards-bind _ _ (Guards-transaction_commit n) λ _. Guards-pure (chosen.0)

  Guards-replace_storage_block : (h : Bytes) → Guards (IsLocked n) (replace_storage_block env n h)
  unfolding replace_storage_block
  Guards-replace_storage_block h = Guards-bind _ _ (Guards-transaction_begin n) λ _.
      Guards-bind _ _ (Guards-gets _) λ sb.
        Guards-try _ _ (Guards-replace_body h sb)
          (Guards-bind _ _ (Guards-transaction_rollback n) (λ _. Guards-throw))

  Guards-fill_block :
      (num : ℕ) (bytes h : Bytes) (found : Option StorageBlock)
      → Guards (IsLocked n) (fill_block n num bytes h found)
  unfolding fill_block set_block add_block
  Guards-fill_block num bytes h (some item) =
      Guards-bind _ _ (Guards-world n _ (λ w. refl))
        (λ _. Guards-set_info n n _ (λ a. refl) (λ a l. l))
  Guards-fill_block num bytes h none = Guards-bind _ _ (Guards-gets _) λ now.
      Guards-bind _ _ (Guards-gets _) λ serial.
        Guards-bind _ _ (Guards-world n _ (λ w. refl))
          λ _. Guards-set_info n n _ (λ a. refl) (λ a l. l)

  Guards-write_block : (bytes : Bytes) → Guards (IsLocked n) (write_block env n bytes)
  unfolding write_block
  Guards-write_block bytes =
      Guards-bind _ _ (Guards-replace_storage_block (env.murmur bytes)) λ present.
        Guards-bind _ _ (Guards-gets _) λ num. Guards-bind _ _ (Guards-gets _) λ found.
          Guards-if present _ _ (Guards-world n _ (λ w. refl))
            (Guards-fill_block num bytes (env.murmur bytes) found)

  Guards-touch : (b : Option StorageBlock) → Guards (IsLocked n) (touch b)
  unfolding touch set_block
  Guards-touch none = Guards-pure none
  Guards-touch (some b) =
      Guards-bind _ _ (Guards-gets _)
        λ now. Guards-bind _ _ (Guards-world n _ (λ w. refl)) λ _. Guards-pure (some (access now b))

  Guards-populate : (b : StorageBlock) → Guards (IsLocked n) (populate env b)
  unfolding populate set_block
  Guards-populate b = Guards-if _ _ _ (Guards-pure b) (
      Guards-bind _ _ (Guards-world n _ (λ w. refl)) λ _.
        Guards-bind _ _ (Guards-faulty n) λ failed. Guards-bind _ _ (Guards-gets _) λ stored.
          Guards-bind _ _ (Guards-gets _) λ bytes.
            Guards-if _ _ _ Guards-throw
              (Guards-bind _ _ (Guards-world n _ (λ w. refl)) (λ _. Guards-pure _)))

  Guards-old_bytes : (len : ℕ) (b : Option StorageBlock) → Guards (IsLocked n) (old_bytes env len b)
  unfolding old_bytes
  Guards-old_bytes len none = Guards-pure []
  Guards-old_bytes len (some b) =
      Guards-if _ _ _ (Guards-bind _ _ (Guards-populate b) (λ p. Guards-pure p.content))
        (Guards-pure [])

  filled-kept :
      (b : BlockInfo) (row : Option FileBlock)
      → ((filled b row).0.file_block_num ≡ b.file_block_num) × ((filled b row).0.locked ≡ b.locked)
  filled-kept b none = (refl, refl)
  filled-kept b (some row) = (refl, refl)

  -- A loaded block_info that stands for file block n, and is locked.
  abbrev Held : BlockInfo × ℤ → World → Type 0
  Held r w = IsLocked n w × ((r.0.file_block_num ≡ n) × (r.0.locked ≡ true))

  Ends-load :
      (b : BlockInfo) (w : World)
      → IsLocked n w
      → b.file_block_num ≡ n
      → b.locked ≡ true
      → Ends Held (IsLocked n) (load_file_block env b w)
  unfolding load_file_block
  Ends-load b w h e l =
      Ends-bind (λ _. IsLocked n) Held (IsLocked n) (gets (λ (v : World). v.file)) _ w h
        λ file v k.
          Ends-if Held (IsLocked n) (ltb file.st.size (b.file_block_num * env.db_block_size))
            (pure (cleared b))
            (query (get_file_block file.st.ino b.file_block_num) >>= λ row. pure (filled b row)) v
            (k, (e, l))
            (Ends-bind (λ _. IsLocked n) Held (IsLocked n)
              (query (get_file_block file.st.ino b.file_block_num)) (λ row. pure (filled b row)) v
              ((Guards-query n _).at v k)
              (λ row u j. (j, ((filled-kept b row).0 ∙ e, (filled-kept b row).1 ∙ l))))

  find_in-overwritten :
      (b a : BlockInfo) (bs : List BlockInfo)
      → b.file_block_num ≡ n
      → find_in n bs ≡ some a
      → find_in n (update_where (has_file_num n) (λ _. b) bs) ≡ some b
  unfolding find_in
  find_in-overwritten b a [] e h = cc
  find_in-overwritten b a (c ∷ bs) e h = ground (arith, find_in-overwritten b a bs e)

  IsLocked-added : (w : World) → IsLocked n (add_info (record (block_info n) { locked = true }) w)
  unfolding add_info find_in
  IsLocked-added w = (record (block_info n) { locked = true }, ground arith, refl)

  IsLocked-overwritten :
      (b : BlockInfo) (w : World)
      → b.file_block_num ≡ n
      → b.locked ≡ true
      → IsLocked n w
      → IsLocked n (set_info n (λ _. b) w)
  unfolding set_info
  IsLocked-overwritten b w e l (a, found, _) = (b, find_in-overwritten b a w.file.blocks e found, l)

  IsLocked-set :
      (b : BlockInfo) (w : World)
      → find_info n w ≡ some b
      → IsLocked n (set_info n (λ i. record i { locked = true }) w)
  unfolding set_info find_in
  IsLocked-set b w e = (
    if has_file_num n b then record b { locked = true } else b,
    rw
        (find_first-update_where (has_file_num n) (has_file_num n) (λ i. record i { locked = true })
          w.file.blocks (λ a. refl))
        (rw e refl),
    ground (arith, find_first_holds (has_file_num n) w.file.blocks b e),
  )

  Ends-ensure_info :
      (found : Option BlockInfo) (w : World)
      → find_info n w ≡ found
      → Ends (λ _. IsLocked n) (IsLocked n) (ensure_info env n found w)
  unfolding ensure_info ◌>>=◌
  Ends-ensure_info none w e =
      Ends-bind Held (λ _. IsLocked n) (IsLocked n)
        (load_file_block env (record (block_info n) { locked = true })) _ _
        (Ends-load (record (block_info n) { locked = true }) _ (IsLocked-added w) refl refl)
        λ r v k. IsLocked-overwritten (record r.0 { loaded = true }) v (k.1.0) (k.1.1) (k.0)
  Ends-ensure_info (some b) w e = elim (Bool-cases b.locked) [
    | inl held ↦ rw held tt
    | inr free ↦ rw free (IsLocked-set b w e)
  ]

  Guards-place_block :
      (info : BlockInfo) (use_count : ℤ) (found : Option StorageBlock)
      → Guards (IsLocked n) (place_block n info use_count found)
  unfolding place_block add_block
  Guards-place_block info use_count (some item) = Guards-set_info n n _ (λ a. refl) (λ a l. l)
  Guards-place_block info use_count none = Guards-bind _ _ (Guards-gets _) λ now.
      Guards-bind _ _ (Guards-gets _) λ serial.
        Guards-bind _ _ (Guards-world n _ (λ w. refl))
          λ _. Guards-set_info n n _ (λ a. refl) (λ a l. l)

  Guards-attach_block :
      (use_count : ℤ) (info : Option BlockInfo) (held : Option StorageBlock)
      → Guards (IsLocked n) (attach_block n use_count info held)
  unfolding attach_block
  Guards-attach_block use_count none held = Guards-pure tt
  Guards-attach_block use_count (some info) (some b) = Guards-pure tt
  Guards-attach_block use_count (some info) none =
      Guards-if _ _ _ (Guards-pure tt)
        (Guards-bind _ _ (Guards-gets _) (λ found. Guards-place_block info use_count found))

  -- _getLockedFileBlock leaves the block_info locked, also where it throws.
  Ends-get_locked_file_block :
      (w : World) → Ends (λ _. IsLocked n) (IsLocked n) (get_locked_file_block env n w)
  unfolding get_locked_file_block
  Ends-get_locked_file_block w =
      Ends-bind (λ found v. find_info n v ≡ found) (λ _. IsLocked n) (IsLocked n)
        (gets (find_info n)) _ w refl
        λ found v e.
          Ends-bind (λ _. IsLocked n) (λ _. IsLocked n) (IsLocked n) (ensure_info env n found) _ v
            (Ends-ensure_info found v e)
            λ use_count u k.
              (Guards-bind _ _ (Guards-gets _) λ info.
                  Guards-bind _ _ (Guards-gets _)
                    λ held. Guards-attach_block use_count info held).at
                u k

  Guards-write_over :
      (start : ℕ) (chunk bytes : Bytes) → Guards (IsLocked n) (write_over env n start chunk bytes)
  unfolding write_over
  Guards-write_over start chunk bytes =
      Guards-if (leb (start + length chunk) (block_size env)) _ _
        (Guards-write_block (overlay start chunk bytes)) Guards-abort

  Fails-write_block_wrapper :
      (chunk : Bytes) (start : ℕ)
      → (w : World) → Ends (λ _ _. Unit {0}) (IsLocked n) (write_block_wrapper env chunk n start w)
  unfolding write_block_wrapper unlock_info
  Fails-write_block_wrapper chunk start w =
      Ends-bind (λ _. IsLocked n) (λ _ _. Unit {0}) (IsLocked n) (get_locked_file_block env n) _ w
        (Ends-get_locked_file_block w)
        λ _ v k.
          (Fails-bind _ _ (Guards-gets _) λ held. Fails-bind _ _ (Guards-touch held) λ first.
              Fails-bind _ _ (Guards-old_bytes (length chunk) first) λ old.
                Fails-bind _ _ (Guards-write_over start chunk _)
                  λ _. NoThrow-Fails _ (NoThrow-modify _)).at
            v k

  -- Where _writeBlockWrapper throws, whichever calls failed, the mutex of the block_info stays
  -- locked: the next _getLockedFileBlock of the same file for this block never returns.
  pub write_failure :
      (chunk : Bytes) (start : ℕ) (w : World)
      → (write_block_wrapper env chunk n start w).0 ≡ throws
      → (get_locked_file_block env n (write_block_wrapper env chunk n start w).1).0 ≡ hangs
  write_failure chunk start w e =
      locked_hangs env n _ (Ends-throws (IsLocked n) _ (Fails-write_block_wrapper chunk start w) e)
