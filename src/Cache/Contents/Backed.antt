-- ===== src/Cache/Contents/Backed.antt =====
-- _writeBlock against the storage file: a dirty object has data, and a clean one the storage file's.
-- The storage file is the same.
use wwdedup.Cache.Access.{rewritten, used_again}
use wwdedup.Cache.Contents.{IsStored}
use wwdedup.Cache.Contents.Blocks.{filled_blocks, find_first-insert_new, find_first-insert_other}
use wwdedup.Cache.Contents.Flushed.{IsBacked}
use wwdedup.Cache.Contents.Persisted.{AllBacked}
use wwdedup.Cache.Contents.Replaced.{left-same}
use wwdedup.Cache.Contents.Writes.{filled, filled_world, left, old_row, recounted, replaced_world}
use wwdedup.Cache.Storage.{is_nil}
use wwdedup.Database.Blocks.{dropped}
use wwdedup.Database.Effect.{IsQuiet}
use wwdedup.Database.Pointers.{find_info, has_num, has_serial, lock_weak}
use wwdedup.Prelude.{
  Bool, Bool-cases, List, Option, ap, arith, change_found, false, find_first,
  find_first-update_where, inl, inr, none, refl, some, subst, sym, update_where, ℕ, ◌==◌, ◌∙◌, ◌≡◌,
}
use wwdedup.State.{Env, World}
use wwdedup.Types.{BlockInfo, Bytes, StorageBlock, storage_block}

IsBacked-disk :
    (w v : World) (o : Option StorageBlock)
    → v.disk ≡ w.disk
    → v.disk_blocks ≡ w.disk_blocks
    → IsBacked w o
    → IsBacked v o
IsBacked-disk w v none d r k = tt
IsBacked-disk w v (some b) d r k = (k.0, λ c z. rw (d, r) (k.1 c z))

abbrev pub SameData : (StorageBlock → StorageBlock) → Type 0
SameData f =
    (b : StorageBlock)
    → ((f b).storage_block_num ≡ b.storage_block_num)
      × ((f b).content ≡ b.content)
      × ((f b).dirty ≡ b.dirty)

module _ (w : World) where
  IsBacked-same :
      (a b : StorageBlock)
      → b.storage_block_num ≡ a.storage_block_num
      → b.content ≡ a.content
      → b.dirty ≡ a.dirty
      → IsBacked w (some a)
      → IsBacked w (some b)
  IsBacked-same a b n c d k =
      (λ e. rw c (k.0 (sym d ∙ e)), λ e z. rw (n, c) (k.1 (sym d ∙ e) (ap is_nil (sym c) ∙ z)))

  abbrev Backed : List StorageBlock → Type 0
  Backed bs = (id : ℕ) → IsBacked w (find_first (has_num id) bs)

  Backed-update_where :
      (q : StorageBlock → Bool) (f : StorageBlock → StorageBlock) (bs : List StorageBlock)
      → SameData f
      → Backed bs
      → Backed (update_where q f bs)
  Backed-update_where q f bs same k id =
      rw (find_first-update_where (has_num id) q f bs (λ a. ap (λ (x : ℕ). x == id) (same a).0))
        (changed (find_first (has_num id) bs) (k id))
    where
      changed : (o : Option StorageBlock) → IsBacked w o → IsBacked w (change_found q f o)
      changed none e = tt
      changed (some b) e = elim (Bool-cases (q b)) [
        | inl hit ↦ rw hit (IsBacked-same b (f b) (same b).0 (same b).1 (same b).2 e)
        | inr miss ↦ rw miss e
      ]

  -- The object that is written is dirty.
  Backed-filled_blocks :
      (num : ℕ) (c h : Bytes) (now serial : ℕ) (o : Option StorageBlock) (bs : List StorageBlock)
      → is_nil c ≡ false
      → find_first (has_num num) bs ≡ o
      → Backed bs
      → Backed (filled_blocks num c h now serial o bs)
  Backed-filled_blocks num c h now serial none bs z e k id = elim (Bool-cases (id == num)) [
    | inl same ↦
        rw
          (find_first-insert_new (has_num id) (rewritten c h (storage_block serial now num)) bs
            (ground (arith, same))
            (subst (λ x. find_first (has_num x) bs ≡ none) (ground (arith, same)) e))
          ((λ _. z), λ d. absurd (ground (arith, d)))
    | inr other ↦
        rw
          (find_first-insert_other (has_num id) (rewritten c h (storage_block serial now num)) bs
            (ground (arith, other)))
          (k id)
  ]
  Backed-filled_blocks num c h now serial (some item) bs z e k id =
      rw
        (find_first-update_where (has_num id) (has_serial item.serial) (rewritten c h) bs
          (λ a. refl))
        (changed (find_first (has_num id) bs) (k id))
    where
      changed :
          (o : Option StorageBlock)
          → IsBacked w o
          → IsBacked w (change_found (has_serial item.serial) (rewritten c h) o)
      changed none g = tt
      changed (some b) g = elim (Bool-cases (b.serial == item.serial)) [
        | inl hit ↦ rw hit ((λ _. z), λ d. absurd (ground (arith, d)))
        | inr miss ↦ rw miss g
      ]

module _ (env : Env) (n : ℕ) (c : Bytes) (w : World) (fb : BlockInfo) (q : IsQuiet w)
    (z : is_nil c ≡ false) (backed : AllBacked w) where
  backed_replaced : AllBacked (replaced_world env n c w fb)
  backed_replaced id =
      let l = left env n c w fb q in
      rw l.blocks (
        IsBacked-disk w (replaced_world env n c w fb) _ l.disk l.reach (
          left-same (lock_weak n w) (old_row env n c w fb) w.blocks (Backed w) backed
            (λ s.
              Backed-update_where w (has_serial s) dropped w.blocks (λ b. (refl, refl, refl))
                backed)
            id))

  pub backed_recounted : AllBacked (recounted env n c w fb)
  backed_recounted id =
      IsBacked-disk (replaced_world env n c w fb) (recounted env n c w fb) _ refl refl (
        Backed-update_where (replaced_world env n c w fb) _ used_again
          (replaced_world env n c w fb).blocks (λ b. (refl, refl, refl)) backed_replaced id)

  pub backed_filled :
      find_info n w ≡ some fb → IsStored env w → AllBacked (filled_world env n c w fb).1
  backed_filled f k id =
      let l = filled env n c w fb q f k in
      rw l.blocks (
        IsBacked-disk (replaced_world env n c w fb) (filled_world env n c w fb).1 _ l.disk l.reach (
          Backed-filled_blocks (replaced_world env n c w fb) _ c _ _ _ _
            (replaced_world env n c w fb).blocks z refl backed_replaced id))
