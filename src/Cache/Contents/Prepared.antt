-- ===== src/Cache/Contents/Prepared.antt =====
-- What _writeBlockWrapper does before it writes: the content of the storage blocks stays.
use wwdedup.Cache.Contents.{HoldsHash, IsCache, IsStored, content_in, id_of, on_disk, stored}
use wwdedup.Cache.Contents.Blocks.{IsCache-update_where, content_in-filled, content_in-update_where}
use wwdedup.Cache.Contents.Reads.{on_disk_cases}
use wwdedup.Cache.Storage.{block_size, is_nil, populate, zeros}
use wwdedup.Database.Pointers.{has_num, has_serial, set_block}
use wwdedup.Effects.{ok, ◌>>=◌}
use wwdedup.Prelude.{
  ==_refl, Bool-cases, List, [], ap, arith, false, find_first, find_first-update_where,
  if◌then◌else◌, inl, inr, ltb, refl, some, subst, suc, sym, true, update_where, zero, ℕ, ◌<◌, ◌==◌,
  ◌∙◌, ◌≡◌, ◌⊎◌,
}
use wwdedup.State.{Env, Tables, World}
use wwdedup.Types.{Bytes, StorageBlock, access}
use native.Mathlib.Nat.{one-le-pow}

-- A change of the cache alone that keeps contents.
pub record KeepsContents (before after : World) : Type 0 where
  pub faults : after.faults ≡ before.faults
  pub saved : after.saved ≡ before.saved
  pub tables : after.tables ≡ before.tables
  pub same : (id : ℕ) → stored id after ≡ stored id before
  pub cache : IsCache after.next_serial after.blocks

pub IsStored-kept : (env : Env) (w v : World) → KeepsContents w v → IsStored env w → IsStored env v
IsStored-kept env w v k s = record {
  holds = λ h id e.
      subst (HoldsHash env h) (sym (k.same id))
        (s.holds h id (sym (ap (λ (t : Tables). id_of h t.block_hashes) k.tables) ∙ e));
  cache = k.cache;
}

-- res->access()
pub touch-KeepsContents :
    (s t : ℕ) (w : World)
    → IsCache w.next_serial w.blocks
    → KeepsContents w (set_block s (access t) w)
unfolding set_block stored
touch-KeepsContents s t w k = record {
  faults = refl;
  saved = refl;
  tables = refl;
  same = λ id.
      content_in-update_where w.disk w.disk_blocks id _ (access t) w.blocks
        (λ b. (refl, (refl, refl)));
  cache = IsCache-update_where w.next_serial _ (access t) w.blocks (λ b. refl) (λ b. refl) k;
}

abbrev with_content : Bytes → StorageBlock → StorageBlock
with_content c b = record b { content = c }

zeros_full : (n : ℕ) → 0 < n → is_nil (zeros n) ≡ false
unfolding is_nil
zeros_full zero h = absurd (omega (arith, h))
zeros_full (suc n) h = refl

abbrev loaded_world : Env → StorageBlock → World → World
loaded_world env b w =
    set_block b.serial (with_content (w.disk b.storage_block_num))
      (set_block b.serial (with_content (zeros (block_size env))) w)

module _ (env : Env) (b : StorageBlock) (w : World) (k : IsCache w.next_serial w.blocks) where
  abbrev zeroed : List StorageBlock
  zeroed = update_where (has_serial b.serial) (with_content (zeros (block_size env))) w.blocks

  zeroed_found :
      find_first (has_num b.storage_block_num) w.blocks ≡ some b
      → find_first (has_num b.storage_block_num) zeroed
        ≡ some (with_content (zeros (block_size env)) b)
  zeroed_found f =
      find_first-update_where (has_num b.storage_block_num) (has_serial b.serial) _ w.blocks
        (λ a. refl)
      ∙ rw f (rw (==_refl b.serial) refl)

  zeroed-IsCache : IsCache w.next_serial zeroed
  zeroed-IsCache = IsCache-update_where w.next_serial _ _ w.blocks (λ a. refl) (λ a. refl) k

  zeroed_content :
      (id : ℕ)
      → find_first (has_num b.storage_block_num) w.blocks ≡ some b
      → content_in w.disk w.disk_blocks id zeroed ≡ (
          if id == b.storage_block_num
          then some (zeros (block_size env))
          else content_in w.disk w.disk_blocks id w.blocks)
  zeroed_content id f =
      content_in-filled w.disk w.disk_blocks id b.storage_block_num _ b w.blocks k.serials f
        (λ a. refl) (zeros_full (block_size env) (one-le-pow env.block_size_bits 2 (omega arith)))

  loaded_content :
      (id : ℕ)
      → find_first (has_num b.storage_block_num) w.blocks ≡ some b
      → is_nil (w.disk b.storage_block_num) ≡ false
      → stored id (loaded_world env b w)
        ≡ (if id == b.storage_block_num then some (w.disk b.storage_block_num) else stored id w)
  unfolding set_block stored
  loaded_content id f z =
      content_in-filled w.disk w.disk_blocks id b.storage_block_num _
        (with_content (zeros (block_size env)) b) zeroed zeroed-IsCache.serials (zeroed_found f)
        (λ a. refl) z
      ∙ ground (arith, zeroed_content id f)

  loaded-KeepsContents :
      find_first (has_num b.storage_block_num) w.blocks ≡ some b
      → is_nil (w.disk b.storage_block_num) ≡ false
      → stored b.storage_block_num w ≡ some (w.disk b.storage_block_num)
      → KeepsContents w (loaded_world env b w)
  unfolding set_block
  loaded-KeepsContents f z s = record {
    faults = refl;
    saved = refl;
    tables = refl;
    same = λ id. loaded_content id f z ∙ same_at id (Bool-cases (id == b.storage_block_num));
    cache = IsCache-update_where w.next_serial _ _ _ (λ a. refl) (λ a. refl) zeroed-IsCache;
  }
    where
      same_at :
          (id : ℕ)
          → ((id == b.storage_block_num) ≡ true) ⊎ ((id == b.storage_block_num) ≡ false)
          → (if id == b.storage_block_num then some (w.disk b.storage_block_num) else stored id w)
            ≡ stored id w
      same_at id (inl there) = rw there (
          subst (λ x. some (w.disk b.storage_block_num) ≡ stored x w) (ground (arith, there))
            (sym s))
      same_at id (inr other) = rw other refl

populate-quieted :
    (env : Env) (b : StorageBlock) (w : World)
    → is_nil b.content ≡ true
    → ltb b.storage_block_num w.disk_blocks ≡ true
    → (b.storage_block_num == 0) ≡ false
    → populate env b (record w { faults = [] }) ≡ (
      ok (with_content (w.disk b.storage_block_num) b),
      loaded_world env b (record w { faults = [] }),
    )
unfolding populate ◌>>=◌
populate-quieted env b w e i z = rw (e, z, i) refl

populate-nil :
    (env : Env) (b : StorageBlock) (w : World)
    → w.faults ≡ []
    → is_nil b.content ≡ true
    → ltb b.storage_block_num w.disk_blocks ≡ true
    → (b.storage_block_num == 0) ≡ false
    → populate env b w ≡ (ok (with_content (w.disk b.storage_block_num) b), loaded_world env b w)
populate-nil env b w q e i z =
    subst
      (λ v.
        populate env b v ≡ (ok (with_content (w.disk b.storage_block_num) b), loaded_world env b v))
      (ground (arith, q)) (populate-quieted env b w e i z)

-- The data that _populateStorageBlock leaves, and the world after it.
pub record Populates (env : Env) (b : StorageBlock) (c : Bytes) (w : World) (p : StorageBlock)
    (v : World) : Type 0 where
  pub result : populate env b w ≡ (ok p, v)
  pub content : p.content ≡ c
  pub keeps : KeepsContents w v
  pub file : v.file ≡ w.file

pub populate_lem :
    (env : Env) (b : StorageBlock) (w : World) (c : Bytes)
    → w.faults ≡ []
    → IsCache w.next_serial w.blocks
    → find_first (has_num b.storage_block_num) w.blocks ≡ some b
    → (b.storage_block_num == 0) ≡ false
    → is_nil c ≡ false
    → stored b.storage_block_num w ≡ some c
    → (p : StorageBlock) × (v : World) × Populates env b c w p v
unfolding populate stored ◌>>=◌
populate_lem env b w c q k f z n s = elim (Bool-cases (is_nil b.content)) [
  | inl empty ↦
      let there : on_disk w.disk w.disk_blocks b.storage_block_num ≡ some c =
        ground (arith, s, f, empty) in
      let (inside, same) = on_disk_cases w.disk w.disk_blocks b.storage_block_num c there in
      (
        with_content (w.disk b.storage_block_num) b,
        loaded_world env b w,
        record {
          result = populate-nil env b w q empty inside z;
          content = same;
          keeps = loaded-KeepsContents env b w k f (rw same n) (s ∙ ap some (sym same));
          file = refl;
        },
      )
  | inr full ↦ (
    b,
    w,
    record {
      result = rw full refl;
      content = ground (arith, s, f, full);
      keeps = record { faults = refl; saved = refl; tables = refl; same = λ id. refl; cache = k };
      file = refl;
    },
  )
]
