-- ===== src/Cache/Contents/Gathered.antt =====
-- The old data that _writeBlockWrapper puts a chunk into.
use wwdedup.Cache.Contents.{IsCache, stored}
use wwdedup.Cache.Contents.Prepared.{KeepsContents, populate_lem}
use wwdedup.Cache.Storage.{block_size, is_nil, overlay, populate, zeros}
use wwdedup.Cache.Transfer.{old_bytes, or_zeros}
use wwdedup.Database.Pointers.{has_num}
use wwdedup.Database.Reload.{num_after}
use wwdedup.Effects.{Outcome, continue, ok, pure, ◌>>=◌}
use wwdedup.Prelude.{
  Bool-cases, Option, [], drop, eqb_ℤ, false, find_first, if◌then◌else◌, inl, inr, length, ltb,
  none, pos, refl, some, take, true, ℕ, ◌++◌, ◌+◌, ◌==◌, ◌∙◌, ◌∷◌, ◌≡◌,
}
use wwdedup.State.{Env, HashRow, World}
use wwdedup.Types.{BlockInfo, Bytes, StorageBlock}

-- What the chunk is put into: the old data, or zeros where it is a whole block.
abbrev pub base_bytes : Env → ℕ → Bytes → Bytes
base_bytes env len c = if ltb len (block_size env) then c else zeros (block_size env)

or_zeros_full : (n : ℕ) (c : Bytes) → is_nil c ≡ false → or_zeros n c ≡ c
unfolding is_nil
or_zeros_full n [] e = cc
or_zeros_full n (b ∷ bs) e = refl

append_full : (xs ys : Bytes) → is_nil ys ≡ false → is_nil (xs ++ ys) ≡ false
unfolding is_nil
append_full [] ys e = e
append_full (x ∷ xs) ys e = refl

prefix_full : (xs ys : Bytes) → is_nil xs ≡ false → is_nil (xs ++ ys) ≡ false
unfolding is_nil
prefix_full [] ys e = cc
prefix_full (x ∷ xs) ys e = refl

pub overlay_full :
    (start : ℕ) (chunk c : Bytes) → is_nil chunk ≡ false → is_nil (overlay start chunk c) ≡ false
unfolding overlay
overlay_full start chunk c e =
    append_full (take start c) _ (prefix_full chunk (drop (start + length chunk) c) e)

pub num_after_nonzero :
    (id : ℕ) (sb : Option StorageBlock) (row : Option HashRow) (fb : BlockInfo)
    → (id == 0) ≡ false
    → ((r : HashRow) → row ≡ some r → (r.id == 0) ≡ false)
    → (fb.storage_block_num == 0) ≡ false
    → (num_after id sb row fb == 0) ≡ false
num_after_nonzero id none none fb i r f = i
num_after_nonzero id none (some row) fb i r f = r row refl
num_after_nonzero id (some b) (some row) fb i r f = r row refl
num_after_nonzero id (some b) none fb i r f = elim (Bool-cases (eqb_ℤ b.use_count (pos 1))) [
  | inl one ↦ rw one f
  | inr many ↦ rw many i
]

-- The old data as they are put together.
pub record Gathers (env : Env) (len : ℕ) (c : Bytes) (b : StorageBlock) (w : World) (bytes : Bytes)
    (v : World) : Type 0 where
  pub result : old_bytes env len (some b) w ≡ (ok bytes, v)
  pub content : or_zeros (block_size env) bytes ≡ base_bytes env len c
  pub keeps : KeepsContents w v
  pub file : v.file ≡ w.file

abbrev content_after : Outcome StorageBlock × World → Outcome Bytes × World
content_after r = continue r.0 (λ p. pure p.content) r.1

old_bytes-part :
    (env : Env) (len : ℕ) (b : StorageBlock) (w : World)
    → (b.storage_block_num == 0) ≡ false
    → ltb len (block_size env) ≡ true
    → old_bytes env len (some b) w ≡ content_after (populate env b w)
unfolding old_bytes ◌>>=◌
old_bytes-part env len b w z part = rw (z, part) refl

then_content :
    (r : Outcome StorageBlock × World) (p : StorageBlock) (v : World)
    → r ≡ (ok p, v)
    → content_after r ≡ (ok p.content, v)
then_content r p v e = rw e refl

old_bytes-whole :
    (env : Env) (len : ℕ) (b : StorageBlock) (w : World)
    → ltb len (block_size env) ≡ false
    → old_bytes env len (some b) w ≡ (ok [], w)
unfolding old_bytes
old_bytes-whole env len b w whole = elim (Bool-cases (b.storage_block_num == 0)) [
  | inl zero_num ↦ rw zero_num refl
  | inr other ↦ rw (other, whole) refl
]

pub old_bytes_lem :
    (env : Env) (len : ℕ) (b : StorageBlock) (w : World) (c : Bytes)
    → w.faults ≡ []
    → IsCache w.next_serial w.blocks
    → find_first (has_num b.storage_block_num) w.blocks ≡ some b
    → (b.storage_block_num == 0) ≡ false
    → is_nil c ≡ false
    → stored b.storage_block_num w ≡ some c
    → (bytes : Bytes) × (v : World) × Gathers env len c b w bytes v
old_bytes_lem env len b w c q k f z n s = elim (Bool-cases (ltb len (block_size env))) [
  | inl part ↦
      let (p, v, out) = populate_lem env b w c q k f z n s in
      (
        p.content,
        v,
        record {
          result =
              old_bytes-part env len b w z part ∙ then_content (populate env b w) p v out.result;
          content = rw (part, out.content) (or_zeros_full (block_size env) c n);
          keeps = out.keeps;
          file = out.file;
        },
      )
  | inr whole ↦ (
    [],
    w,
    record {
      result = old_bytes-whole env len b w whole;
      content = rw whole refl;
      keeps = record { faults = refl; saved = refl; tables = refl; same = λ id. refl; cache = k };
      file = refl;
    },
  )
]
