-- ===== src/Cache/Contents/Blocks.antt =====
-- The content of storage blocks after changes of the cache.
use wwdedup.Cache.Access.{insert_block, rewritten}
use wwdedup.Cache.Contents.{IsCache, content_in, held, is_new, num_of_block, serial_of}
use wwdedup.Cache.Storage.{is_nil}
use wwdedup.Database.Pointers.{has_num, has_serial}
use wwdedup.Prelude.{
  find_first-update_where, ap, Distinct-update_where, ==_refl, Bool, Bool-cases, Distinct, List,
  Option, [], arith, change_found, false, find_first, find_first-key, find_first_holds,
  if◌then◌else◌, inl, inr, ltb, none, not, refl, some, subst, suc, sym, true, update_where, ℕ, ◌==◌,
  ◌∙◌, ◌∷◌, ◌≡◌,
}
use wwdedup.Types.{Bytes, StorageBlock, storage_block}

module _ (p : StorageBlock → Bool) (b : StorageBlock) where
  pub find_first-insert_other :
      (bs : List StorageBlock) → p b ≡ false → find_first p (insert_block b bs) ≡ find_first p bs
  unfolding insert_block
  find_first-insert_other [] e = ground (arith, e)
  find_first-insert_other (c ∷ bs) e = ground (arith, e, find_first-insert_other bs e)

  pub find_first-insert_new :
      (bs : List StorageBlock)
      → p b ≡ true
      → find_first p bs ≡ none
      → find_first p (insert_block b bs) ≡ some b
  unfolding insert_block
  find_first-insert_new [] e n = ground (arith, e)
  find_first-insert_new (c ∷ bs) e n = ground (arith, e, n, find_first-insert_new bs e)

module _ (p : ℕ → StorageBlock → Bool) (key : StorageBlock → ℕ) (b : StorageBlock) where
  pub Distinct-insert_block :
      (bs : List StorageBlock)
      → ((a : StorageBlock) → p (key a) b ≡ p (key b) a)
      → find_first (p (key b)) bs ≡ none
      → Distinct p key bs
      → Distinct p key (insert_block b bs)
  unfolding insert_block
  Distinct-insert_block [] s n d = (refl, tt)
  Distinct-insert_block (c ∷ bs) s n d =
      elim (Bool-cases (ltb b.storage_block_num c.storage_block_num)) [
        | inl before ↦ rw before (n, d)
        | inr after ↦ rw after (
          find_first-insert_other (p (key c)) b bs (ground (arith, s c, n)) ∙ d.0,
          Distinct-insert_block bs s (ground (arith, n)) d.1,
        )
      ]

abbrev pub Same : (StorageBlock → StorageBlock) → Type 0
Same f =
    (b : StorageBlock)
    → ((f b).storage_block_num ≡ b.storage_block_num)
      × (((f b).content ≡ b.content) × ((f b).serial ≡ b.serial))

-- A change that leaves numbers and contents.
pub content_in-update_where :
    (disk : ℕ → Bytes) (reach id : ℕ) (q : StorageBlock → Bool) (f : StorageBlock → StorageBlock)
    (bs : List StorageBlock)
    → Same f
    → content_in disk reach id (update_where q f bs) ≡ content_in disk reach id bs
content_in-update_where disk reach id q f bs k =
    rw (find_first-update_where (has_num id) q f bs (λ a. ap (λ (x : ℕ). x == id) ((k a).0)))
      (changed (find_first (has_num id) bs))
  where
    changed :
        (o : Option StorageBlock) → held disk reach id (change_found q f o) ≡ held disk reach id o
    changed none = refl
    changed (some b) = ground (arith, (k b).1.0)

-- The object of number `num` gets a content: the others keep theirs.
pub content_in-filled :
    (disk : ℕ → Bytes) (reach id num : ℕ) (f : StorageBlock → StorageBlock) (item : StorageBlock)
    (bs : List StorageBlock)
    → Distinct has_serial serial_of bs
    → find_first (has_num num) bs ≡ some item
    → ((b : StorageBlock) → (f b).storage_block_num ≡ b.storage_block_num)
    → is_nil (f item).content ≡ false
    → content_in disk reach id (update_where (has_serial item.serial) f bs)
      ≡ (if id == num then some (f item).content else content_in disk reach id bs)
content_in-filled disk reach id num f item bs d e k z =
    rw
      (find_first-update_where (has_num id) (has_serial item.serial) f bs
        (λ a. ap (λ (x : ℕ). x == id) (k a)))
      (changed (find_first (has_num id) bs) refl)
  where
    by_serial :
        (i : ℕ) (a : StorageBlock)
        → find_first (has_num i) bs ≡ some a
        → find_first (has_serial a.serial) bs ≡ some a
    by_serial i a g =
        find_first-key has_serial serial_of (has_num i) bs a (λ c. ground arith) (==_refl a.serial)
          d g

    changed :
        (o : Option StorageBlock)
        → find_first (has_num id) bs ≡ o
        → held disk reach id (change_found (has_serial item.serial) f o)
          ≡ (if id == num then some (f item).content else held disk reach id o)
    changed none h = ground (arith, e, h, ap (λ (x : ℕ). find_first (has_num x) bs))
    changed (some b) h = elim (Bool-cases (id == num)) [
      | inl same ↦
          let b_item : b ≡ item = ground (arith, e, h, same) in
          rw (same, b_item) (ground (arith, z))
      | inr other ↦
          let apart : (b.serial == item.serial) ≡ false = ground (
            arith,
            other,
            h,
            e,
            by_serial id b h,
            by_serial num item e,
            find_first_holds (has_num id) bs b h,
            find_first_holds (has_num num) bs item e,
            ap (λ (x : ℕ). find_first (has_serial x) bs),
          ) in
          rw (other, apart) refl
    ]

-- A new object of a number that the cache does not have.
pub content_in-inserted :
    (disk : ℕ → Bytes) (reach id : ℕ) (b : StorageBlock) (bs : List StorageBlock)
    → find_first (has_num b.storage_block_num) bs ≡ none
    → content_in disk reach id (insert_block b bs) ≡ (
        if id == b.storage_block_num
        then held disk reach id (some b)
        else content_in disk reach id bs)
content_in-inserted disk reach id b bs n = elim (Bool-cases (id == b.storage_block_num)) [
  | inl same ↦ rw same (
      ap (held disk reach id) (
        find_first-insert_new (has_num id) b bs (ground (arith, same))
          (subst (λ x. find_first (has_num x) bs ≡ none) (ground (arith, same)) n)))
  | inr other ↦
      rw other (
        ap (held disk reach id) (find_first-insert_other (has_num id) b bs (ground (arith, other))))
]

-- What _blocks->ensure of _writeBlock leaves.
abbrev pub filled_blocks :
    ℕ → Bytes → Bytes → ℕ → ℕ → Option StorageBlock → List StorageBlock → List StorageBlock
filled_blocks num c h now serial (some item) bs =
    update_where (has_serial item.serial) (rewritten c h) bs
filled_blocks num c h now serial none bs =
    insert_block (rewritten c h (storage_block serial now num)) bs

abbrev pub next_after : ℕ → Option StorageBlock → ℕ
next_after upcoming (some item) = upcoming
next_after upcoming none = suc upcoming

pub content_in-filled_blocks :
    (disk : ℕ → Bytes) (reach id num : ℕ) (c h : Bytes) (now serial : ℕ) (o : Option StorageBlock)
    (bs : List StorageBlock)
    → Distinct has_serial serial_of bs
    → find_first (has_num num) bs ≡ o
    → is_nil c ≡ false
    → content_in disk reach id (filled_blocks num c h now serial o bs)
      ≡ (if id == num then some c else content_in disk reach id bs)
content_in-filled_blocks disk reach id num c h now serial (some item) bs d e z =
    content_in-filled disk reach id num (rewritten c h) item bs d e (λ b. refl) z
content_in-filled_blocks disk reach id num c h now serial none bs d e z =
    content_in-inserted disk reach id (rewritten c h (storage_block serial now num)) bs e
    ∙ ground (arith, z)

pub IsCache-update_where :
    (upcoming : ℕ) (q : StorageBlock → Bool) (f : StorageBlock → StorageBlock)
    (bs : List StorageBlock)
    → ((b : StorageBlock) → (f b).storage_block_num ≡ b.storage_block_num)
    → ((b : StorageBlock) → (f b).serial ≡ b.serial)
    → IsCache upcoming bs
    → IsCache upcoming (update_where q f bs)
IsCache-update_where upcoming q f bs kn ks c = record {
  nums =
      Distinct-update_where has_num num_of_block q f bs kn (λ k a. ap (λ (x : ℕ). x == k) (kn a))
        c.nums;
  serials =
      Distinct-update_where has_serial serial_of q f bs ks (λ k a. ap (λ (x : ℕ). x == k) (ks a))
        c.serials;
  below =
      find_first-update_where (is_new upcoming) q f bs
        (λ a. ap (λ (x : ℕ). not (ltb x upcoming)) (ks a))
      ∙ ap (change_found q f) c.below;
}

pub is_new-later :
    (upcoming : ℕ) (bs : List StorageBlock)
    → find_first (is_new upcoming) bs ≡ none
    → (find_first (is_new (suc upcoming)) bs ≡ none) × (find_first (has_serial upcoming) bs ≡ none)
is_new-later upcoming [] e = (refl, refl)
is_new-later upcoming (b ∷ bs) e =
    let rest = is_new-later upcoming bs (ground (arith, e)) in
    (ground (arith, e, rest.0), ground (arith, e, rest.1))

pub IsCache-insert_block :
    (upcoming : ℕ) (b : StorageBlock) (bs : List StorageBlock)
    → b.serial ≡ upcoming
    → find_first (has_num b.storage_block_num) bs ≡ none
    → IsCache upcoming bs
    → IsCache (suc upcoming) (insert_block b bs)
IsCache-insert_block upcoming b bs s n c =
    let (later, unused) = is_new-later upcoming bs c.below in
    record {
      nums = Distinct-insert_block has_num num_of_block b bs (λ a. ground arith) n c.nums;
      serials =
          Distinct-insert_block has_serial serial_of b bs (λ a. ground arith)
            (subst (λ x. find_first (has_serial x) bs ≡ none) (sym s) unused) c.serials;
      below = find_first-insert_other (is_new (suc upcoming)) b bs (ground (arith, s)) ∙ later;
    }

pub IsCache-filled_blocks :
    (upcoming num : ℕ) (c h : Bytes) (now : ℕ) (o : Option StorageBlock) (bs : List StorageBlock)
    → find_first (has_num num) bs ≡ o
    → IsCache upcoming bs
    → IsCache (next_after upcoming o) (filled_blocks num c h now upcoming o bs)
IsCache-filled_blocks upcoming num c h now (some item) bs e k =
    IsCache-update_where upcoming _ (rewritten c h) bs (λ b. refl) (λ b. refl) k
IsCache-filled_blocks upcoming num c h now none bs e k = IsCache-insert_block upcoming _ bs refl e k
