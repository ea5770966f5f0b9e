-- ===== src/Cache/Contents/Frame.antt =====
-- _writeBlock against what is stored for the other file blocks.
use wwdedup.Cache.Access.{write_block}
use wwdedup.Cache.Contents.{IsStored, held, id_in, id_of, stored}
use wwdedup.Cache.Contents.Flushed.{after}
use wwdedup.Cache.Contents.Others.{
  IsOther, id_moved, id_present, not_this, place_missing, place_moved,
}
use wwdedup.Cache.Contents.Places.{
  content_at, content_at-none, content_at-row, found-named, place-row,
}
use wwdedup.Cache.Contents.Replaced.{id_of-other}
use wwdedup.Cache.Contents.Writes.{
  filled, filled_world, moved_tables, old_row, recounted, replaced_world, stored-recounted,
  stored_filled, write_block-absent, write_block-present, written_hash,
}
use wwdedup.Cache.Contents.Written.{none_there, not_written, write_block-IsStored}
use wwdedup.Cache.Storage.{is_nil}
use wwdedup.Database.Consistency.{InStep, IsFresh, fresh_id}
use wwdedup.Database.Effect.{IsQuiet, moved, new_key}
use wwdedup.Database.Pointers.{find_info, lock_weak}
use wwdedup.Database.Reload.{HasId-moved, SameNum, find_first-moved}
use wwdedup.Prelude.{
  ap, subst, Bool, Bool-cases, Option, Option-cases, arith, false, find_first, if◌then◌else◌, inl,
  inr, none, refl, some, sym, ℕ, ◌&&◌, ◌==◌, ◌∙◌, ◌≡◌,
}
use wwdedup.Sql.{at_offset, select_block_hash}
use wwdedup.Sql.Counts.{IsConsistent}
use wwdedup.State.{Env, FileBlockRow, HashRow, Tables, World}
use wwdedup.Types.{BlockInfo, Bytes}

module _ (env : Env) (n : ℕ) (c : Bytes) (w : World) (fb : BlockInfo) (q : IsQuiet w)
    (cons : IsConsistent w.tables) where
  moved_tables_as :
      (row : Option HashRow)
      → old_row env n c w fb ≡ row
      → (replaced_world env n c w fb).tables
        ≡ moved w.file.st.ino n
            (written_hash env n c w fb)
            (new_key env w.tables)
            (lock_weak n w)
            row
            w.tables
  moved_tables_as row e =
      moved_tables env n c w fb q
      ∙ ap
          (λ x.
            moved w.file.st.ino n (written_hash env n c w fb) (new_key env w.tables) (lock_weak n w)
              x w.tables)
          e

  module _ (p : FileBlockRow → Bool) (r : FileBlockRow) (id : ℕ)
      (o : IsOther w.file.st.ino n p w.tables r id) where
    abbrev Keeps : World → Type 0
    Keeps after =
        (find_first p after.tables.file_blocks ≡ some r)
        × (id_of r.hash after.tables.block_hashes ≡ some id)
        × (stored id after ≡ stored id w)

    kept_present :
        (row : HashRow) → old_row env n c w fb ≡ some row → Keeps (recounted env n c w fb)
    kept_present row e =
        let t = moved_tables_as (some row) e in
        (
          subst (λ (x : Tables). find_first p x.file_blocks ≡ some r) (sym t)
              (place_moved w.file.st.ino n p w.tables r id o (written_hash env n c w fb)
                (new_key env w.tables) (lock_weak n w) (some row)),
          subst (λ (x : Tables). id_of r.hash x.block_hashes ≡ some id) (sym t)
              (id_present w.file.st.ino n p w.tables r id o (written_hash env n c w fb)
                (new_key env w.tables) (lock_weak n w) row),
          stored-recounted env n c w fb q id,
        )

    kept_absent :
        old_row env n c w fb ≡ none
        → IsFresh env
        → InStep w.file.st.ino n w.tables (lock_weak n w)
        → SameNum (lock_weak n w) fb
        → find_info n w ≡ some fb
        → is_nil c ≡ false
        → IsStored env w
        → Keeps (filled_world env n c w fb).1
    kept_absent e fresh s same f z k =
        let t = (filled env n c w fb q f k).tables ∙ moved_tables_as none e in
        let named =
          id_moved w.file.st.ino n p w.tables r id o (written_hash env n c w fb)
            (new_key env w.tables) (lock_weak n w) cons s (none_there env n c w fb e) in
        let apart =
          (id_of-other r.hash (written_hash env n c w fb) w.file.st.ino n (new_key env w.tables) id
            (lock_weak n w) fb w.tables cons (fresh_id env w.tables fresh)
            (none_there env n c w fb e) same
            (not_this w.file.st.ino n p w.tables r id o (written_hash env n c w fb)
              (none_there env n c w fb e))
            named).1 in
        (
          subst (λ (x : Tables). find_first p x.file_blocks ≡ some r) (sym t)
              (place_moved w.file.st.ino n p w.tables r id o (written_hash env n c w fb)
                (new_key env w.tables) (lock_weak n w) none),
          subst (λ (x : Tables). id_of r.hash x.block_hashes ≡ some id) (sym t) named,
          stored_filled env n c w fb q f k id z
              ∙ ap (λ (b : Bool). if b then some c else stored id w)
                  (not_written env n c w fb id e apart),
        )

    write_block-Keeps :
        (row : Option HashRow)
        → old_row env n c w fb ≡ row
        → IsFresh env
        → InStep w.file.st.ino n w.tables (lock_weak n w)
        → SameNum (lock_weak n w) fb
        → find_info n w ≡ some fb
        → is_nil c ≡ false
        → IsStored env w
        → Keeps (write_block env n c w).1
    write_block-Keeps (some row) e fresh s same f z k =
        rw (write_block-present env n c w fb row e q) (kept_present row e)
    write_block-Keeps none e fresh s same f z k =
        rw (write_block-absent env n c w fb e q) (kept_absent e fresh s same f z k)

  module _ (s : InStep w.file.st.ino n w.tables (lock_weak n w)) (same : SameNum (lock_weak n w) fb)
      (f : find_info n w ≡ some fb) (z : is_nil c ≡ false) (k : IsStored env w) where
    written_tables :
        (row : Option HashRow)
        → old_row env n c w fb ≡ row
        → (write_block env n c w).1.tables
          ≡ moved w.file.st.ino n
              (written_hash env n c w fb)
              (new_key env w.tables)
              (lock_weak n w)
              row
              w.tables
    written_tables (some row) e =
        rw (write_block-present env n c w fb row e q) (moved_tables_as (some row) e)
    written_tables none e =
        rw (write_block-absent env n c w fb e q)
          ((filled env n c w fb q f k).tables ∙ moved_tables_as none e)

    kept_at :
        (i m : ℕ)
        → IsFresh env
        → ((i == w.file.st.ino) && (m == n)) ≡ false
        → content_at i m (write_block env n c w).1 ≡ content_at i m w
    unfolding at_offset
    kept_at i m fresh other =
        elim (Option-cases (find_first (at_offset i m) w.tables.file_blocks)) [
          | inl e ↦
              content_at-none i m (write_block env n c w).1 (
                ap (λ (t : Tables). find_first (at_offset i m) t.file_blocks)
                  (written_tables (old_row env n c w fb) refl)
                ∙ place_missing w.file.st.ino n (written_hash env n c w fb) (at_offset i m) w.tables
                    e (ground (arith, other)) (new_key env w.tables) (lock_weak n w)
                    (old_row env n c w fb))
              ∙ sym (content_at-none i m w e)
          | inr (r, e) ↦
              let (id, named) = found-named (at_offset i m) w.tables r cons e in
              let (file, block) = place-row i m w.tables r e in
              let (there, still, held) =
                write_block-Keeps (at_offset i m) r id
                  (record { there = e; apart = ground (arith, file, block, other); named = named })
                  (old_row env n c w fb) refl fresh s same f z k in
              content_at-row i m (write_block env n c w).1 r id there still
              ∙ held
              ∙ sym (content_at-row i m w r id e named)
        ]

    written_at :
        IsFresh env
        → ((c' : Bytes) → env.murmur c' ≡ env.murmur c → c' ≡ c)
        → content_at w.file.st.ino n (write_block env n c w).1 ≡ some c
    unfolding select_block_hash
    written_at fresh alone =
        let t = written_tables (old_row env n c w fb) refl in
        let (row, found, num) =
          HasId-moved w.file.st.ino n (written_hash env n c w fb) (new_key env w.tables) w.tables
            (lock_weak n w) (old_row env n c w fb) fb cons s same refl in
        let named : id_of (written_hash env n c w fb) (write_block env n c w).1.tables.block_hashes
            ≡ some row.id =
          subst (λ (x : Tables). id_of (written_hash env n c w fb) x.block_hashes ≡ some row.id)
            (sym t) (ap id_in found) in
        let (c', held, equal) =
          (write_block-IsStored env n c w fb q fresh cons s same f z k).1.holds _ row.id named in
        content_at-row w.file.st.ino n (write_block env n c w).1
          (record { file_id = w.file.st.ino; offset = n; hash = written_hash env n c w fb }) row.id
          (ap (λ (x : Tables). find_first (at_offset w.file.st.ino n) x.file_blocks) t
            ∙ find_first-moved w.file.st.ino n (written_hash env n c w fb) (new_key env w.tables)
                w.tables (lock_weak n w) (old_row env n c w fb))
          named
        ∙ held
        ∙ ap some (alone c' equal)

    -- Where no call fails, no transaction is open, SQLite gives a new row an unused key, the
    -- tables are consistent, the old storage block as the cache has it agrees with them and with
    -- the block_info of the file block, the content is not empty and the hash function gives no
    -- other content its hash, each hash of the tables has a storage block that holds a content of
    -- that hash, each number is once in the cache and each object has its own serial: _writeBlock
    -- acts on what is stored for the file blocks of all files as an update of a map, the written
    -- file block then has the content, and each other file block of any file, also one that shared
    -- its storage block, has what it had.
    pub write_block-content_at :
        (i m : ℕ)
        → IsFresh env
        → ((c' : Bytes) → env.murmur c' ≡ env.murmur c → c' ≡ c)
        → content_at i m (write_block env n c w).1
          ≡ (if (i == w.file.st.ino) && (m == n) then some c else content_at i m w)
    write_block-content_at i m fresh alone = elim (Bool-cases ((i == w.file.st.ino) && (m == n))) [
      | inr other ↦ rw other (kept_at i m fresh other)
      | inl this ↦ rw this (
          subst (λ ((a, b) : ℕ × ℕ). content_at a b (write_block env n c w).1 ≡ some c)
            (ground (arith, this)) (written_at fresh alone))
    ]
