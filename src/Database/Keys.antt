-- ===== src/Database/Keys.antt =====
-- The operations on `files` against the uniqueness of paths and keys.
use wwdedup.Database.Consistency.{IsFresh}
use wwdedup.Database.Files.{
  below_pattern, create, create_at, dir_empty, insert_file, last_byte, parent_depth, path_taken,
  pattern_after, remove,
}
use wwdedup.Database.Rename.{check_target, clear_target, move_below, move_file, rename, update_path}
use wwdedup.Database.Unique.{
  Rest, Guards-execute_update, Guards-get_by_path, Guards-query, IsUnique, Unique, has_row_id,
  inserted-IsUnique, paths-renamed, row_id, row_path,
}
use wwdedup.Effects.{ok, ◌>>=◌}
use wwdedup.Effects.Logic.{
  Ends-map, Ends, Guards, Guards-abort, Guards-bind, Guards-gets, Guards-if, Guards-pure,
  guard_rules,
}
use wwdedup.Prelude.{
  Bool, Distinct-select, Distinct-update_where, List, Option, [], ap, drop, false, length, neg,
  none, pos, refl, select, some, true, ℕ, ℤ, ◌++◌, ◌+ℤ◌, ◌-ℤ◌, ◌==◌, ◌∷◌, ◌≡◌,
}
use wwdedup.Sql.{get_by_path_row, has_path}
use wwdedup.State.{Env, FileRow, World, faulty, faulty-cases}
use wwdedup.Types.{FileInfo, FilePath}
use wwdedup.Types.Modes.{eexist, is_dir}

insert_step :
    {rest : Rest} (env : Env) (p : FilePath) (depth : ℤ) (mode : ℕ) (b : Bool)
    (clash : Option FileRow) (left : List Bool) (w : World)
    → IsFresh env
    → faulty w ≡ (ok b, record w { faults = left })
    → get_by_path_row p w.tables ≡ clash
    → Unique rest w
    → Ends (λ _. Unique rest) (Unique rest) (insert_file env p depth mode w)
unfolding insert_file ◌>>=◌
insert_step env p depth mode true clash left w fresh e c u =
    rw e (record { keys = u.keys; rest = u.rest })
insert_step env p depth mode false (some r) left w fresh e c u =
    rw (e, c) (record { keys = u.keys; rest = u.rest })
insert_step env p depth mode false none left w fresh e c u =
    rw (e, c)
      (record {
        keys = inserted-IsUnique env p depth mode w.now w.tables fresh c u.keys;
        rest = u.rest;
      })

Guards-insert_file :
    {rest : Rest} (env : Env) (p : FilePath) (depth : ℤ) (mode : ℕ)
    → IsFresh env
    → Guards (Unique rest) (insert_file env p depth mode)
Guards-insert_file env p depth mode fresh = record {
  at = λ w u.
      let (b, left, e) = faulty-cases w in
      insert_step env p depth mode b (get_by_path_row p w.tables) left w fresh e refl u;
}

Guards-parent_depth :
    {rest : Rest} (env : Env) (p : FilePath) → Guards (Unique rest) (parent_depth env p)
unfolding parent_depth
Guards-parent_depth env p = search (guard_rules, Guards-get_by_path) depth 12

Guards-create_at :
    {rest : Rest} (env : Env) (p : FilePath) (mode : ℕ) (place : Option ℤ × ℤ)
    → IsFresh env
    → Guards (Unique rest) (create_at env p mode place)
Guards-create_at env p mode (none, e) fresh = Guards-pure e
Guards-create_at env p mode (some depth, e) fresh = Guards-bind _ _ (Guards-get_by_path env p) λ fi.
    Guards-if (fi.st.ino == 0) _ _
      (Guards-bind _ _ (Guards-insert_file env p depth mode fresh) (λ _. Guards-pure (pos 0)))
      (Guards-pure (neg eexist))

pub Guards-create :
    {rest : Rest} (env : Env) (p : FilePath) (mode : ℕ)
    → IsFresh env
    → Guards (Unique rest) (create env p mode)
unfolding create
Guards-create env p mode fresh =
    Guards-bind _ _ (Guards-parent_depth env p) (λ place. Guards-create_at env p mode place fresh)

-- Where a new key is unused and paths and keys of the table files are unique before create, they
-- are after it, however create ends with a value or an exception and whichever calls fail.
pub create-IsUnique :
    (env : Env) (p : FilePath) (mode : ℕ) (w : World)
    → IsFresh env
    → IsUnique w.tables
    → Ends (λ _ v. IsUnique v.tables) (λ v. IsUnique v.tables) (create env p mode w)
create-IsUnique env p mode w fresh u =
    Ends-map (create env p mode w) (λ a v h. h.keys) (λ v h. h.keys)
      ((Guards-create env p mode fresh).at w (record { keys = u; rest = refl }))

update_step :
    {rest : Rest} (id : ℕ) (p : FilePath) (f : FileRow → FileRow) (b taken : Bool)
    (left : List Bool) (w : World)
    → ((r : FileRow) → (f r).id ≡ r.id)
    → faulty w ≡ (ok b, record w { faults = left })
    → path_taken id p w.tables.files ≡ taken
    → Unique rest w
    → Ends (λ _. Unique rest) (Unique rest) (update_path id p f w)
unfolding update_path ◌>>=◌
update_step id p f true taken left w h e c u = rw e (record { keys = u.keys; rest = u.rest })
update_step id p f false true left w h e c u = rw (e, c) (record { keys = u.keys; rest = u.rest })
update_step id p f false false left w h e c u =
    rw (e, c)
      (record {
        keys = record {
          ids =
              Distinct-update_where has_row_id row_id (has_row_id id)
                (λ r. record (f r) { path = p }) w.tables.files h
                (λ k a. ap (λ (x : ℕ). x == k) (h a)) u.keys.ids;
          paths =
              paths-renamed id p (λ r. record (f r) { path = p }) w.tables.files (λ r. refl) c
                u.keys.ids u.keys.paths;
        };
        rest = u.rest;
      })

Guards-update_path :
    {rest : Rest} (id : ℕ) (p : FilePath) (f : FileRow → FileRow)
    → ((r : FileRow) → (f r).id ≡ r.id)
    → Guards (Unique rest) (update_path id p f)
Guards-update_path id p f h = record {
  at = λ w u.
      let (b, left, e) = faulty-cases w in
      update_step id p f b (path_taken id p w.tables.files) left w h e refl u;
}

pub Guards-remove : {rest : Rest} (p : FilePath) → Guards (Unique rest) (remove p)
unfolding remove
Guards-remove p =
    Guards-bind _ _
      (Guards-execute_update _
        (λ t u. record {
          ids = Distinct-select has_row_id row_id _ t.files u.ids;
          paths = Distinct-select has_path row_path _ t.files u.paths;
        })
        (λ w. refl))
      (λ _. Guards-pure (pos 0))

Guards-move_below :
    {rest : Rest} (old new : FilePath) (diff : ℤ) (rs : List FileRow)
    → Guards (Unique rest) (move_below old new diff rs)
unfolding move_below
Guards-move_below old new diff [] = Guards-query _
Guards-move_below old new diff (r ∷ rs) = Guards-bind _ _ (Guards-query _) λ _.
    Guards-bind _ _
      (Guards-update_path r.id (new ++ drop (length old) r.path)
        (λ s. record s { depth = s.depth +ℤ diff }) (λ s. refl))
      λ _. Guards-move_below old new diff rs

Guards-pattern_after :
    {rest : Rest} (name : FilePath) (b : Option ℕ) → Guards (Unique rest) (pattern_after name b)
Guards-pattern_after name none = Guards-abort
Guards-pattern_after name (some b) = Guards-pure _

pub Guards-below_pattern :
    {rest : Rest} (name : FilePath) → Guards (Unique rest) (below_pattern name)
unfolding below_pattern
Guards-below_pattern name = Guards-pattern_after name (last_byte name)

pub Guards-dir_empty :
    {rest : Rest} (env : Env) (dir : FileInfo) → Guards (Unique rest) (dir_empty env dir)
unfolding dir_empty
Guards-dir_empty env dir = search (guard_rules, Guards-query, Guards-below_pattern) depth 12

Guards-check_target :
    {rest : Rest} (env : Env) (old new : FilePath) (a b : FileInfo)
    → Guards (Unique rest) (check_target env old new a b)
unfolding check_target
Guards-check_target env old new a b = search (guard_rules, Guards-dir_empty) depth 12

Guards-clear_target :
    {rest : Rest} (env : Env) (old new : FilePath) (a b : FileInfo)
    → Guards (Unique rest) (clear_target env old new a b)
unfolding clear_target
Guards-clear_target env old new a b =
    search (guard_rules, Guards-check_target, Guards-remove) depth 12

Guards-move_file :
    {rest : Rest} (env : Env) (old new : FilePath) (a b : FileInfo)
    → Guards (Unique rest) (move_file env old new a b)
unfolding move_file
Guards-move_file env old new a b =
    Guards-bind _ _
      (Guards-gets
        (λ w. select (λ (r : FileRow). env.like (old ++ b'/' ∷ b'%' ∷ []) r.path) w.tables.files))
      λ rows.
        Guards-bind _ _
          (Guards-if (is_dir a.st.mode) _ _
            (Guards-move_below old new (b.depth +ℤ pos 1 -ℤ a.depth) rows) (Guards-pure tt))
          λ _.
            Guards-bind _ _
              (Guards-update_path a.st.ino new (λ s. record s { depth = b.depth +ℤ pos 1 })
                (λ s. refl))
              λ _. Guards-pure (pos 0)

pub Guards-rename :
    {rest : Rest} (env : Env) (old new : FilePath) → Guards (Unique rest) (rename env old new)
unfolding rename
Guards-rename env old new =
    search (guard_rules, Guards-get_by_path, Guards-clear_target, Guards-move_file) depth 16

-- Where paths and keys of the table files are unique before rename, they are after it, however
-- rename ends with a value or an exception and whichever calls fail.
pub rename-IsUnique :
    (env : Env) (old new : FilePath) (w : World)
    → IsUnique w.tables
    → Ends (λ _ v. IsUnique v.tables) (λ v. IsUnique v.tables) (rename env old new w)
rename-IsUnique env old new w u =
    Ends-map (rename env old new w) (λ a v h. h.keys) (λ v h. h.keys)
      ((Guards-rename env old new).at w (record { keys = u; rest = refl }))
