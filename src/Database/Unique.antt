-- ===== src/Database/Unique.antt =====
-- What it means that paths and keys of `files` are unique, and the statements that change them.
use wwdedup.Database.Consistency.{IsFresh}
use wwdedup.Database.Files.{get_by_path, info_of, new_row, path_taken}
use wwdedup.Effects.Logic.{Guards, Guards-bind, Guards-gets, Guards-if, Guards-modify, Guards-throw}
use wwdedup.Prelude.{
  Option, ◌∙◌, Bool, Bool-cases, Distinct, Distinct-append, List, [], arith, eqb, eqb_iff, false,
  find_first, inl, inr, map, none, refl, update_where, update_where-none, ℕ, ℤ, ◌++◌, ◌==◌, ◌∷◌,
  ◌≡◌,
}
use wwdedup.Sql.{execute_update, get_by_path_row, has_path, query}
use wwdedup.Sql.Counts.{eqb_sym}
use wwdedup.State.{HashRow, FileBlockRow, Env, FileRow, Tables, World, faulty, faulty-cases}
use wwdedup.Types.{FilePath}

abbrev pub row_id : FileRow → ℕ
row_id r = r.id

abbrev pub has_row_id : ℕ → FileRow → Bool
has_row_id id r = r.id == id

abbrev pub row_path : FileRow → FilePath
row_path r = r.path

-- No two rows have one key or one path.
pub record IsUnique (t : Tables) : Type 0 where
  pub ids : Distinct has_row_id row_id t.files
  pub paths : Distinct has_path row_path t.files

-- What the operations on `files` leave alone: the other tables, and an open transaction's start.
abbrev pub Rest : Type 0
Rest = List FileBlockRow × (List HashRow × Option Tables)

abbrev pub rest_of : World → Rest
rest_of w = (w.tables.file_blocks, (w.tables.block_hashes, w.saved))

-- Keys and paths of `files` are unique, and the rest is this.
pub record Unique (r : Rest) (w : World) : Type 0 where
  pub keys : IsUnique w.tables
  pub rest : rest_of w ≡ r

not_taken :
    (id : ℕ) (p : FilePath) (rs : List FileRow)
    → path_taken id p rs ≡ false
    → find_first (has_row_id id) rs ≡ none
    → find_first (has_path p) rs ≡ none
unfolding path_taken has_path
not_taken id p [] t e = refl
not_taken id p (r ∷ rs) t e = ground (arith, not_taken id p rs)

row_ids-map :
    (id : ℕ) (rs : List FileRow)
    → find_first (λ k. k == id) (map row_id rs) ≡ none
    → find_first (has_row_id id) rs ≡ none
row_ids-map id [] h = refl
row_ids-map id (r ∷ rs) h = ground (arith, row_ids-map id rs)

has_path_sym : (a b : FileRow) → has_path a.path b ≡ has_path b.path a
unfolding has_path
has_path_sym a b = eqb_sym b.path a.path

-- Another path is found no more than before.
others_stay :
    (k p : FilePath) (q : FileRow → Bool) (f : FileRow → FileRow) (rs : List FileRow)
    → ((r : FileRow) → (f r).path ≡ p)
    → eqb p k ≡ false
    → find_first (has_path k) rs ≡ none
    → find_first (has_path k) (update_where q f rs) ≡ none
unfolding has_path
others_stay k p q f [] h n e = refl
others_stay k p q f (r ∷ rs) h n e = ground (arith, h r, others_stay k p q f rs h n)

pub paths-renamed :
    (id : ℕ) (p : FilePath) (f : FileRow → FileRow) (rs : List FileRow)
    → ((r : FileRow) → (f r).path ≡ p)
    → path_taken id p rs ≡ false
    → Distinct has_row_id row_id rs
    → Distinct has_path row_path rs
    → Distinct has_path row_path (update_where (has_row_id id) f rs)
unfolding path_taken has_path
paths-renamed id p f [] h t di dp = tt
paths-renamed id p f (r ∷ rs) h t di dp = elim (Bool-cases (r.id == id)) [
  | inl hit ↦ ground (
    arith,
    hit,
    h r,
    update_where-none (has_row_id r.id) f rs di.0,
    not_taken id p rs,
    di.0,
    dp.1,
  )
  | inr miss ↦ ground (
    arith,
    miss,
    others_stay r.path p (has_row_id id) f rs h,
    paths-renamed id p f rs h,
    di.1,
    dp.0,
    dp.1,
    eqb_iff r.path p,
    eqb_iff p r.path,
  )
]

-- Calls that do not change the tables, or may fail before they do.
module _ {r : Rest} where
  pub Guards-faulty : Guards (Unique r) faulty
  Guards-faulty = record {
    at = λ w h. let (b, left, e) = faulty-cases w in rw e (record { keys = h.keys; rest = h.rest });
  }

  pub Guards-query : {A : Type 0} (f : Tables → A) → Guards (Unique r) (query f)
  unfolding query
  Guards-query f =
      Guards-bind faulty _ Guards-faulty
        (λ b. Guards-if b _ _ Guards-throw (Guards-gets (λ (w : World). f w.tables)))

  -- A statement that changes `files` alone.
  pub Guards-execute_update :
      (f : Tables → Tables)
      → ((t : Tables) → IsUnique t → IsUnique (f t))
      → ((w : World) → rest_of (record w { tables = f w.tables }) ≡ rest_of w)
      → Guards (Unique r) (execute_update f)
  unfolding execute_update
  Guards-execute_update f k same = Guards-bind faulty _ Guards-faulty (λ b.
      Guards-if b _ _ Guards-throw
        (Guards-modify _ (λ w h. record { keys = k w.tables h.keys; rest = same w ∙ h.rest })))

module _ (env : Env) where
  pub Guards-get_by_path : {r : Rest} (p : FilePath) → Guards (Unique r) (get_by_path env p)
  unfolding get_by_path
  Guards-get_by_path p = Guards-query (λ t. info_of env p (get_by_path_row p t))

  -- An insertion under a path that no row has.
  pub inserted-IsUnique :
      (p : FilePath) (depth : ℤ) (mode now : ℕ) (t : Tables)
      → IsFresh env
      → get_by_path_row p t ≡ none
      → IsUnique t
      → IsUnique (record t {
        files = t.files ++ new_row (env.new_rowid (map row_id t.files)) p depth mode now ∷ [];
      })
  unfolding get_by_path_row
  inserted-IsUnique p depth mode now t fresh m u = record {
    ids =
        Distinct-append has_row_id row_id t.files _ (λ a. ground arith)
          (row_ids-map _ t.files (fresh (map row_id t.files))) u.ids;
    paths = Distinct-append has_path row_path t.files _ (λ a. has_path_sym a _) m u.paths;
  }
