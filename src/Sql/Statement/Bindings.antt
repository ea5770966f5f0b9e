-- ===== src/Sql/Statement/Bindings.antt =====
-- Which values a prepared statement runs with.
use wwdedup.Effects.{Exec, ok}
use wwdedup.Prelude.{ap, false, refl, true, ℕ, ℤ, ◌∙◌, ◌≡◌}
use wwdedup.Sql.Sqlite.{
  Binds, IsDocumented, Sqlite, Value, blob, integer, null, real, rebound, text,
}
use wwdedup.Sql.Statement.{
  Statement, bind_blob, bind_double, bind_int, bind_int64, bind_null, bind_string,
}
use wwdedup.Types.{Bytes}

-- The six functions that bind a parameter.
pub data Binding (Double : Type 0) : Type 0 where
  by_int : ℕ → ℤ → Binding Double
  by_int64 : ℕ → ℤ → Binding Double
  by_double : ℕ → Double → Binding Double
  by_string : ℕ → Bytes → Binding Double
  by_blob : ℕ → Bytes → Binding Double
  by_null : ℕ → Binding Double

abbrev pub index_of : {Double : Type 0} → Binding Double → ℕ
index_of (by_int i v) = i
index_of (by_int64 i v) = i
index_of (by_double i v) = i
index_of (by_string i v) = i
index_of (by_blob i v) = i
index_of (by_null i) = i

abbrev pub value_of : {Double : Type 0} → Binding Double → Value Double
value_of (by_int i v) = integer v
value_of (by_int64 i v) = integer v
value_of (by_double i v) = real v
value_of (by_string i v) = text v
value_of (by_blob i v) = blob v
value_of (by_null i) = null

module _ (q : Sqlite) (d : IsDocumented q) where
  unfoldable pub bind_value : Binding q.Double → Exec (Statement q) (Unit {0})
  unfolding bind_int bind_int64 bind_double bind_string bind_blob bind_null
  bind_value (by_int i v) = bind_int q i v
  bind_value (by_int64 i v) = bind_int64 q i v
  bind_value (by_double i v) = bind_double q i v
  bind_value (by_string i v) = bind_string q i v
  bind_value (by_blob i v) = bind_blob q i v
  bind_value (by_null i) = bind_null q i

  -- The statement v has the bindings of s.
  abbrev Keeps : Statement q → Statement q → Type 0
  Keeps s v = (j : ℕ) → d.bound v.handle j ≡ d.bound s.handle j

  -- v has the bindings of s, and whatever is bound to it changes nothing.
  pub record IsStale (s v : Statement q) : Type 0 where
    pub kept : (j : ℕ) → d.bound v.handle j ≡ d.bound s.handle j
    pub refused :
        (b : Binding q.Double) → d.parameter (index_of b) ≡ true → bind_value b v ≡ (ok tt, v)

  -- v has the bindings of s, and what is bound to it takes effect.
  pub record IsReady (s v : Statement q) : Type 0 where
    pub kept : (j : ℕ) → d.bound v.handle j ≡ d.bound s.handle j
    pub free : d.in_use v.handle ≡ false
    pub taken :
        (b : Binding q.Double)
        → d.parameter (index_of b) ≡ true
        → (j : ℕ)
        → d.bound (bind_value b v).1.handle j
          ≡ rebound (index_of b) (value_of b) (d.bound v.handle) j

  -- What a binding does to the handle.
  abbrev bind_handle : Binding q.Double → q.Handle → q.Handle
  bind_handle (by_int i v) = q.bind_int i v
  bind_handle (by_int64 i v) = q.bind_int64 i v
  bind_handle (by_double i v) = q.bind_double i v
  bind_handle (by_string i v) = q.bind_text i v
  bind_handle (by_blob i v) = q.bind_blob i v
  bind_handle (by_null i) = q.bind_null i

  binds :
      (b : Binding q.Double)
      → d.parameter (index_of b) ≡ true
      → Binds d.bound d.in_use (bind_handle b) (index_of b) (value_of b)
  binds (by_int i v) p = d.binds_int i v p
  binds (by_int64 i v) p = d.binds_int64 i v p
  binds (by_double i v) p = d.binds_double i v p
  binds (by_string i v) p = d.binds_text i v p
  binds (by_blob i v) p = d.binds_blob i v p
  binds (by_null i) p = d.binds_null i p

  bind_value-handle :
      (b : Binding q.Double) (v : Statement q)
      → bind_value b v ≡ (ok tt, record v { handle = bind_handle b v.handle })
  unfolding bind_value
  bind_value-handle (by_int i x) v = refl
  bind_value-handle (by_int64 i x) v = refl
  bind_value-handle (by_double i x) v = refl
  bind_value-handle (by_string i x) v = refl
  bind_value-handle (by_blob i x) v = refl
  bind_value-handle (by_null i) v = refl

  pub used-IsStale : (s v : Statement q) → d.in_use v.handle ≡ true → Keeps s v → IsStale s v
  used-IsStale s v u k = record {
    kept = k;
    refused = λ b p.
        bind_value-handle b v
        ∙ ap (λ (h : q.Handle). (ok tt, record v { handle = h })) ((binds b p).misused v.handle u);
  }

  pub free-IsReady : (s v : Statement q) → d.in_use v.handle ≡ false → Keeps s v → IsReady s v
  free-IsReady s v u k = record {
    kept = k;
    free = u;
    taken = λ b p j. rw (bind_value-handle b v) ((binds b p).ready v.handle u j);
  }
