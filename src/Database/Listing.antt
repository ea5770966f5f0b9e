-- ===== src/Database/Listing.antt =====
-- dirEmpty and readdir against each other, where no call fails.
use wwdedup.Database.Files.{dir_empty, info_of, is_child, last_byte, readdir, step_rows}
use wwdedup.Effects.{ok, ◌>>=◌}
use wwdedup.Prelude.{
  Bool, List, [], ap, arith, if◌then◌else◌, length, map, pos, refl, select, some, subst, ℕ, ◌++◌,
  ◌+ℤ◌, ◌==◌, ◌∷◌, ◌≡◌,
}
use wwdedup.State.{Env, FileRow, World}
use wwdedup.Types.{FileInfo, FilePath}

abbrev NoFaults : World → World
NoFaults w = record w { faults = [] }

-- The rows that both statements select.
abbrev children : Env → FileInfo → FilePath → World → List FileRow
children env dir pat w = select (is_child env pat (dir.depth +ℤ pos 1)) w.tables.files

step_rows-quiet : (rs : List FileRow) (w : World) → step_rows rs (NoFaults w) ≡ (ok tt, NoFaults w)
unfolding step_rows ◌>>=◌
step_rows-quiet [] w = refl
step_rows-quiet (r ∷ rs) w = step_rows-quiet rs w

no_children : {A B : Type 0} (f : A → B) (xs : List A) → (length xs == 0) ≡ (length (map f xs) == 0)
no_children f [] = refl
no_children f (x ∷ xs) = ground arith

abbrev Agree : Env → FileInfo → World → World → Type 0
Agree env dir w v =
    (files : List FileInfo) × ((readdir env dir v).0 ≡ ok files)
    × ((dir_empty env dir v).0 ≡ ok (length files == 0))
    × ((readdir env dir v).1.tables ≡ w.tables)
    × ((dir_empty env dir v).1.tables ≡ w.tables)

-- The pattern, and the file_info of a row.
abbrev pattern_of : FilePath → ℕ → FilePath
pattern_of name b = if b == b'/' then name ++ b'%' ∷ [] else name ++ b'/' ∷ b'%' ∷ []

abbrev child_info : Env → FileInfo → FileRow → FileInfo
child_info env dir r = record (info_of env r.path (some r)) { depth = dir.depth +ℤ pos 1 }

module _ (env : Env) (dir : FileInfo) (b : ℕ) (w : World) where
  agree : last_byte dir.name ≡ some b → Agree env dir w (NoFaults w)
  unfolding readdir dir_empty ◌>>=◌
  agree e =
      let rows = children env dir (pattern_of dir.name b) w in
      (
        map (child_info env dir) rows,
        rw (e, step_rows-quiet rows w) refl,
        rw e (ap (λ (x : Bool). ok x) (no_children (child_info env dir) rows)),
        rw (e, step_rows-quiet rows w) refl,
        rw e refl,
      )

  -- Where no call fails and the directory has a name, dirEmpty says that it is empty just where
  -- readdir lists no file, and neither changes the tables.
  pub dir_empty-readdir :
      w.faults ≡ []
      → last_byte dir.name ≡ some b
      → (files : List FileInfo) × ((readdir env dir w).0 ≡ ok files)
        × ((dir_empty env dir w).0 ≡ ok (length files == 0))
        × ((readdir env dir w).1.tables ≡ w.tables)
        × ((dir_empty env dir w).1.tables ≡ w.tables)
  dir_empty-readdir nf e = subst (Agree env dir w) (ground (arith, nf)) (agree e)
