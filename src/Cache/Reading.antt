-- ===== src/Cache/Reading.antt =====
-- blockscache.cpp: how readBuf puts together what it reads from the blocks of the file.
use mathlib.Core.List.{append_assoc, append-nil}
use wwdedup.Cache.Pieces.{next_block}
use wwdedup.Cache.Storage.{block_size}
use wwdedup.Cache.Transfer.{read_buf, read_chunk, read_rest, read_sized}
use wwdedup.Effects.{Outcome, aborts, continue, hangs, ok, pure, throws, ◌>>=◌}
use wwdedup.Prelude.{
  sym, ap, Bool-cases, List, [], arith, false, if◌then◌else◌, inl, inr, ltb, ltb→lt, min, refl,
  subst, suc, true, zero, ℕ, ◌*◌, ◌++◌, ◌+◌, ◌-◌, ◌/◌, ◌<◌, ◌∙◌, ◌∷◌, ◌≡◌, ◌≤◌,
}
use wwdedup.State.{Env, M, World}
use wwdedup.Types.{Bytes}
use native.Mathlib.Nat.{one-le-pow, div-mul-le_self, lt-div-mul-add}

-- A block number, the place in the block, and how many bytes are read there.
abbrev pub ReadPiece : Type 0
ReadPiece = ℕ × (ℕ × ℕ)

unfoldable pub read_pieces : Env → List ReadPiece → M Bytes
read_pieces env [] = pure []
read_pieces env ((n, (start, len)) ∷ ps) = do
  bytes ← read_chunk env n start len
  rest ← read_pieces env ps
  pure (bytes ++ rest)

-- The pieces follow each other from position `at` of a file of blocks of bs bytes, none of them leaves its
-- block, and together they have the size.
abbrev pub Covers : ℕ → ℕ → List ReadPiece → ℕ → Type 0
Covers bs at [] size = size ≡ 0
Covers bs at ((n, (start, len)) ∷ ps) size =
    (n * bs + start ≡ at)
    × ((start + len ≤ bs) × ((len ≤ size) × Covers bs (at + len) ps (size - len)))

-- A call that reads the pieces behind what was read already.
abbrev Reads : Env → (Bytes → M Bytes) → List ReadPiece → Type 0
Reads env m ps =
    (done : Bytes) (w : World) → m done w ≡ (read_pieces env ps >>= λ rest. pure (done ++ rest)) w

continue_same :
    (r : Outcome Bytes × World) (f g : Bytes → M Bytes)
    → ((bytes : Bytes) (w : World) → f bytes w ≡ g bytes w)
    → continue r.0 f r.1 ≡ continue r.0 g r.1
continue_same (ok bytes, s) f g k = k bytes s
continue_same (throws, s) f g k = refl
continue_same (aborts, s) f g k = refl
continue_same (hangs, s) f g k = refl

regroup :
    (p : Outcome Bytes × World) (done bytes : Bytes)
    → continue p.0 (λ rest. pure ((done ++ bytes) ++ rest)) p.1
      ≡ continue
          (continue p.0 (λ rest. pure (bytes ++ rest)) p.1).0
          (λ rest. pure (done ++ rest))
          (continue p.0 (λ rest. pure (bytes ++ rest)) p.1).1
regroup (ok rest, s) done bytes = ap (λ (t : Bytes). (ok t, s)) (append_assoc done bytes rest)
regroup (throws, s) done bytes = refl
regroup (aborts, s) done bytes = refl
regroup (hangs, s) done bytes = refl

continue-Reads :
    (env : Env) (r : Outcome Bytes × World) (ps : List ReadPiece) (m : Bytes → M Bytes)
    (done : Bytes)
    → Reads env m ps
    → continue r.0 (λ bytes. m (done ++ bytes)) r.1
      ≡ continue
          (continue r.0 (λ bytes. read_pieces env ps >>= λ rest. pure (bytes ++ rest)) r.1).0
          (λ rest. pure (done ++ rest))
          (continue r.0 (λ bytes. read_pieces env ps >>= λ rest. pure (bytes ++ rest)) r.1).1
unfolding ◌>>=◌
continue-Reads env (ok bytes, s) ps m done k =
    k (done ++ bytes) s ∙ regroup (read_pieces env ps s) done bytes
continue-Reads env (throws, s) ps m done k = refl
continue-Reads env (aborts, s) ps m done k = refl
continue-Reads env (hangs, s) ps m done k = refl

module _ (env : Env) (size : ℕ) where
  abbrev RestReads : ℕ → ℕ → ℕ → ℕ → Type 0
  RestReads fuel cur fact at =
      (ps : List ReadPiece) × (Reads env (read_rest env fuel size cur fact) ps
        × Covers (block_size env) at ps (size - fact))

  abbrev chunk_at : ℕ → ℕ
  chunk_at fact = min (block_size env) (size - fact)

  rest_done : (fuel cur fact at : ℕ) → ltb fact size ≡ false → RestReads (suc fuel) cur fact at
  unfolding read_rest read_pieces ◌>>=◌
  rest_done fuel cur fact at e = (
    [],
    (λ done w. rw e (ap (λ (t : Bytes). (ok t, w)) (sym (append-nil done))), ground (arith, e)),
  )

  rest_step :
      (fuel cur fact at : ℕ)
      → ltb fact size ≡ true
      → at ≡ suc cur * block_size env
      → RestReads fuel (suc cur) (fact + chunk_at fact) (at + chunk_at fact)
      → RestReads (suc fuel) cur fact at
  unfolding read_rest read_pieces ◌>>=◌
  rest_step fuel cur fact at e h (ps, (k, s)) = (
    (suc cur, (0, chunk_at fact)) ∷ ps,
    (
      λ done w.
          rw e (continue-Reads env (read_chunk env (suc cur) 0 (chunk_at fact) w) ps _ done k),
      (
        omega (arith, h),
        (
          omega arith,
          (omega arith, subst (Covers (block_size env) (at + chunk_at fact) ps) (omega arith) s),
        ),
      ),
    ),
  )

  next_at :
      (cur fact at : ℕ)
      → at ≡ suc cur * block_size env
      → fact + chunk_at fact < size
      → at + chunk_at fact ≡ suc (suc cur) * block_size env
  next_at cur fact at h l =
      let full : chunk_at fact ≡ block_size env = omega (arith, l) in
      ap (λ (x : ℕ). x + chunk_at fact) h
      ∙ (ap (λ (x : ℕ). suc cur * block_size env + x) full ∙ next_block (block_size env) cur)

  rest_reads :
      (fuel cur fact at : ℕ)
      → 0 < block_size env
      → fact ≤ size
      → size - fact < fuel
      → (fact < size → at ≡ suc cur * block_size env)
      → RestReads fuel cur fact at
  rest_reads zero cur fact at p h l k = absurd (omega arith)
  rest_reads (suc fuel) cur fact at p h l k = elim (Bool-cases (ltb fact size)) [
    | inl more ↦
        let here = k (ltb→lt fact size more) in
        rest_step fuel cur fact at more here (
          rest_reads fuel (suc cur) (fact + chunk_at fact) (at + chunk_at fact) p (omega arith)
            (ground arith) (next_at cur fact at here))
    | inr last ↦ rest_done fuel cur fact at last
  ]

module _ (env : Env) (size offset : ℕ) where
  -- The number of the first block, the place in it, and how much is read there.
  abbrev first_block : ℕ
  first_block = offset / block_size env

  abbrev first_start : ℕ
  first_start = offset - first_block * block_size env

  abbrev first_size : ℕ
  first_size = min size (block_size env - first_start)

  first_bounds :
      0 < block_size env
      → (first_block * block_size env + first_start ≡ offset) × (first_start < block_size env)
  first_bounds p = (
    omega (arith, div-mul-le_self offset (block_size env)),
    omega (arith, lt-div-mul-add {a = offset} {b = block_size env} p),
  )

  second_at :
      0 < block_size env
      → first_size < size
      → offset + first_size ≡ suc first_block * block_size env
  second_at p l =
      let b = first_bounds p in
      let full : first_size ≡ block_size env - first_start = omega (arith, l) in
      let next : suc first_block * block_size env ≡ first_block * block_size env + block_size env =
        omega arith in
      omega (arith, b.0, b.1, full, next)

  abbrev Sized : Type 0
  Sized =
      (ps : List ReadPiece) × (((w : World) → read_sized env size offset w ≡ read_pieces env ps w)
        × Covers (block_size env) offset ps size)

  sized_pieces : Sized
  unfolding read_sized read_pieces ◌>>=◌
  sized_pieces =
      let p : 0 < block_size env = one-le-pow env.block_size_bits 2 (omega arith) in
      let b = first_bounds p in
      let (ps, (k, s)) =
        rest_reads env size (suc size) first_block first_size (offset + first_size) p (omega arith)
          (omega arith) (second_at p) in
      (
        (first_block, (first_start, first_size)) ∷ ps,
        (
          λ w.
              continue_same (read_chunk env first_block first_start first_size w) _ _
                (λ bytes v. k bytes v),
          (b.0, (omega (arith, b.1), (omega arith, s))),
        ),
      )

-- How many bytes readBuf reads.
abbrev pub clamped : ℕ → ℕ → ℕ → ℕ
clamped file_size size offset = if ltb file_size (size + offset) then file_size - offset else size

-- Where the offset is not behind the end of the file, readBuf is the reading of pieces that follow
-- each other from the offset, each within its block, and that together have the size, cut off at
-- the end of the file; its loop ends, and it gives their bytes in this order.
pub read_buf-read_pieces :
    (env : Env) (size offset : ℕ) (w : World)
    → offset ≤ w.file.st.size
    → (ps : List ReadPiece) × ((read_buf env size offset w ≡ read_pieces env ps w)
        × Covers (block_size env) offset ps (clamped w.file.st.size size offset))
unfolding read_buf ◌>>=◌
read_buf-read_pieces env size offset w h =
    let inside : ltb w.file.st.size offset ≡ false = ground (arith, h) in
    let (ps, (k, s)) = sized_pieces env (clamped w.file.st.size size offset) offset in
    (ps, (sized inside ∙ k w, s))
  where
    sized :
        ltb w.file.st.size offset ≡ false
        → read_buf env size offset w ≡ read_sized env (clamped w.file.st.size size offset) offset w
    sized inside = elim (Bool-cases (ltb w.file.st.size (size + offset))) [
      | inl cut ↦ rw (cut, inside) refl
      | inr all ↦ rw all refl
    ]
