-- ===== src/Cache/Pieces.antt =====
-- blockscache.cpp: how writeBuf splits what it writes over the blocks of the file.
use native.Mathlib.Nat.{one-le-pow, div-mul-le_self, lt-div-mul-add}
use wwdedup.Cache.Storage.{block_size}
use wwdedup.Cache.Transfer.{grow_file, write_block_wrapper, write_buf, write_rest}
use wwdedup.Effects.{Outcome, aborts, continue, hangs, ok, pure, throws, ◌>>=◌, ◌>>◌}
use wwdedup.Prelude.{
  ap, Bool-cases, List, [], arith, drop, false, inl, inr, length, length-drop, length-take, ltb,
  ltb→lt, min, refl, suc, sym, take, true, zero, ℕ, ◌*◌, ◌++◌, ◌+◌, ◌-◌, ◌/◌, ◌<◌, ◌∙◌, ◌∷◌, ◌≡◌,
  ◌≤◌,
}
use wwdedup.State.{Env, M, World}
use wwdedup.Types.{Bytes}

-- A block number, the place in the block, and the bytes that go there.
abbrev pub Piece : Type 0
Piece = ℕ × (ℕ × Bytes)

unfoldable pub write_pieces : Env → List Piece → M (Unit {0})
write_pieces env [] = pure tt
write_pieces env ((n, (start, chunk)) ∷ ps) = do
  write_block_wrapper env chunk n start
  write_pieces env ps

-- The pieces follow each other from position pos of a file of blocks of bs bytes, none of them
-- leaves its block, and together they are the bytes.
abbrev pub Splits : ℕ → ℕ → List Piece → Bytes → Type 0
Splits bs at [] buf = buf ≡ []
Splits bs at ((n, (start, chunk)) ∷ ps) buf =
    (n * bs + start ≡ at)
    × ((start + length chunk ≤ bs)
        × ((rest : Bytes) × ((buf ≡ chunk ++ rest) × Splits bs (at + length chunk) ps rest)))

take-drop : (n : ℕ) (xs : Bytes) → xs ≡ take n xs ++ drop n xs
take-drop zero xs = refl
take-drop (suc n) [] = refl
take-drop (suc n) (x ∷ xs) = ap (λ (t : Bytes). x ∷ t) (take-drop n xs)

drop_nil : (n : ℕ) → drop {A = ℕ} n [] ≡ []
drop_nil zero = refl
drop_nil (suc n) = refl

drop_at : {m n : ℕ} (xs : Bytes) → m ≡ n → drop m xs ≡ drop n xs
drop_at xs e = ap (λ (k : ℕ). drop k xs) e

drop-drop : (m n : ℕ) (xs : Bytes) → drop (m + n) xs ≡ drop n (drop m xs)
drop-drop zero n xs = drop_at xs (omega arith)
drop-drop (suc m) n [] = drop_nil (suc m + n) ∙ sym (drop_nil n)
drop-drop (suc m) n (x ∷ xs) =
    drop_at {m = suc m + n} {n = suc (m + n)} (x ∷ xs) (omega arith) ∙ drop-drop m n xs

drop_all : (n : ℕ) (xs : Bytes) → length xs ≤ n → drop n xs ≡ []
drop_all zero [] h = refl
drop_all zero (x ∷ xs) h = absurd (omega arith)
drop_all (suc n) [] h = refl
drop_all (suc n) (x ∷ xs) h = drop_all n xs (omega arith)

-- A call that writes the pieces and then gives a value.
abbrev Writes : Env → M ℕ → List Piece → ℕ → Type 0
Writes env m ps v = (w : World) → m w ≡ (write_pieces env ps >> pure v) w

continue-pieces :
    (env : Env) (r : Outcome (Unit {0}) × World) (ps : List Piece) (m : M ℕ) (v : ℕ)
    → Writes env m ps v
    → continue r.0 (λ _. m) r.1
      ≡ continue
          (continue r.0 (λ _. write_pieces env ps) r.1).0
          (λ _. pure v)
          (continue r.0 (λ _. write_pieces env ps) r.1).1
unfolding ◌>>=◌
continue-pieces env (ok a, s) ps m v k = k s
continue-pieces env (throws, s) ps m v k = refl
continue-pieces env (aborts, s) ps m v k = refl
continue-pieces env (hangs, s) ps m v k = refl

pub next_block : (bs cur : ℕ) → suc cur * bs + bs ≡ suc (suc cur) * bs
next_block bs cur = omega arith

continue_cong :
    (r : Outcome (Unit {0}) × World) (f g : M ℕ)
    → ((w : World) → f w ≡ g w)
    → continue r.0 (λ _. f) r.1 ≡ continue r.0 (λ _. g) r.1
continue_cong (ok a, s) f g k = k s
continue_cong (throws, s) f g k = refl
continue_cong (aborts, s) f g k = refl
continue_cong (hangs, s) f g k = refl

module _ (env : Env) (buf : Bytes) where
  abbrev RestPieces : ℕ → ℕ → ℕ → ℕ → Type 0
  RestPieces fuel cur fact at =
      (ps : List Piece) × (Writes env (write_rest env fuel buf (length buf) cur fact) ps
          (length buf)
        × Splits (block_size env) at ps (drop fact buf))

  abbrev chunk_at : ℕ → ℕ
  chunk_at fact = min (block_size env) (length buf - fact)

  rest_done :
      (fuel cur fact at : ℕ)
      → ltb fact (length buf) ≡ false
      → fact ≤ length buf
      → RestPieces (suc fuel) cur fact at
  unfolding write_rest write_pieces ◌>>=◌
  rest_done fuel cur fact at e h =
      let same : fact ≡ length buf = ground (arith, e) in
      ([], (λ w. rw e (ap (λ (x : ℕ). (ok x, w)) same), drop_all fact buf (omega (arith, same))))

  rest_step :
      (fuel cur fact at : ℕ)
      → ltb fact (length buf) ≡ true
      → at ≡ suc cur * block_size env
      → RestPieces fuel (suc cur) (fact + chunk_at fact) (at + chunk_at fact)
      → RestPieces (suc fuel) cur fact at
  unfolding write_rest write_pieces ◌>>=◌
  rest_step fuel cur fact at e h (ps, (k, s)) =
      let chunk = take (chunk_at fact) (drop fact buf) in
      let len : length chunk ≡ chunk_at fact =
        omega (arith, length-take (chunk_at fact) (drop fact buf), length-drop fact buf) in
      (
        (suc cur, (0, chunk)) ∷ ps,
        (
          λ w. rw e (continue-pieces env (write_block_wrapper env chunk (suc cur) 0 w) ps _ _ k),
          (
            omega (arith, h),
            (
              omega (arith, len),
              (
                drop (chunk_at fact) (drop fact buf),
                (
                  take-drop (chunk_at fact) (drop fact buf),
                  rw (len, ← drop-drop fact (chunk_at fact) buf) s,
                ),
              ),
            ),
          ),
        ),
      )

  next_at :
      (cur fact at : ℕ)
      → at ≡ suc cur * block_size env
      → fact + chunk_at fact < length buf
      → at + chunk_at fact ≡ suc (suc cur) * block_size env
  next_at cur fact at h l =
      let full : chunk_at fact ≡ block_size env = omega (arith, l) in
      ap (λ (x : ℕ). x + chunk_at fact) h
      ∙ (ap (λ (x : ℕ). suc cur * block_size env + x) full ∙ next_block (block_size env) cur)

  rest_pieces :
      (fuel cur fact at : ℕ)
      → 0 < block_size env
      → fact ≤ length buf
      → length buf - fact < fuel
      → (fact < length buf → at ≡ suc cur * block_size env)
      → RestPieces fuel cur fact at
  rest_pieces zero cur fact at p h l k = absurd (omega arith)
  rest_pieces (suc fuel) cur fact at p h l k = elim (Bool-cases (ltb fact (length buf))) [
    | inl more ↦
        let here = k (ltb→lt fact (length buf) more) in
        rest_step fuel cur fact at more here (
          rest_pieces fuel (suc cur) (fact + chunk_at fact) (at + chunk_at fact) p (omega arith)
            (ground arith) (next_at cur fact at here))
    | inr last ↦ rest_done fuel cur fact at last h
  ]

module _ (env : Env) (buf : Bytes) (offset : ℕ) where
  -- The number of the first block, the place in it, and the bytes that go there.
  abbrev first_block : ℕ
  first_block = offset / block_size env

  abbrev first_start : ℕ
  first_start = offset - first_block * block_size env

  abbrev first_size : ℕ
  first_size = min (length buf) (block_size env - first_start)

  first_bounds :
      0 < block_size env
      → (first_block * block_size env + first_start ≡ offset) × (first_start < block_size env)
  first_bounds p = (
    omega (arith, div-mul-le_self offset (block_size env)),
    omega (arith, lt-div-mul-add {a = offset} {b = block_size env} p),
  )

  second_at :
      0 < block_size env
      → first_size < length buf
      → offset + first_size ≡ suc first_block * block_size env
  second_at p l =
      let b = first_bounds p in
      let full : first_size ≡ block_size env - first_start = omega (arith, l) in
      let next : suc first_block * block_size env ≡ first_block * block_size env + block_size env =
        omega arith in
      omega (arith, b.0, b.1, full, next)

  -- writeBuf grows the file where it ends before the last byte written, and then writes pieces
  -- that follow each other from the offset, each within its block, and that together are the
  -- buffer; its loop ends, and where none of those calls fails it returns the size of the buffer.
  pub write_buf-write_pieces :
      (ps : List Piece) × (((w : World)
          → write_buf env buf (length buf) offset w
            ≡ (grow_file (length buf + offset) >> (write_pieces env ps >> pure (length buf))) w)
        × Splits (block_size env) offset ps buf)
  unfolding write_buf write_pieces ◌>>=◌
  write_buf-write_pieces =
      let p : 0 < block_size env = one-le-pow env.block_size_bits 2 (omega arith) in
      let b = first_bounds p in
      let (ps, (k, s)) =
        rest_pieces env buf (suc (length buf)) first_block first_size (offset + first_size) p
          (omega arith) (omega arith) (second_at p) in
      let chunk = take first_size buf in
      let len : length chunk ≡ first_size = omega (arith, length-take first_size buf) in
      (
        (first_block, (first_start, chunk)) ∷ ps,
        (
          λ w. continue_cong (grow_file (length buf + offset) w) _ _ (λ v.
              continue-pieces env (write_block_wrapper env chunk first_block first_start v) ps _ _
                k),
          (
            b.0,
            (omega (arith, len, b.1), (drop first_size buf, (take-drop first_size buf, rw len s))),
          ),
        ),
      )
