-- ===== src/Cache/PastEnd.antt =====
-- blockscache.cpp: readBuf behind the end of the file.
-- The chunk is not negative, and the buffer has room for it.
use wwdedup.Cache.Access.{get_storage_block}
use wwdedup.Cache.Storage.{block_size, populate, zeros}
use wwdedup.Cache.Transfer.{copy_first, copy_narrowed, read_buf, read_negative}
use wwdedup.Effects.{Outcome, abort, aborts, continue, hangs, ok, pure, throws, ◌>>=◌}
use wwdedup.Prelude.{
  Bool, Option, arith, as_int_neg, as_int_neg-negative, drop, false, if◌then◌else◌, leb, length,
  length-drop, length-take, lt→ltb, negsuc, none, pos, refl, some, suc, take, true, zero, ℕ, ℤ,
  ◌&&◌, ◌*◌, ◌+◌, ◌-◌, ◌/◌, ◌<◌, ◌==◌, ◌^◌, ◌≡◌, ◌≤◌,
}
use wwdedup.State.{Env, M, World}
use wwdedup.Types.{Bytes, StorageBlock}

abbrev pub FitsBuffer : ℕ → ℤ → Bytes → Type 0
FitsBuffer size chunk result = (chunk ≡ pos (length result)) × (length result ≤ size)

zeros-length : (n : ℕ) → length (zeros n) ≡ n
zeros-length zero = refl
zeros-length (suc n) = ground (arith, zeros-length n)

copied-length :
    (start chunk : ℕ) (c : Bytes)
    → leb (start + chunk) (length c) ≡ true
    → length (take chunk (drop start c)) ≡ chunk
copied-length start chunk c h =
    ground (arith, length-take chunk (drop start c), length-drop start c, h)

-- A value that `m` gives back fits.
abbrev Fits : ℕ → ℤ → M Bytes → Type 0
Fits size chunk m =
    (w : World) (result : Bytes) → (m w).0 ≡ ok result → FitsBuffer size chunk result

Fits-abort : (size : ℕ) (chunk : ℤ) → Fits size chunk abort
Fits-abort size chunk w result e = cc

Fits-if :
    (size : ℕ) (chunk : ℤ) (c : Bool) (m k : M Bytes)
    → (c ≡ true → Fits size chunk m)
    → Fits size chunk k
    → Fits size chunk (if c then m else k)
Fits-if size chunk true m k f g w result = f refl w result
Fits-if size chunk false m k f g w result = g w result

Fits-zeros :
    (size chunk : ℕ) → Fits size (pos chunk) (if leb chunk size then pure (zeros chunk) else abort)
Fits-zeros size chunk =
    Fits-if size (pos chunk) (leb chunk size) (pure (zeros chunk)) abort
      (λ fits w result e. ground (arith, e, fits, zeros-length chunk)) (Fits-abort size (pos chunk))

Fits-bind :
    {A : Type 0} (size : ℕ) (chunk : ℤ) (m : M A) (f : A → M Bytes)
    → ((a : A) → Fits size chunk (f a))
    → Fits size chunk (m >>= f)
unfolding ◌>>=◌
Fits-bind {A} size chunk m f k w result = by_outcome (m w)
  where
    by_outcome :
        (r : Outcome A × World) → (continue r.0 f r.1).0 ≡ ok result → FitsBuffer size chunk result
    by_outcome (ok a, v) e = k a v result e
    by_outcome (throws, v) e = cc
    by_outcome (aborts, v) e = cc
    by_outcome (hangs, v) e = cc

Fits-copied :
    (size start chunk : ℕ) (c : Bytes)
    → Fits size (pos chunk) (
        if leb chunk size && leb (start + chunk) (length c)
        then pure (take chunk (drop start c))
        else abort)
Fits-copied size start chunk c =
    Fits-if size (pos chunk) (leb chunk size && leb (start + chunk) (length c))
      (pure (take chunk (drop start c))) abort
      (λ fits w result e.
        ground (arith, e, fits, copied-length start chunk c (ground (arith, fits))))
      (Fits-abort size (pos chunk))

Fits-copy_first :
    (env : Env) (size start chunk : ℕ) (b : Option StorageBlock)
    → Fits size (pos chunk) (copy_first env size start chunk b)
unfolding copy_first
Fits-copy_first env size start chunk none = Fits-zeros size chunk
Fits-copy_first env size start chunk (some b) =
    Fits-if size (pos chunk) (b.storage_block_num == 0) _ _ (λ z. Fits-zeros size chunk)
      (Fits-bind size (pos chunk) (populate env b)
        (λ p.
          if leb chunk size && leb (start + chunk) (length p.content)
          then pure (take chunk (drop start p.content))
          else abort)
        (λ p. Fits-copied size start chunk p.content))

Fits-copy_narrowed :
    (env : Env) (size start : ℕ) (chunk : ℤ) (b : Option StorageBlock)
    → Fits size chunk (copy_narrowed env size start chunk b)
unfolding copy_narrowed
Fits-copy_narrowed env size start (pos chunk) b = Fits-copy_first env size start chunk b
Fits-copy_narrowed env size start (negsuc k) none = Fits-abort size (negsuc k)
Fits-copy_narrowed env size start (negsuc k) (some b) =
    Fits-if size (negsuc k) (b.storage_block_num == 0) _ _ (λ z. Fits-abort size (negsuc k))
      (Fits-bind size (negsuc k) (populate env b) (λ p. abort) (λ p. Fits-abort size (negsuc k)))

far_behind : (behind n : ℕ) → 0 < behind → as_int_neg behind ≡ pos n → 2 ^ 31 < behind
far_behind behind n h e = ground (arith, as_int_neg-negative behind h, e)

-- Where a read from an offset behind the end of the file gives a result, the offset is more than 2
-- ^ 31 bytes behind the end, the negated distance is not negative as an int, and the result has
-- that number of bytes, which is at most the size that was asked for.
pub read_buf-past_end :
    (env : Env) (size offset : ℕ) (w : World) (result : Bytes)
    → w.file.st.size < offset
    → (read_buf env size offset w).0 ≡ ok result
    → (2 ^ 31 < offset - w.file.st.size)
      × FitsBuffer size (as_int_neg (offset - w.file.st.size)) result
unfolding read_buf read_negative ◌>>=◌
read_buf-past_end env size offset w result h =
    rw (lt→ltb w.file.st.size (size + offset) (omega (arith, h)), lt→ltb w.file.st.size offset h)
      (λ e.
        let fits =
          Fits-bind size (as_int_neg (offset - w.file.st.size))
            (get_storage_block env (offset / block_size env))
            (copy_narrowed env size (offset - offset / block_size env * block_size env)
              (as_int_neg (offset - w.file.st.size)))
            (λ b. Fits-copy_narrowed env size _ _ b) w result e in
        (far_behind (offset - w.file.st.size) (length result) (omega (arith, h)) fits.0, fits))
