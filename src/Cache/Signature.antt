-- ===== src/Cache/Signature.antt =====
-- BlocksCache::BlocksCache: a storage file opened again.
use wwdedup.Cache.Storage.{check_signature, le32, magic, open_storage, overlay, signature}
use wwdedup.Effects.{ok, throws}
use wwdedup.Prelude.{
  subst, Bool, Bool-cases, [], ap, arith, drop, eqb, eqb_refl, false, if◌then◌else◌, inl, inr,
  length, length-append, length-drop, length-take, refl, suc, take, true, ℕ, ◌++◌, ◌+◌, ◌-◌, ◌<◌,
  ◌==◌, ◌∙◌, ◌∷◌, ◌≡◌, ◌≤◌, ◌⊎◌,
}
use wwdedup.Types.{Bytes}

take-append : (k : ℕ) (xs ys : Bytes) → take (length xs + k) (xs ++ ys) ≡ xs ++ take k ys
take-append k [] ys = ap (λ (n : ℕ). take n ys) (omega arith)
take-append k (x ∷ xs) ys =
    subst (λ (n : ℕ). take n (x ∷ (xs ++ ys)) ≡ x ∷ (xs ++ take k ys)) {x = suc (length xs + k)}
      (omega arith) (ap (λ (t : Bytes). x ∷ t) (take-append k xs ys))

le32-injective : (m n : ℕ) → m < 4294967296 → n < 4294967296 → eqb (le32 m) (le32 n) ≡ true → m ≡ n
unfolding eqb le32
le32-injective m n hm hn e = ground (arith, e)

-- What a signature of the size `made` and the tail begin.
abbrev begun : ℕ → Bytes → Bytes
begun made tail = magic ++ (le32 made ++ tail)

take-begun :
    (k made : ℕ) (tail : Bytes) → take (12 + k) (begun made tail) ≡ begun made (take k tail)
unfolding le32
take-begun k made tail = take-append k (magic ++ le32 made) tail

check_begun :
    (size made : ℕ) (file tail : Bytes)
    → check_signature size file (begun made tail) ≡ (
        if 12 + length tail == size
        then (if eqb (le32 made) (le32 size) then ok file else throws)
        else throws)
unfolding check_signature eqb le32
check_begun size made file tail = ground arith

reopened :
    (k made : ℕ) (wrote : Bool) (fresh tail : Bytes)
    → open_storage (12 + k) true wrote fresh (begun made tail) ≡ (
        if 12 + length (take k tail) == 12 + k
        then (if eqb (le32 made) (le32 (12 + k)) then ok (begun made tail) else throws)
        else throws)
unfolding open_storage
reopened k made wrote fresh tail =
    let some_bytes : (length (begun made tail) == 0) ≡ false = ground arith in
    rw (some_bytes, take-begun k made tail)
      (check_begun (12 + k) made (begun made tail) (take k tail))

same_size :
    (k size : ℕ) (wrote : Bool) (fresh tail : Bytes)
    → 12 + k ≡ size
    → k ≤ length tail
    → open_storage size true wrote fresh (begun size tail) ≡ ok (begun size tail)
same_size k size wrote fresh tail e h =
    subst (λ n. open_storage n true wrote fresh (begun n tail) ≡ ok (begun n tail)) e
      (reopened k (12 + k) wrote fresh tail
        ∙ ground (arith, length-take k tail, h, eqb_refl (le32 (12 + k))))

other_size :
    (k size made : ℕ) (wrote : Bool) (fresh tail : Bytes)
    → 12 + k ≡ size
    → eqb (le32 made) (le32 size) ≡ false
    → open_storage size true wrote fresh (begun made tail) ≡ throws
other_size k size made wrote fresh tail e =
    subst
      (λ n.
        eqb (le32 made) (le32 n) ≡ false
        → open_storage n true wrote fresh (begun made tail) ≡ throws)
      e (λ ne. reopened k made wrote fresh tail ∙ ground (arith, ne))

abbrev tail_of : Bytes → Bytes → Bytes
tail_of buffer rest = drop 4 (drop 8 buffer) ++ rest

signature-begun :
    (size : ℕ) (buffer rest : Bytes)
    → signature size buffer ++ rest ≡ begun size (tail_of buffer rest)
unfolding signature overlay le32
signature-begun size buffer rest = refl

length-tail_of :
    (size : ℕ) (buffer rest : Bytes)
    → length buffer ≡ size
    → size - 12 ≤ length (tail_of buffer rest)
length-tail_of size buffer rest e = omega (
  arith,
  length-append (drop 4 (drop 8 buffer)) rest,
  length-drop 4 (drop 8 buffer),
  length-drop 8 buffer,
  e,
)

-- Where the block size is at least the 12 bytes of the signature and less than 2 ^ 32, and the
-- buffer has that size: a new storage file is given a signature; a storage file that begins with
-- it is accepted and left as it is when it is opened with the same block size, and refused with
-- any other one.
pub open_storage-reopen :
    (size other : ℕ) (wrote : Bool) (buffer fresh rest : Bytes)
    → 12 ≤ size
    → size < 4294967296
    → 12 ≤ other
    → other < 4294967296
    → length buffer ≡ size
    → (other == size) ≡ false
    → let made = signature size buffer in
      (open_storage size true true buffer [] ≡ ok made)
      × (open_storage size true wrote fresh (made ++ rest) ≡ ok (made ++ rest))
      × (open_storage other true wrote fresh (made ++ rest) ≡ throws)
unfolding open_storage
open_storage-reopen size other wrote buffer fresh rest h hs ho hos e ne =
    (refl, kept, refused (Bool-cases (eqb (le32 size) (le32 other))))
  where
    kept :
        open_storage size true wrote fresh (signature size buffer ++ rest)
        ≡ ok (signature size buffer ++ rest)
    kept = rw (signature-begun size buffer rest) (
        same_size (size - 12) size wrote fresh (tail_of buffer rest) (omega (arith, h))
          (length-tail_of size buffer rest e))

    refused :
        (eqb (le32 size) (le32 other) ≡ true) ⊎ (eqb (le32 size) (le32 other) ≡ false)
        → open_storage other true wrote fresh (signature size buffer ++ rest) ≡ throws
    refused (inl same) = absurd (ground (arith, le32-injective size other hs hos same, ne))
    refused (inr apart) = rw (signature-begun size buffer rest) (
        other_size (other - 12) other size wrote fresh (tail_of buffer rest) (omega (arith, ho))
          apart)
