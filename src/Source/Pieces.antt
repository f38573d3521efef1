-- ===== src/Source/Pieces.antt =====
-- Reads of a MemorySource in pieces (libpanduck/include/panduck/byte_source.hpp).
use duckdb_panduck.Base.{
  ℕ, zero, suc, ◌+◌, ◌-◌, ◌≤◌, ◌≡◌, refl, sym, ap, ◌∙◌, some, take, drop, leb, ltb, [], ◌∷◌, ◌++◌,
  length, length-drop, if◌then◌else◌, arith, Bool-cases, inl, inr,
}
use duckdb_panduck.Source.{MemorySource, copied, read}
use duckdb_panduck.Text.Find.{drop_add}
use duckdb_panduck.Text.{Bytes}

-- A source over these bytes, with their number as its size.
pub record IsOver (bytes : Bytes) (src : MemorySource) : Type 0 where
  pub filled : src.bytes ≡ some bytes
  pub sized : src.size ≡ length bytes

take-long : (n : ℕ) (s : Bytes) → length s ≤ n → take n s ≡ s
take-long zero [] h = refl
take-long zero (c ∷ s) h = absurd (omega arith)
take-long (suc n) [] h = refl
take-long (suc n) (c ∷ s) h = ap (λ x. c ∷ x) (take-long n s (omega arith))

drop-long : (n : ℕ) (s : Bytes) → length s ≤ n → drop n s ≡ []
drop-long zero [] h = refl
drop-long zero (c ∷ s) h = absurd (omega arith)
drop-long (suc n) [] h = refl
drop-long (suc n) (c ∷ s) h = drop-long n s (omega arith)

take-nil : (n : ℕ) → take {A = ℕ} n [] ≡ []
take-nil zero = refl
take-nil (suc n) = refl

take_add : (n m : ℕ) (s : Bytes) → take n s ++ take m (drop n s) ≡ take (n + m) s
take_add zero m s = let e : m ≡ 0 + m = omega arith in ap (λ k. take k s) e
take_add (suc n) m [] = take-nil m ∙ sym (take-nil (suc n + m))
take_add (suc n) m (c ∷ s) =
    let e : suc (n + m) ≡ suc n + m = omega arith in
    ap (λ x. c ∷ x) (take_add n m s) ∙ ap (λ k. take k (c ∷ s)) e

clamped : (s : Bytes) (n k : ℕ) → k ≡ length s → take (if ltb n k then n else k) s ≡ take n s
clamped s n k h = elim (Bool-cases (ltb n k)) [
  | inl e ↦ rw e refl
  | inr e ↦ rw e (take-long k s (omega arith) ∙ sym (take-long n s (ground arith)))
]

-- A read is a slice of the bytes, cut off at their end.
copied-take :
    (bytes : Bytes) (n offset : ℕ)
    → copied (some bytes) (length bytes) n offset ≡ take n (drop offset bytes)
copied-take bytes n offset = elim (Bool-cases (leb (length bytes) offset)) [
  | inl e ↦ rw e (sym (ap (take n) (drop-long offset bytes (ground arith)) ∙ take-nil n))
  | inr e ↦
      rw e (clamped (drop offset bytes) n (length bytes - offset) (sym (length-drop offset bytes)))
]

read-IsOver :
    (bytes : Bytes) (src : MemorySource) (n offset : ℕ)
    → IsOver bytes src
    → read src n offset ≡ take n (drop offset bytes)
unfolding read
read-IsOver bytes src n offset h = rw (h.filled, h.sized) (copied-take bytes n offset)

-- Where the size of a source is the number of its bytes, two reads, the second from where the first
-- was to end, give what one read of both lengths gives, also at and past the end.
read_pieces :
    (bytes : Bytes) (src : MemorySource) (n m offset : ℕ)
    → IsOver bytes src
    → read src n offset ++ read src m (offset + n) ≡ read src (n + m) offset
read_pieces bytes src n m offset h = rw (read-IsOver bytes src n offset h) (
    rw (read-IsOver bytes src m (offset + n) h) (
      rw (read-IsOver bytes src (n + m) offset h) (
        ap (λ x. take n (drop offset bytes) ++ take m x) (drop_add offset n bytes)
        ∙ take_add n m (drop offset bytes))))
