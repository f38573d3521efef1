-- ===== src/Metadata/Duplicates.antt =====
-- Which paragraphs the metadata of a document drops
-- (libpanduck/include/panduck/doc_metadata.hpp).
use Prim.Native.String.{String}
use duckdb_panduck.Base.{
  ℕ, zero, suc, ◌+◌, ◌≤◌, ◌<◌, ◌≡◌, refl, sym, ap, ◌∙◌, Bool, true, false, ◌&&◌, ◌||◌, List, [],
  ◌∷◌, if◌then◌else◌, ltb, ◌==◌, length, All, arith, Bool-cases, inl, inr,
}
use duckdb_panduck.MediaWiki.Markup.{any_same}
use duckdb_panduck.Metadata.{erase, erase_one, erase_all, meta_text, drop_duplicated}
use duckdb_panduck.Text.{Bytes}

-- The positions of candidates increase.
abbrev pub AreIncreasing : List (ℕ × Bytes) → Type 0
AreIncreasing [] = Unit
AreIncreasing (c ∷ cs) = All (λ d. c.0 < d.0) cs × AreIncreasing cs

-- Whether a candidate at this position has a text of the metadata.
abbrev pub is_dropped : List Bytes → ℕ → List (ℕ × Bytes) → Bool
is_dropped meta p [] = false
is_dropped meta p ((i, text) ∷ cs) = i == p && any_same text meta || is_dropped meta p cs

-- The blocks whose position is not dropped, the first of them at position `p`.
abbrev pub kept : {B : Type 0} → List Bytes → List (ℕ × Bytes) → ℕ → List B → List B
kept meta cs p [] = []
kept meta cs p (b ∷ bs) =
    let more = kept meta cs (suc p) bs in if is_dropped meta p cs then more else b ∷ more

is_dropped-later :
    (meta : List Bytes) (i p : ℕ) (cs : List (ℕ × Bytes))
    → p ≤ i
    → All (λ d. i < d.0) cs
    → is_dropped meta p cs ≡ false
is_dropped-later meta i p [] le h = refl
is_dropped-later meta i p ((j, text) ∷ cs) le (h, hs) =
    let e : (j == p) ≡ false = ground arith in rw e (is_dropped-later meta i p cs le hs)

kept-none : {B : Type 0} → (meta : List Bytes) (p : ℕ) (bs : List B) → kept meta [] p bs ≡ bs
kept-none meta p [] = refl
kept-none meta p (b ∷ bs) = ap (λ x. b ∷ x) (kept-none meta (suc p) bs)

module _ {B : Type 0} (meta : List Bytes) (i : ℕ) (text : Bytes) (cs : List (ℕ × Bytes)) where
  kept-missing :
      (p : ℕ) (bs : List B)
      → any_same text meta ≡ false
      → kept meta ((i, text) ∷ cs) p bs ≡ kept meta cs p bs
  kept-missing p [] h = refl
  kept-missing p (b ∷ bs) h =
      let more = kept-missing (suc p) bs h in
      elim (Bool-cases (i == p)) [ inl e ↦ rw (e, h, more) refl | inr e ↦ rw (e, more) refl ]

  kept-behind : (p : ℕ) (bs : List B) → i < p → kept meta ((i, text) ∷ cs) p bs ≡ kept meta cs p bs
  kept-behind p [] h = refl
  kept-behind p (b ∷ bs) h =
      let more = kept-behind (suc p) bs (omega arith) in
      let e : (i == p) ≡ false = ground arith in rw (e, more) refl

  kept-erase :
      (n p : ℕ) (bs : List B)
      → i ≡ p + n
      → any_same text meta ≡ true
      → All (λ (d : ℕ × Bytes). i < d.0) cs
      → kept meta ((i, text) ∷ cs) p bs ≡ erase n (kept meta cs p bs)
  kept-erase n p [] h t later = refl
  kept-erase zero p (b ∷ bs) h t later =
      let e : (i == p) ≡ true = ground arith in
      let first : is_dropped meta p cs ≡ false = is_dropped-later meta i p cs (omega arith) later in
      rw (e, t, first) (kept-behind (suc p) bs (omega arith))
  kept-erase (suc n) p (b ∷ bs) h t later =
      let more = kept-erase n (suc p) bs (omega arith) t later in
      let e : (i == p) ≡ false = ground arith in
      let first : is_dropped meta p cs ≡ false = is_dropped-later meta i p cs (omega arith) later in
      rw (e, first, more) refl

erase_long : {B : Type 0} → (i : ℕ) (bs : List B) → ltb i (length bs) ≡ false → erase i bs ≡ bs
erase_long i [] h = refl
erase_long zero (b ∷ bs) h = absurd (ground arith)
erase_long (suc i) (b ∷ bs) h = ap (λ x. b ∷ x) (erase_long i bs (ground arith))

erase_one-erase :
    {B : Type 0}
    → (meta : List Bytes) (i : ℕ) (text : Bytes) (bs : List B)
    → erase_one meta i text bs ≡ (if any_same text meta then erase i bs else bs)
unfolding erase_one
erase_one-erase meta i text bs = elim (Bool-cases (ltb i (length bs))) [
  | inl e ↦ rw e refl
  | inr e ↦ elim (Bool-cases (any_same text meta)) [
    | inl f ↦ rw (e, f) (sym (erase_long i bs e))
    | inr f ↦ rw (e, f) refl
  ]
]

erase_all-kept :
    {B : Type 0}
    → (meta : List Bytes) (cs : List (ℕ × Bytes)) (bs : List B) → AreIncreasing cs
    → erase_all meta cs bs ≡ kept meta cs 0 bs
unfolding erase_all
erase_all-kept meta [] bs h = sym (kept-none meta 0 bs)
erase_all-kept meta ((i, text) ∷ cs) bs (h, hs) =
    erase_one-erase meta i text (erase_all meta cs bs) ∙ elim (Bool-cases (any_same text meta)) [
      | inl e ↦
          rw (e, erase_all-kept meta cs bs hs)
            (sym (kept-erase meta i text cs i 0 bs (omega arith) e h))
      | inr e ↦ rw (e, erase_all-kept meta cs bs hs) (sym (kept-missing meta i text cs 0 bs e))
    ]

-- Where the positions of the candidates increase, exactly the blocks at those positions are dropped
-- whose text is one of the metadata of the document as it was, and all others are kept in their
-- order.
pub drop_duplicated-kept :
    {B : Type 0}
    → (kind : B → String) (texts : B → List Bytes) (cs : List (ℕ × Bytes)) (bs : List B)
    → AreIncreasing cs
    → drop_duplicated kind texts cs bs ≡ kept (meta_text kind texts bs) cs 0 bs
unfolding drop_duplicated
drop_duplicated-kept kind texts [] bs h = sym (kept-none (meta_text kind texts bs) 0 bs)
drop_duplicated-kept kind texts (c ∷ cs) bs h =
    erase_all-kept (meta_text kind texts bs) (c ∷ cs) bs h
