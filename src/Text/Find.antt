-- ===== src/Text/Find.antt =====
-- Searches in a text of known shape.
use duckdb_panduck.Base.{
  ℕ, zero, suc, ◌+◌, ◌≡◌, ◌≢◌, refl, ap, ◌∙◌, true, [], ◌∷◌, ◌++◌, none, some, arith, length, take,
  drop, inl, inr, Bool-cases, Option-cases,
}
use duckdb_panduck.Text.Lines.{Lacks}
use duckdb_panduck.Text.{Bytes, find, find_text, starts_with}

pub find-Lacks : (c : ℕ) (s t : Bytes) → Lacks c s → find c (s ++ (c ∷ t)) ≡ some (length s)
unfolding find
find-Lacks c [] t h = ground arith
find-Lacks c (d ∷ s) t h = ground (arith, find-Lacks c s t h.1)

pub take-append : (s t : Bytes) → take (length s) (s ++ t) ≡ s
take-append [] t = refl
take-append (c ∷ s) t = ap (λ x. c ∷ x) (take-append s t)

pub drop-append : (s t : Bytes) → drop (length s) (s ++ t) ≡ t
drop-append [] t = refl
drop-append (c ∷ s) t = drop-append s t

pub drop-suc-append : (s : Bytes) (c : ℕ) (t : Bytes) → drop (suc (length s)) (s ++ (c ∷ t)) ≡ t
drop-suc-append [] c t = refl
drop-suc-append (d ∷ s) c t = drop-suc-append s c t

pub starts_with-append : (p s : Bytes) → starts_with p (p ++ s) ≡ true
starts_with-append [] s = refl
starts_with-append (c ∷ p) s = ground (arith, starts_with-append p s)

-- A pattern without the byte `b` cannot reach past it.
pub starts_with-Lacks :
    (b : ℕ) (p s t : Bytes) → Lacks b p → starts_with p (s ++ (b ∷ t)) ≡ starts_with p s
starts_with-Lacks b [] s t h = refl
starts_with-Lacks b (c ∷ p) [] t h = ground arith
starts_with-Lacks b (c ∷ p) (d ∷ s) t h = ground (arith, starts_with-Lacks b p s t h.1)

pub find_text-append : (p s : Bytes) → p ≢ [] → find_text p (p ++ s) ≡ some 0
unfolding find_text
find_text-append [] s h = absurd (h refl)
find_text-append (c ∷ p) s h = rw (starts_with-append (c ∷ p) s)

-- The pattern stands behind the byte `b`, which it lacks, and nowhere before that.
pub find_text-behind :
    (b : ℕ) (p s t : Bytes)
    → Lacks b p
    → p ≢ []
    → find_text p s ≡ none
    → find_text p (s ++ (b ∷ (p ++ t))) ≡ some (suc (length s))
unfolding find_text
find_text-behind b [] s t h ne missing = absurd (ne refl)
find_text-behind b (c ∷ p) [] t h ne missing = ground (arith, find_text-append (c ∷ p) t ne)
find_text-behind b (c ∷ p) (d ∷ s) t h ne missing = ground (
  arith,
  starts_with-Lacks b (c ∷ p) (d ∷ s) (c ∷ (p ++ t)) h,
  find_text-behind b (c ∷ p) s t h ne,
)

pub take-suc-append :
    (s : Bytes) (c : ℕ) (t : Bytes) → take (suc (length s)) (s ++ (c ∷ t)) ≡ s ++ c ∷ []
take-suc-append [] c t = refl
take-suc-append (d ∷ s) c t = ap (λ x. d ∷ x) (take-suc-append s c t)

pub drop_add : (n m : ℕ) (s : Bytes) → drop (n + m) s ≡ drop m (drop n s)
drop_add zero m s = let e : 0 + m ≡ m = omega arith in ap (λ k. drop k s) e
drop_add (suc n) m [] =
    let e : suc n + m ≡ suc (n + m) = omega arith in ap (λ k. drop {A = ℕ} k []) e ∙ drop_nil m
  where
    drop_nil : (m : ℕ) → [] ≡ drop {A = ℕ} m []
    drop_nil zero = refl
    drop_nil (suc m) = refl
drop_add (suc n) m (c ∷ s) =
    let e : suc n + m ≡ suc (n + m) = omega arith in ap (λ k. drop k (c ∷ s)) e ∙ drop_add n m s

-- Past a text, the byte `c` and the text `p`.
pub drop_past :
    (s : Bytes) (c : ℕ) (p t : Bytes) → drop (suc (length s) + length p) (s ++ (c ∷ (p ++ t))) ≡ t
drop_past s c p t =
    drop_add (suc (length s)) (length p) (s ++ (c ∷ (p ++ t)))
    ∙ ap (drop (length p)) (drop-suc-append s c (p ++ t))
    ∙ drop-append p t

pub starts_with-split : (p s : Bytes) → starts_with p s ≡ true → s ≡ p ++ drop (length p) s
starts_with-split [] s h = refl
starts_with-split (c ∷ p) [] h = absurd (ground arith)
starts_with-split (c ∷ p) (d ∷ s) h = ground (arith, starts_with-split p s)

-- Where a pattern is found, it stands.
pub find_text-split :
    (p s : Bytes) (i : ℕ) → find_text p s ≡ some i → s ≡ take i s ++ (p ++ drop (i + length p) s)
unfolding find_text
find_text-split p [] i h = absurd (ground arith)
find_text-split p (d ∷ s) zero h = elim (Bool-cases (starts_with p (d ∷ s))) [
  | inl e ↦
      let l : length p ≡ 0 + length p = omega arith in
      starts_with-split p (d ∷ s) e ∙ ap (λ k. p ++ drop k (d ∷ s)) l
  | inr e ↦ elim (Option-cases (find_text p s)) [
    | inl f ↦ absurd (ground arith)
    | inr (j, f) ↦ absurd (ground arith)
  ]
]
find_text-split p (d ∷ s) (suc i) h = elim (Bool-cases (starts_with p (d ∷ s))) [
  | inl e ↦ absurd (ground arith)
  | inr e ↦ elim (Option-cases (find_text p s)) [
    | inl f ↦ absurd (ground arith)
    | inr (j, f) ↦
        let k : j ≡ i = ground arith in
        let l : suc (i + length p) ≡ suc i + length p = omega arith in
        ap (λ x. d ∷ x) (find_text-split p s i (f ∙ ap some k))
        ∙ ap (λ n. d ∷ (take i s ++ (p ++ drop n (d ∷ s)))) l
  ]
]
