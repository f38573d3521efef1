-- ===== src/Text/Lines.antt =====
-- Lines of a text.
use duckdb_panduck.Base.{
  ℕ, ◌≡◌, ◌≢◌, refl, ◌∙◌, List, [], ◌∷◌, ◌++◌, arith, ◌==◌, All, inl, inr, Bool-cases,
}
use duckdb_panduck.Text.{Bytes, split_lines, cons_line}

abbrev pub Lacks : ℕ → Bytes → Type 0
Lacks b = All (λ c. c ≢ b)

-- The lines with a newline between each two.
abbrev pub join_lines : List Bytes → Bytes
join_lines [] = []
join_lines (l ∷ []) = l
join_lines (l ∷ m ∷ ls) = l ++ (b'\n' ∷ join_lines (m ∷ ls))

pub split_lines-ne-nil : (s : Bytes) → split_lines s ≢ []
unfolding split_lines
split_lines-ne-nil [] = cc
split_lines-ne-nil (c ∷ s) = elim (Bool-cases (c == b'\n')) [
  | inl e ↦ rw e (cc)
  | inr e ↦ rw e (cons_line-ne-nil c (split_lines s))
]
  where
    cons_line-ne-nil : (c : ℕ) (ls : List Bytes) → cons_line c ls ≢ []
    cons_line-ne-nil c [] = cc
    cons_line-ne-nil c (l ∷ ls) = cc

join_lines-nil : (ls : List Bytes) → ls ≢ [] → join_lines ([] ∷ ls) ≡ b'\n' ∷ join_lines ls
join_lines-nil [] h = absurd (h refl)
join_lines-nil (l ∷ ls) h = refl

join_lines-cons_line : (c : ℕ) (ls : List Bytes) → join_lines (cons_line c ls) ≡ c ∷ join_lines ls
join_lines-cons_line c [] = refl
join_lines-cons_line c (l ∷ []) = refl
join_lines-cons_line c (l ∷ m ∷ ls) = refl

pub join_lines-split_lines : (s : Bytes) → join_lines (split_lines s) ≡ s
unfolding split_lines
join_lines-split_lines [] = refl
join_lines-split_lines (c ∷ s) = elim (Bool-cases (c == b'\n')) [
  | inl e ↦ rw e (
      join_lines-nil (split_lines s) (split_lines-ne-nil s)
      ∙ ground (arith, join_lines-split_lines s))
  | inr e ↦ rw (e, join_lines-cons_line, join_lines-split_lines s)
]

cons_line-Lacks :
    (c : ℕ) (ls : List Bytes)
    → c ≢ b'\n'
    → All (Lacks b'\n') ls
    → All (Lacks b'\n') (cons_line c ls)
cons_line-Lacks c [] h hs = ((h, tt), tt)
cons_line-Lacks c (l ∷ ls) h hs = ((h, hs.0), hs.1)

pub split_lines-Lacks : (s : Bytes) → All (Lacks b'\n') (split_lines s)
unfolding split_lines
split_lines-Lacks [] = (tt, tt)
split_lines-Lacks (c ∷ s) = elim (Bool-cases (c == b'\n')) [
  | inl e ↦ rw e (tt, split_lines-Lacks s)
  | inr e ↦ rw e (cons_line-Lacks c (split_lines s) (ground arith) (split_lines-Lacks s))
]

-- A line in front of the rest of a text.
pub split_lines-line :
    (l rest : Bytes) → Lacks b'\n' l → split_lines (l ++ (b'\n' ∷ rest)) ≡ l ∷ split_lines rest
unfolding split_lines
split_lines-line [] rest h = refl
split_lines-line (c ∷ l) rest h = ground (arith, split_lines-line l rest h.1)

pub split_lines-single : (l : Bytes) → Lacks b'\n' l → split_lines l ≡ l ∷ []
unfolding split_lines
split_lines-single [] h = refl
split_lines-single (c ∷ l) h = ground (arith, split_lines-single l h.1)
