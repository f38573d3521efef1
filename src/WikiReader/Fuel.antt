-- ===== src/WikiReader/Fuel.antt =====
-- The loops of libpanduck/src/mediawiki.cpp over bytes and over lines have fuel enough.
use duckdb_panduck.Base.{
  ℕ, zero, suc, ◌+◌, ◌≤◌, ◌≡◌, refl, ap, List, [], ◌∷◌, ◌++◌, Option, none, some, length, arith,
  Bool-cases, Option-cases, inl, inr, drop, drop_short,
}
use duckdb_panduck.MediaWiki.Markup.{Line, LineKind}
use duckdb_panduck.Text.{Bytes, codes, starts_with, find_text, drop_while}
use duckdb_panduck.WikiReader.Builder.{State}
use duckdb_panduck.WikiReader.Runs.{plain_link, plain_mark, plain_loop, is_quote}
use duckdb_panduck.WikiReader.{
  Cells, cells_from, cell_line, is_table_end, no_cells, step, step_at, build_loop,
}

cells_from_short : (t : Cells) (ls : List Line) → length (cells_from t ls).1 ≤ length ls
unfolding cells_from
cells_from_short t [] = omega arith
cells_from_short t (l ∷ ls) =
    let more = cells_from_short (cell_line l.kind l.text t) ls in
    elim (Bool-cases (is_table_end l.kind)) [
      | inl e ↦ rw e (omega arith)
      | inr e ↦ rw e (omega arith)
    ]

step_at_short :
    (k : LineKind) (st : State) (l : Line) (ls : List Line)
    → length (step_at k st l ls).1 ≤ length ls
unfolding step_at
step_at_short LineKind.table_start st l ls = cells_from_short no_cells ls
step_at_short _ st l ls = omega arith

-- The loop of Build has fuel enough with the number of the lines: more of it changes nothing.
pub build_loop_fuel :
    (fuel more : ℕ) (st : State) (ls : List Line)
    → length ls ≤ fuel
    → fuel ≤ more
    → build_loop fuel st ls ≡ build_loop more st ls
unfolding build_loop
build_loop_fuel zero zero st [] h k = refl
build_loop_fuel zero (suc more) st [] h k = refl
build_loop_fuel zero more st (l ∷ ls) h k = absurd (omega arith)
build_loop_fuel (suc fuel) zero st ls h k = absurd (omega arith)
build_loop_fuel (suc fuel) (suc more) st [] h k = refl
build_loop_fuel (suc fuel) (suc more) st (l ∷ ls) h k =
    let next = step st l ls in
    let short = step_at_short l.kind st l ls in
    build_loop_fuel fuel more next.0 next.1 (omega arith) (omega arith)

drop_while_short : (s : Bytes) → length (drop_while is_quote s) ≤ length s
unfolding drop_while
drop_while_short [] = omega arith
drop_while_short (c ∷ s) =
    let more = drop_while_short s in
    elim (Bool-cases (is_quote c)) [ inl e ↦ rw e (omega arith) | inr e ↦ rw e (omega arith) ]

-- What a construct leaves is shorter than the text by `n` at least.
abbrev Leaves : ℕ → Option (Bytes × Bytes) → Type 0
Leaves n none = Unit
Leaves n (some m) = length m.1 ≤ n

plain_link-Leaves : (s : Bytes) → Leaves (length s) (plain_link s)
plain_link-Leaves s = elim (Option-cases (find_text (codes "]]") s)) [
  | inl e ↦ rw (Leaves, e) tt
  | inr (n, e) ↦ rw (Leaves, e) (drop_short (n + 2) s)
]

Leaves-weaken : (n k : ℕ) (o : Option (Bytes × Bytes)) → n ≤ k → Leaves n o → Leaves k o
Leaves-weaken n k none h w = tt
Leaves-weaken n k (some m) h w = omega arith

plain_mark-Leaves : (c : ℕ) (s : Bytes) → Leaves (length s) (plain_mark (c ∷ s))
unfolding drop_while
plain_mark-Leaves c s = elim (Bool-cases (starts_with (codes "''") (c ∷ s))) [
  | inl e ↦ rw e (elim (Bool-cases (is_quote c)) [
    | inl f ↦ rw f (drop_while_short s)
    | inr f ↦ absurd (ground arith)
  ])
  | inr e ↦ elim (Bool-cases (starts_with (codes "[[") (c ∷ s))) [
    | inl f ↦
        rw (e, f)
          (Leaves-weaken (length (drop 1 s)) (length s) (plain_link (drop 1 s)) (drop_short 1 s)
            (plain_link-Leaves (drop 1 s)))
    | inr f ↦ rw (e, f) tt
  ]
]

-- The loop of PlainText has fuel enough with the length of the text.
pub plain_loop_fuel :
    (fuel more : ℕ) (s : Bytes)
    → length s ≤ fuel
    → fuel ≤ more
    → plain_loop fuel s ≡ plain_loop more s
unfolding plain_loop
plain_loop_fuel zero zero [] h k = refl
plain_loop_fuel zero (suc more) [] h k = refl
plain_loop_fuel zero more (c ∷ s) h k = absurd (omega arith)
plain_loop_fuel (suc fuel) zero s h k = absurd (omega arith)
plain_loop_fuel (suc fuel) (suc more) [] h k = refl
plain_loop_fuel (suc fuel) (suc more) (c ∷ s) h k =
    let left = plain_mark-Leaves c s in
    elim (Option-cases (plain_mark (c ∷ s))) [
      | inl e ↦
          rw (plain_loop, e)
            (ap (λ x. c ∷ x) (plain_loop_fuel fuel more s (omega arith) (omega arith)))
      | inr (m, e) ↦
          let w = rw e at left in
          rw (plain_loop, e)
            (ap (λ x. m.0 ++ x) (plain_loop_fuel fuel more m.1 (omega (arith, w)) (omega arith)))
    ]
