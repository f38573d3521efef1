-- ===== src/MediaWiki/Tables.antt =====
-- The table state of the scan of a MediaWiki document (libpanduck/src/mediawiki_scanner.cpp).
use duckdb_panduck.Base.{
  ℕ, zero, suc, ◌≤◌, ◌≡◌, refl, sym, ap, Bool, true, false, List, [], ◌∷◌, arith, length, inl, inr,
  Bool-cases, if◌then◌else◌,
}
use duckdb_panduck.MediaWiki.Markup.{
  table_start, Line, make, trimmed, brace_delta, opens_with, source_lines,
}
use duckdb_panduck.MediaWiki.Outside.{
  may_stand, open_after, IsRound, if-IsRound, scan_plain-IsRound,
}
use duckdb_panduck.MediaWiki.Rounds.{gather_left}
use duckdb_panduck.MediaWiki.{
  as_is, scan_template, scan_table, table_line, scan_plain, scan_round, scan_lines, scan_mediawiki,
}
use duckdb_panduck.Text.{Bytes, codes, empty, starts_with}

-- Lines in which tables open and close in turn, with their rows, cells and headers inside of them,
-- and all other structure outside.
abbrev pub AreTables : Bool → List Line → Type 0
AreTables inside [] = Unit
AreTables inside (l ∷ ls) =
    (may_stand inside l.kind ≡ true) × AreTables (open_after inside l.kind) ls

-- A line inside a table is one that may stand there, and closes the table or leaves it open.
table_line-IsRound :
    (t : Bytes) (rest : List Bytes) → IsRound true (length rest) (scan_table t rest)
unfolding scan_table table_line
table_line-IsRound t rest =
    let closes = starts_with (codes "|}") t in
    let separates = starts_with (codes "|-") t in
    elim (Bool-cases closes) [
      | inl e ↦ rw e (record { stands = refl; opens = refl; left = omega arith })
      | inr e ↦ rw e (elim (Bool-cases separates) [
        | inl k ↦ rw k (record { stands = refl; opens = refl; left = omega arith })
        | inr k ↦ rw k (elim (Bool-cases (opens_with b'!' t)) [
          | inl m ↦ rw m (record { stands = refl; opens = refl; left = omega arith })
          | inr m ↦ rw m (elim (Bool-cases (opens_with b'|' t)) [
            | inl q ↦ rw q (record { stands = refl; opens = refl; left = omega arith })
            | inr q ↦ rw q (record { stands = refl; opens = refl; left = omega arith })
          ])
        ])
      ])
    ]

scan_template-IsRound :
    (inside : Bool) (raw : Bytes) (rest : List Bytes)
    → IsRound inside (length rest) (scan_template inside raw rest)
unfolding scan_template
scan_template-IsRound inside raw rest = record {
  stands = refl;
  opens = refl;
  left = gather_left as_is rest (brace_delta raw) raw;
}

scan_round-IsRound :
    (inside : Bool) (raw : Bytes) (rest : List Bytes)
    → IsRound inside (length rest) (scan_round inside raw rest)
unfolding scan_round
scan_round-IsRound inside raw rest =
    let t = trimmed raw in
    if-IsRound (empty t) _ _ (record { stands = refl; opens = refl; left = omega arith })
      (if-IsRound (starts_with (codes "{{") t) _ _ (scan_template-IsRound inside raw rest)
        (by_state inside t))
  where
    by_state :
        (inside : Bool) (t : Bytes)
        → IsRound inside (length rest) (
            if inside
            then scan_table t rest
            else if starts_with (codes "{|") t
            then record { line = make table_start []; in_table = true; rest = rest }
            else scan_plain raw t rest)
    by_state true t = table_line-IsRound t rest
    by_state false t =
        if-IsRound (starts_with (codes "{|") t) _ _
          (record { stands = refl; opens = refl; left = omega arith })
          (scan_plain-IsRound raw t rest)

scan_lines-AreTables :
    (fuel : ℕ) (inside : Bool) (ls : List Bytes) → AreTables inside (scan_lines fuel inside ls)
unfolding scan_lines
scan_lines-AreTables zero inside ls = tt
scan_lines-AreTables (suc fuel) inside [] = tt
scan_lines-AreTables (suc fuel) inside (raw ∷ rest) =
    let r = scan_round-IsRound inside raw rest in
    let round = scan_round inside raw rest in
    (r.stands, rw (sym r.opens) (scan_lines-AreTables fuel round.in_table round.rest))

-- For every document the scan keeps to the table state: a table opens only where none is open and
-- closes only where one is, rows, cells and headers stand only inside a table, and headings, lists,
-- rules, preformatted lines, switches, comments and HTML blocks only outside.
pub scan_mediawiki-AreTables : (src : Bytes) → AreTables false (scan_mediawiki src)
unfolding scan_mediawiki
scan_mediawiki-AreTables src =
    scan_lines-AreTables (length (source_lines src)) false (source_lines src)

-- The scan never runs out of fuel: any fuel from the number of lines on gives the same result.
scan_lines_enough :
    (fuel k : ℕ) (inside : Bool) (ls : List Bytes)
    → length ls ≤ fuel
    → length ls ≤ k
    → scan_lines fuel inside ls ≡ scan_lines k inside ls
unfolding scan_lines
scan_lines_enough zero zero inside [] h hk = refl
scan_lines_enough zero (suc k) inside [] h hk = refl
scan_lines_enough (suc fuel) zero inside [] h hk = refl
scan_lines_enough (suc fuel) (suc k) inside [] h hk = refl
scan_lines_enough zero k inside (l ∷ ls) h hk = absurd (omega arith)
scan_lines_enough (suc fuel) zero inside (l ∷ ls) h hk = absurd (omega arith)
scan_lines_enough (suc fuel) (suc k) inside (l ∷ ls) h hk =
    let r = scan_round-IsRound inside l ls in
    let round = scan_round inside l ls in
    let left = r.left in
    ap (λ x. round.line ∷ x)
      (scan_lines_enough fuel k round.in_table round.rest (omega arith) (omega arith))
