-- ===== src/Textile/Steps.antt =====
-- The loop over the lines of a Textile document (libpanduck/src/textile_scanner.cpp, ScanTextile).
use duckdb_panduck.Base.{
  ℕ, zero, suc, ◌≤◌, ◌≡◌, refl, ap, ◌∙◌, List, [], ◌∷◌, ◌++◌, arith, length, inl, inr, Bool-cases,
  Option, none, some, map,
}
use duckdb_panduck.Textile.{
  Line, line, trimmed, html_loop, scan_from, is_html_open, html_tag, closing_tag, line_or,
  first_line, scan_step, scan_lines, scan_textile, is_found, source_lines, pop_cr,
}
use duckdb_panduck.Text.Lines.{Lacks, split_lines-line}
use duckdb_panduck.Text.{Bytes, empty, find_text}

html_loop_left :
    (close : Bytes) (ls : List Bytes) (acc : Bytes) → length (html_loop close ls acc).1 ≤ length ls
unfolding html_loop
html_loop_left close [] acc = omega arith
html_loop_left close (l ∷ ls) acc =
    let rest = html_loop_left close ls (acc ++ (b'\n' ∷ trimmed l)) in
    elim (Bool-cases (is_found (find_text close acc))) [
      | inl e ↦ rw e (omega arith)
      | inr e ↦ rw e (omega arith)
    ]

scan_from_left :
    (l : Line) (t : Bytes) (rest : List Bytes) → length (scan_from l t rest).1 ≤ length rest
unfolding scan_from
scan_from_left l t rest =
    let left = html_loop_left (closing_tag (html_tag t)) rest t in
    elim (Bool-cases (is_html_open t)) [ inl e ↦ rw e left | inr e ↦ rw e (omega arith) ]

line_or_left :
    (o : Option Line) (rest : List Bytes) (other : Line × List Bytes)
    → length other.1 ≤ length rest
    → length (line_or o rest other).1 ≤ length rest
line_or_left none rest other h = h
line_or_left (some l) rest other h = omega arith

-- A round of the loop leaves at most the lines behind the one that it reads.
scan_step_left :
    (source : Bytes) (rest : List Bytes) → length (scan_step source rest).1 ≤ length rest
unfolding scan_step
scan_step_left source rest =
    let left = scan_from_left (line source) (trimmed source) rest in
    elim (Bool-cases (empty (trimmed source))) [
      | inl e ↦ rw e (omega arith)
      | inr e ↦ rw e (
          line_or_left (first_line (line source) (trimmed source)) rest
            (scan_from (line source) (trimmed source) rest) left)
    ]

-- Any fuel from the number of lines on gives the same result.
pub scan_lines_fuel :
    (fuel k : ℕ) (ls : List Bytes)
    → length ls ≤ fuel
    → length ls ≤ k
    → scan_lines fuel ls ≡ scan_lines k ls
unfolding scan_lines
scan_lines_fuel zero zero [] h hk = refl
scan_lines_fuel zero (suc k) [] h hk = refl
scan_lines_fuel (suc fuel) zero [] h hk = refl
scan_lines_fuel (suc fuel) (suc k) [] h hk = refl
scan_lines_fuel zero k (l ∷ ls) h hk = absurd (omega arith)
scan_lines_fuel (suc fuel) zero (l ∷ ls) h hk = absurd (omega arith)
scan_lines_fuel (suc fuel) (suc k) (l ∷ ls) h hk =
    let left = scan_step_left l ls in
    ap (λ x. (scan_step l ls).0 ∷ x)
      (scan_lines_fuel fuel k (scan_step l ls).1 (omega arith) (omega arith))

-- The scan of all lines, with the fuel that the document gives.
abbrev scan_all : List Bytes → List Line
scan_all ls = scan_lines (length ls) ls

-- A document is scanned in rounds: the first line, without its carriage return, gives one line of
-- the result, takes the lines it needs for it, and those that it leaves are scanned in the same way.
scan_textile_round :
    (l rest : Bytes)
    → Lacks b'\n' l
    → scan_textile (l ++ (b'\n' ∷ rest))
      ≡ (scan_step (pop_cr l) (source_lines rest)).0
        ∷ scan_lines
            (length (scan_step (pop_cr l) (source_lines rest)).1)
            (scan_step (pop_cr l) (source_lines rest)).1
unfolding scan_textile source_lines scan_lines
scan_textile_round l rest h =
    let ls = source_lines rest in
    let first = pop_cr l in
    let left = scan_step_left first ls in
    ap (λ xs. scan_all (map pop_cr xs)) (split_lines-line l rest h)
    ∙ ap (λ x. (scan_step first ls).0 ∷ x)
        (scan_lines_fuel (length ls) (length (scan_step first ls).1) (scan_step first ls).1 left
          (omega arith))
