-- ===== src/Rst/Lines.antt =====
-- The scan of a reStructuredText document, line by line (libpanduck/src/rst_scanner.cpp).
use duckdb_panduck.Base.{◌≡◌, ◌≢◌, refl, ap, ◌∙◌, List, [], ◌∷◌, ◌++◌, map}
use duckdb_panduck.Rst.{Line, classify, drop_last_blank, scan_rst}
use duckdb_panduck.Text.Lines.{Lacks, split_lines-line, split_lines-ne-nil}
use duckdb_panduck.Text.{Bytes, split_lines}

blank-cons :
    (l : Line) (ls : List Line) → ls ≢ [] → drop_last_blank (l ∷ ls) ≡ l ∷ drop_last_blank ls
unfolding drop_last_blank
blank-cons l [] h = absurd (h refl)
blank-cons l (m ∷ ls) h = refl

classified-ne-nil : (xs : List Bytes) → xs ≢ [] → map classify xs ≢ []
classified-ne-nil [] h = absurd (h refl)
classified-ne-nil (x ∷ xs) h = cc

-- The scanner works line by line: what it says of a line depends on that line alone, and on no line
-- before or behind it.
scan_rst-line :
    (l rest : Bytes) → Lacks b'\n' l → scan_rst (l ++ (b'\n' ∷ rest)) ≡ classify l ∷ scan_rst rest
unfolding scan_rst
scan_rst-line l rest h =
    ap (λ ls. drop_last_blank (map classify ls)) (split_lines-line l rest h)
    ∙ blank-cons (classify l) (map classify (split_lines rest))
        (classified-ne-nil (split_lines rest) (split_lines-ne-nil rest))
