-- ===== src/Org/Lines.antt =====
-- The scan of an Org document, line by line (libpanduck/src/org_scanner.cpp).
use duckdb_panduck.Base.{◌≡◌, ◌≢◌, refl, ap, ◌∙◌, List, [], ◌∷◌, ◌++◌, map, if◌then◌else◌}
use duckdb_panduck.Org.{Line, is_blank_line, classify, drop_last_blank, scan_org}
use duckdb_panduck.Text.Lines.{Lacks, split_lines-line, split_lines-single, split_lines-ne-nil}
use duckdb_panduck.Text.{Bytes, split_lines}

drop_last_blank-cons :
    (l : Line) (ls : List Line) → ls ≢ [] → drop_last_blank (l ∷ ls) ≡ l ∷ drop_last_blank ls
unfolding drop_last_blank
drop_last_blank-cons l [] h = absurd (h refl)
drop_last_blank-cons l (m ∷ ls) h = refl

map-ne-nil : {A B : Type 0} (f : A → B) (xs : List A) → xs ≢ [] → map f xs ≢ []
map-ne-nil f [] h = absurd (h refl)
map-ne-nil f (x ∷ xs) h = cc

-- The scanner works line by line: what it says of a line depends on that line alone, and on no line
-- before or behind it.
scan_org-line :
    (l rest : Bytes) → Lacks b'\n' l → scan_org (l ++ (b'\n' ∷ rest)) ≡ classify l ∷ scan_org rest
unfolding scan_org
scan_org-line l rest h =
    ap (λ ls. drop_last_blank (map classify ls)) (split_lines-line l rest h)
    ∙ drop_last_blank-cons (classify l) (map classify (split_lines rest))
        (map-ne-nil classify (split_lines rest) (split_lines-ne-nil rest))

-- A document that is one line without a newline gives no line if it is blank, and otherwise what the
-- scanner says of that line.
scan_org_last :
    (l : Bytes)
    → Lacks b'\n' l
    → scan_org l ≡ (if is_blank_line (classify l) then [] else classify l ∷ [])
unfolding scan_org drop_last_blank
scan_org_last l h = ap (λ ls. drop_last_blank (map classify ls)) (split_lines-single l h)
