-- ===== src/Examples/Scanners.antt =====
-- Small documents for libpanduck/src/org_scanner.cpp, rst_scanner.cpp and textile_scanner.cpp.
use duckdb_panduck.Base.{◌-◌, ◌≡◌, refl, [], ◌∷◌, some, arith, map}
use duckdb_panduck.Org
use duckdb_panduck.Rst.Adornment.{run, IsPlainAdornment, classify-run}
use duckdb_panduck.Rst.Runs.{AreRuns, simple_sep_of-AreRuns}
use duckdb_panduck.Rst
use duckdb_panduck.Text.{codes, split_lines, trim, take_while, find_text}
use duckdb_panduck.Textile.Heading.{heading_source, heading_line, scan_step-heading}
use duckdb_panduck.Textile.Marks.{titled, parse_marker-titled}
use duckdb_panduck.Textile.Row.{row_end, IsCell, split_row-row}
use duckdb_panduck.Textile

simple_sep_of-AreRuns_example :
    AreRuns 11 0
      (Rst.simple_sep_of (codes "=====  ====")).widths
      (Rst.simple_sep_of (codes "=====  ====")).starts
simple_sep_of-AreRuns_example = simple_sep_of-AreRuns (codes "=====  ====")

abbrev plain : Textile.Marker
plain = record { name = codes "p"; style = []; css_class = []; id = [] }

parse_marker-titled_example :
    Textile.parse_marker (titled (codes "h1") (codes "cls") (codes "top") (codes "Title"))
    ≡ some (
      record { name = codes "h1"; style = []; css_class = codes "cls"; id = codes "top" },
      codes "Title",
    )
parse_marker-titled_example =
    parse_marker-titled (codes "h1") (codes "cls") (codes "top") (codes "Title") (cc)
      (refl, (refl, tt)) (ground arith) (ground arith)

IsCell-words : IsCell (codes "a b")
IsCell-words = record { barless = ground arith; opens = refl; ends = refl }

IsCell-empty : IsCell []
IsCell-empty = record { barless = tt; opens = tt; ends = tt }

split_row-row_example :
    Textile.split_row (b'|' ∷ row_end (codes "a b") ([] ∷ [])) ≡ codes "a b" ∷ [] ∷ []
split_row-row_example = split_row-row (codes "a b") ([] ∷ []) IsCell-words (IsCell-empty, tt)

-- A definition with no term in front of its sign: `sep - 2` wraps around, so the term is all of the
-- line behind the marker.
scan_definition_empty_term :
    map (λ (l : Textile.Line). l.term) (Textile.scan_textile (codes "- := rest"))
    ≡ codes ":= rest" ∷ []
unfolding Textile.scan_textile Textile.scan_lines Textile.source_lines split_lines Textile.scan_step
    trim Textile.pop_cr Textile.scan_simple Textile.scan_list take_while Textile.scan_definition
    find_text
scan_definition_empty_term = refl

IsPlainAdornment-dash : IsPlainAdornment b'-'
IsPlainAdornment-dash = record {
  adorns = refl;
  no_dot = ground arith;
  no_plus = ground arith;
  no_bar = ground arith;
  no_equals = ground arith;
}

classify-run_example :
    Rst.classify (run 3 b'-')
    ≡ record (Rst.line 0) { kind = Rst.adornment; adornment = b'-'; text = run 3 b'-' }
classify-run_example = classify-run 3 b'-' IsPlainAdornment-dash

scan_step-heading_example :
    Textile.scan_step
      (heading_source b'2' (codes "c") (codes "top") (codes "Title"))
      (codes "x" ∷ [])
    ≡ (
      heading_line
          (heading_source b'2' (codes "c") (codes "top") (codes "Title"))
          (b'2' - b'0')
          (codes "c")
          (codes "top")
          (codes "Title"),
      codes "x" ∷ [],
    )
scan_step-heading_example =
    scan_step-heading b'2' (codes "c") (codes "top") (codes "Title") (codes "x" ∷ []) refl (cc) refl
      refl (ground arith) (ground arith)
