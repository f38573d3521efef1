-- ===== src/Textile/Heading.antt =====
-- Headings as a Textile document writes them (libpanduck/src/textile_scanner.cpp, ScanTextile).
use duckdb_panduck.Base.{ℕ, ◌-◌, ◌≡◌, ◌≢◌, refl, true, List, [], ◌∷◌, ◌++◌, arith, none, drop}
use duckdb_panduck.Textile.{
  Line, heading, line, is_trim, scan_simple, scan_list, scan_definition, scan_marked, scan_from,
  first_line, scan_step,
}
use duckdb_panduck.Textile.Marks.{titled, parse_marker-titled}
use duckdb_panduck.Text.Lines.{Lacks}
use duckdb_panduck.Text.Trim.{OpensSolid, EndsSolid, trim_id}
use duckdb_panduck.Text.{Bytes, take_while, within, is_alnum}

EndsSolid-append : (s t : Bytes) → t ≢ [] → EndsSolid is_trim t → EndsSolid is_trim (s ++ t)
EndsSolid-append [] t h k = k
EndsSolid-append (c ∷ []) [] h k = absurd (h refl)
EndsSolid-append (c ∷ []) (d ∷ t) h k = k
EndsSolid-append (c ∷ d ∷ s) t h k = EndsSolid-append (d ∷ s) t h k

-- `hN(class#id). title`
abbrev pub heading_source : ℕ → Bytes → Bytes → Bytes → Bytes
heading_source d cls id title = titled (b'h' ∷ d ∷ []) cls id title

-- The line that is expected of it.
abbrev pub heading_line : Bytes → ℕ → Bytes → Bytes → Bytes → Line
heading_line source level cls id title = record (line source) {
  kind = heading;
  level = level;
  css_class = cls;
  id = id;
  text = title;
}

append-ne-nil : (s t : Bytes) → t ≢ [] → s ++ t ≢ []
append-ne-nil [] t h = h
append-ne-nil (c ∷ s) t h = cc

heading_source-EndsSolid :
    (d : ℕ) (cls id title : Bytes)
    → title ≢ []
    → EndsSolid is_trim title
    → EndsSolid is_trim (heading_source d cls id title)
heading_source-EndsSolid d cls id title h k =
    let value = cls ++ (b'#' ∷ id) in
    let dotted = EndsSolid-append (b')' ∷ b'.' ∷ b' ' ∷ []) title h k in
    EndsSolid-append (b'h' ∷ d ∷ b'(' ∷ []) (value ++ (b')' ∷ b'.' ∷ b' ' ∷ title))
      (append-ne-nil value _ (cc)) (EndsSolid-append value (b')' ∷ b'.' ∷ b' ' ∷ title) (cc) dotted)

scan_from-heading :
    (source : Bytes) (d : ℕ) (cls id title : Bytes) (rest : List Bytes)
    → within b'1' b'6' d ≡ true
    → OpensSolid is_trim title
    → EndsSolid is_trim title
    → Lacks b'#' cls
    → Lacks b')' (cls ++ (b'#' ∷ id))
    → scan_from (line source) (heading_source d cls id title) rest
      ≡ (heading_line source (d - b'0') cls id title, rest)
unfolding scan_from scan_marked
scan_from-heading source d cls id title rest digit h k lacks closed =
    let alnum = digit_alnum d digit in
    rw (parse_marker-titled (b'h' ∷ d ∷ []) cls id title (cc) (refl, (alnum, tt)) lacks closed)
      (rw digit (rw (trim_id is_trim title h k) refl))
  where
    digit_alnum : (d : ℕ) → within b'1' b'6' d ≡ true → is_alnum d ≡ true
    digit_alnum d h = ground arith

-- No branch before the HTML blocks takes a line that opens with an `h`.
first_line-h : (l : Line) (d : ℕ) (s : Bytes) → first_line l (b'h' ∷ d ∷ s) ≡ none
unfolding scan_simple scan_list scan_definition take_while
first_line-h l d s = refl

-- A heading written as `hN(class#id). title`, N from 1 to 6 and the title without a blank at either
-- end, is read back as a heading of level N with this class, id and title, and no line behind it is
-- taken.
pub scan_step-heading :
    (d : ℕ) (cls id title : Bytes) (rest : List Bytes)
    → within b'1' b'6' d ≡ true
    → title ≢ []
    → OpensSolid is_trim title
    → EndsSolid is_trim title
    → Lacks b'#' cls
    → Lacks b')' (cls ++ (b'#' ∷ id))
    → scan_step (heading_source d cls id title) rest
      ≡ (heading_line (heading_source d cls id title) (d - b'0') cls id title, rest)
unfolding scan_step
scan_step-heading d cls id title rest digit ne h k lacks closed =
    let source = heading_source d cls id title in
    rw (trim_id is_trim source refl (heading_source-EndsSolid d cls id title ne k)) (
      rw (first_line-h (line source) d (drop 2 source))
        (scan_from-heading source d cls id title rest digit h k lacks closed))
