-- ===== src/MediaWiki.antt =====
-- libpanduck/src/mediawiki_scanner.cpp: the lines of a MediaWiki document, and the cells of a table
-- line. A round of the loop is `scan_round`: it has the line, the lines behind it and whether a table
-- is open. A branch of the loop body gives its round, or `none` to fall through.
pub mod Cells
pub mod Markup
pub mod Outside
pub mod Rounds
pub mod Tables
use duckdb_panduck.Base.{
  ℕ, zero, suc, ◌+◌, ◌-◌, ◌*◌, Bool, true, false, not, ◌&&◌, ◌||◌, List, [], ◌∷◌, ◌++◌, map, Option,
  none, some, length, take, drop, leb, ltb, ◌==◌, if◌then◌else◌, or_else,
}
use duckdb_panduck.Base.Int.{ℤ, pos, ◌+ℤ◌, ◌-ℤ◌, ltb_ℤ}
use duckdb_panduck.MediaWiki.Markup.{
  LineKind, blank, heading, list_item, preformatted, table_start, table_row, table_cell,
  table_header, table_end, hrule, template, behavior, comment, html_block, text, Line, make,
  trimmed, trim_end, source_lines, brace_delta, template_name, is_behavior_switch, opens_with,
  min_of, html_tag, html_known, pop_slash, only_tags, is_inline_owned, trailing_run, is_equals,
}
use duckdb_panduck.Text.{
  Bytes, codes, starts_with, find, find_text, take_while, drop_while, back, all_bytes, empty, at,
}

-- The line of a round, the state behind it, and the lines that are left.
pub record Round : Type 0 where
  pub line : Line
  pub in_table : Bool
  pub rest : List Bytes

-- The loop that takes more lines while braces are open; `f` is what a line adds.
unfoldable pub gather : (Bytes → Bytes) → List Bytes → ℤ → Bytes → Bytes × List Bytes
gather f [] depth acc = (acc, [])
gather f (l ∷ ls) depth acc =
    let more = gather f ls (depth +ℤ brace_delta l) (acc ++ (b'\n' ∷ f l)) in
    if ltb_ℤ (pos 0) depth then more else (acc, l ∷ ls)

abbrev pub as_is : Bytes → Bytes
as_is s = s

abbrev pub template_line : Bytes → Line
template_line acc = record (make template (trim_end acc)) { name = template_name (trimmed acc) }

unfoldable pub scan_template : Bool → Bytes → List Bytes → Round
scan_template inside raw rest =
    let (acc, left) = gather as_is rest (brace_delta raw) raw in
    record { line = template_line acc; in_table = inside; rest = left }

-- A line inside a table, with whether the table is open behind it.
unfoldable pub table_line : Bytes → Line × Bool
table_line t =
    if starts_with (codes "|}") t
    then (make table_end [], false)
    else if starts_with (codes "|-") t
    then (make table_row [], true)
    else if opens_with b'!' t
    then (make table_header (trimmed (drop 1 t)), true)
    else if opens_with b'|' t
    then (make table_cell (trimmed (drop 1 t)), true)
    else (make text t, true)

unfoldable pub scan_table : Bytes → List Bytes → Round
scan_table t rest =
    let (l, inside) = table_line t in record { line = l; in_table = inside; rest = rest }

-- The number of `=` that count, of a line that opens and closes with one.
unfoldable pub heading_size : Bytes → ℕ
heading_size t =
    min_of (length (take_while is_equals t)) (trailing_run is_equals (drop_while is_equals t))

unfoldable pub scan_heading : Bytes → Option Line
scan_heading t =
    let n = heading_size t in
    if opens_with b'=' t && leb 3 (length t) && back t == b'=' && leb 1 n && ltb (2 * n) (length t)
    then some (record (make heading (trimmed (take (length t - 2 * n) (drop n t)))) {
      level = min_of n 6;
    })
    else none

abbrev pub is_list_mark : ℕ → Bool
is_list_mark c = c == b'*' || c == b'#' || c == b';' || c == b':'

unfoldable pub scan_list : Bytes → Option Line
scan_list t =
    let marks = take_while is_list_mark t in
    if empty marks
    then none
    else some (record (make list_item (trimmed (drop_while is_list_mark t))) {
      markers = marks;
      level = length marks;
    })

abbrev pub is_dash : ℕ → Bool
is_dash c = c == b'-'

abbrev pub is_found : Option ℕ → Bool
is_found none = false
is_found (some n) = true

-- A rule, a behavior switch, or a comment.
unfoldable pub scan_simple : Bytes → Option Line
scan_simple t =
    if starts_with (codes "----") t && all_bytes is_dash t
    then some (make hrule [])
    else if is_behavior_switch t
    then some (record (make behavior t) { name = t })
    else if starts_with (codes "<!--") t && is_found (find_text (codes "-->") t)
    then some (make comment [])
    else none

-- The lines up to the one with the closing tag, and those behind it.
unfoldable pub html_loop : Bytes → List Bytes → Bytes → Bytes × List Bytes
html_loop close [] acc = (acc, [])
html_loop close (l ∷ ls) acc =
    let rest = html_loop close ls (acc ++ (b'\n' ∷ l)) in
    if is_found (find_text close acc) then (acc, l ∷ ls) else rest

abbrev pub closing_tag : Bytes → Bytes
closing_tag tag = codes "</" ++ tag ++ codes ">"

abbrev pub before : Bytes → Option ℕ → Bytes
before acc none = acc
before acc (some close) = take close acc

abbrev pub is_line_end : ℕ → Bool
is_line_end c = c == b'\n' || c == 13

-- Without the newlines that the tag stands on.
abbrev pub html_text : Bytes → Bytes
html_text s = trim_end (drop_while is_line_end s)

-- `close` is the end of the opening tag.
unfoldable pub html_round : Bytes → List Bytes → ℕ → Round
html_round t rest close =
    let tag = html_tag t in
    let attrs = pop_slash (trimmed (take (close - suc (length tag)) (drop (suc (length tag)) t))) in
    let l = record (make html_block []) { name = tag; attrs = attrs } in
    let (acc, left) = html_loop (closing_tag tag) rest (drop (suc close) t) in
    if at t (close - 1) == b'/'
    then record { line = l; in_table = false; rest = rest }
    else record {
      line = record l { text = html_text (before acc (find_text (closing_tag tag) acc)) };
      in_table = false;
      rest = left;
    }

abbrev pub html_at : Bytes → List Bytes → Option ℕ → Option Round
html_at t rest none = none
html_at t rest (some close) = some (html_round t rest close)

unfoldable pub scan_html : Bytes → List Bytes → Option Round
scan_html t rest =
    if opens_with b'<' t && ltb 2 (length t) && html_known (html_tag t)
    then html_at t rest (find b'>' t)
    else none

unfoldable pub scan_preformatted : Bytes → Option Line
scan_preformatted raw =
    if opens_with b' ' raw || opens_with 9 raw
    then some (make preformatted (drop 1 (trim_end raw)))
    else none

unfoldable pub scan_tags : Bytes → Option Line
scan_tags t =
    if opens_with b'<' t
      && back t == b'>'
      && only_tags false t
      && not (is_inline_owned (html_tag t))
    then some (record (make html_block t) { verbatim = true; name = html_tag t })
    else none

unfoldable pub scan_text : Bytes → List Bytes → Round
scan_text t rest =
    let (acc, left) = gather trimmed rest (brace_delta t) t in
    record { line = make text acc; in_table = false; rest = left }

abbrev pub round_or : Option Line → List Bytes → Round → Round
round_or none rest other = other
round_or (some l) rest other = record { line = l; in_table = false; rest = rest }

abbrev pub html_or : Option Round → Round → Round
html_or none other = other
html_or (some r) other = r

-- A line outside of any table.
unfoldable pub scan_plain : Bytes → Bytes → List Bytes → Round
scan_plain raw t rest = round_or (scan_heading t) rest (
    round_or (scan_list t) rest (
      round_or (scan_simple t) rest (
        html_or (scan_html t rest) (
          round_or (scan_preformatted raw) rest (round_or (scan_tags t) rest (scan_text t rest))))))

unfoldable pub scan_round : Bool → Bytes → List Bytes → Round
scan_round inside raw rest =
    let t = trimmed raw in
    if empty t
    then record { line = make blank []; in_table = inside; rest = rest }
    else if starts_with (codes "{{") t
    then scan_template inside raw rest
    else if inside
    then scan_table t rest
    else if starts_with (codes "{|") t
    then record { line = make table_start []; in_table = true; rest = rest }
    else scan_plain raw t rest

unfoldable pub scan_lines : ℕ → Bool → List Bytes → List Line
scan_lines zero inside ls = []
scan_lines (suc fuel) inside [] = []
scan_lines (suc fuel) inside (raw ∷ rest) =
    let r = scan_round inside raw rest in r.line ∷ scan_lines fuel r.in_table r.rest

unfoldable pub scan_mediawiki : Bytes → List Line
scan_mediawiki src = scan_lines (length (source_lines src)) false (source_lines src)
