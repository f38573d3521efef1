-- ===== src/TextileReader.antt =====
-- libpanduck/src/textile.cpp: the reader of Textile documents. A branch that goes on in the lines,
-- for a listing or a table, gives the lines behind it.
pub mod Runs
pub mod Builder
pub mod Words
pub mod Rounds
use duckdb_panduck.Base.{
  ℕ, zero, suc, ◌+◌, Bool, true, false, not, ◌&&◌, ◌||◌, List, [], ◌∷◌, ◌++◌, map, reverse, Option,
  none, some, if◌then◌else◌, ltb, length, drop, ◌==◌,
}
use duckdb_panduck.Blocks.Json.{build_table_json}
use duckdb_panduck.Blocks.{Block, Attributes}
use duckdb_panduck.Text.{Bytes, codes, empty, take_while, drop_while, any_byte}
use duckdb_panduck.Textile.{Line, LineKind, trimmed, opens_with, scan_textile, split_row}
use duckdb_panduck.TextileReader.Builder.{
  TxBlock, State, tx_block, no_state, push, flush_paragraph, close_lists, close_all, heading_block,
  blockquote, code_block, raw_block, list_item,
}
use duckdb_panduck.TextileReader.Runs.{TxInline}
use duckdb_panduck.Vocabulary.{
  same_name, kind_block, kind_inline, type_table, encoding_text, encoding_json,
}

abbrev pub is_modifier : ℕ → Bool
is_modifier c = any_byte (λ d. d == c) (codes "<>=^~-_")

-- `StripCellModifier`: the cell without it, and whether it marks a header
unfoldable pub strip_cell_modifier : Bytes → Bool × Bytes
strip_cell_modifier v =
    let marks : Bytes = take_while is_modifier v in
    let rest : Bytes = drop_while is_modifier v in
    if not (empty marks) && opens_with b'.' rest
    then (any_byte (λ c. c == b'_') marks, trimmed (drop 1 rest))
    else (false, v)

abbrev pub is_markup : ℕ → Bool
is_markup c = any_byte (λ d. d == c) (codes "*_@^~%+")

-- `PlainText`
unfoldable pub plain_text : Bytes → Bytes
plain_text [] = []
plain_text (c ∷ s) = let rest = plain_text s in if is_markup c then rest else c ∷ rest

abbrev pub is_table_row : Line → Bool
is_table_row l = elim (l.kind) [ LineKind.table_row ↦ true | _ ↦ false ]

abbrev pub is_header : List Bytes → Bool
is_header [] = false
is_header (cell ∷ cells) = (strip_cell_modifier cell).0 || is_header cells

abbrev pub values : List Bytes → List Bytes
values cells = map (λ cell. plain_text (strip_cell_modifier cell).1) cells

abbrev pub no_cells : List Bytes → Bool
no_cells [] = true
no_cells (c ∷ cells) = false

-- The headers, the rows, newest first, and the lines behind the table.
pub record TableRows : Type 0 where
  pub headers : List Bytes
  pub rows : List (List Bytes)
  pub rest : List Line

unfoldable pub table_rows : List Bytes → List (List Bytes) → List Line → TableRows
table_rows headers rows [] = record { headers = headers; rows = rows; rest = [] }
table_rows headers rows (l ∷ ls) =
    let cells : List Bytes = split_row l.text in
    let heads : Bool = is_header cells && no_cells headers in
    let more : TableRows =
      table_rows (if heads then values cells else headers)
        (if heads then rows else values cells ∷ rows) ls in
    if is_table_row l then more else record { headers = headers; rows = rows; rest = l ∷ ls }

abbrev pub table_block : TableRows → TxBlock
table_block t = record (tx_block type_table 1 []) {
  content = build_table_json t.headers (reverse t.rows);
  encoding = encoding_json;
}

-- `Table`
abbrev pub table : List Line → State → State × List Line
table ls st = let t : TableRows = table_rows [] [] ls in (push (table_block t) st, t.rest)

abbrev pub is_blank : Line → Bool
is_blank l = elim (l.kind) [ LineKind.blank ↦ true | _ ↦ false ]

-- The content of a listing that starts with `content`, and the lines behind it.
unfoldable pub listing : Bytes → List Line → Bytes × List Line
listing content [] = (content, [])
listing content (l ∷ ls) =
    let more : Bytes × List Line = listing (content ++ (10 ∷ l.raw)) ls in
    if is_blank l then (content, l ∷ ls) else more

abbrev pub code : Line → List Line → State → State × List Line
code l ls st =
    let found : Bytes × List Line = listing l.text ls in (push (code_block l found.0) st, found.1)

abbrev pub text_line : Line → State → State
text_line l st = record (close_lists st) {
  para = if empty st.para then l.text else st.para ++ (b' ' ∷ l.text);
}

abbrev pub para_line : Line → State → State
para_line l st = record st { para = l.text; pending_style = l.style; pending_class = l.css_class }

-- The `switch` on the kind of line `l`: the state after it and the lines that are left.
unfoldable pub step_at : LineKind → State → Line → List Line → State × List Line
step_at LineKind.blank st l ls = (close_all st, ls)
step_at LineKind.comment st l ls = (flush_paragraph st, ls)
step_at LineKind.heading st l ls = (push (heading_block l) (close_all st), ls)
step_at LineKind.blockquote st l ls = (blockquote l (close_all st), ls)
step_at LineKind.code_block st l ls = code l ls (close_all st)
step_at LineKind.notextile st l ls =
    (push (raw_block l.text (codes "notextile")) (close_all st), ls)
step_at LineKind.html_block st l ls = (push (raw_block l.text l.markers) (close_all st), ls)
step_at LineKind.list_item st l ls = (list_item l (flush_paragraph st), ls)
step_at LineKind.table_row st l ls = table (l ∷ ls) (close_all st)
step_at LineKind.para st l ls = (para_line l (close_all st), ls)
step_at LineKind.text st l ls = (text_line l st, ls)

-- One round of the loop over the lines.
abbrev pub step : State → Line → List Line → State × List Line
step st l ls = step_at l.kind st l ls

-- Every round takes a line at least.
unfoldable pub build_loop : ℕ → State → List Line → State
build_loop zero st ls = st
build_loop (suc fuel) st [] = st
build_loop (suc fuel) st (l ∷ ls) =
    let next : State × List Line = step st l ls in build_loop fuel next.0 next.1

-- `ParseTextileString`
unfoldable pub parse_textile_string : Bytes → List TxBlock
parse_textile_string src =
    let lines : List Line = scan_textile src in
    reverse (close_all (build_loop (length lines) no_state lines)).blocks

abbrev pub block_level : TxBlock → ℕ
block_level b = if ltb 0 b.level then b.level else 1

unfoldable pub block_row : ℕ → TxBlock → Block
block_row order b = record {
  kind = if same_name b.kind "" then kind_block else b.kind;
  element_type = b.element_type;
  content = some b.content;
  level = block_level b;
  encoding = if same_name b.encoding "" then encoding_text else b.encoding;
  attributes = b.attributes;
  element_order = order;
}

unfoldable pub inline_row : ℕ → ℕ → TxInline → Block
inline_row order level r = record {
  kind = kind_inline;
  element_type = r.element_type;
  content = some r.content;
  level = if ltb 0 r.level then r.level else suc level;
  encoding = encoding_text;
  attributes = r.attributes;
  element_order = order;
}

abbrev pub inline_rows : ℕ → ℕ → List TxInline → List Block
inline_rows order level [] = []
inline_rows order level (r ∷ rs) = inline_row order level r ∷ inline_rows (suc order) level rs

-- The rows of the blocks, numbered from `order`.
unfoldable pub rows_from : ℕ → List TxBlock → List Block
rows_from order [] = []
rows_from order (b ∷ bs) =
    block_row order b
    ∷ (inline_rows (suc order) (block_level b) b.inlines
        ++ rows_from (suc order + length b.inlines) bs)

-- `ReadTextile`
unfoldable pub read_textile : Bytes → List Block
read_textile src = rows_from 0 (parse_textile_string src)
