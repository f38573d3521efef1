-- ===== src/WikiReader.antt =====
-- libpanduck/src/mediawiki.cpp: the reader of MediaWiki documents. A table takes the lines up to its
-- end, and gives those behind it.
pub mod Runs
pub mod Builder
pub mod Tables
pub mod Rounds
pub mod Lists
pub mod Fuel
use duckdb_panduck.Base.{
  ℕ, zero, suc, ◌+◌, Bool, true, false, not, ◌&&◌, ◌||◌, List, [], ◌∷◌, ◌++◌, map, reverse, Option,
  none, some, if◌then◌else◌, ltb, length,
}
use duckdb_panduck.Blocks.Json.{build_table_json}
use duckdb_panduck.Blocks.{Block}
use duckdb_panduck.MediaWiki.Markup.{Line, LineKind, trimmed, split_cells}
use duckdb_panduck.MediaWiki.{scan_mediawiki}
use duckdb_panduck.Text.{Bytes, codes, empty}
use duckdb_panduck.Vocabulary.{
  same_name, kind_block, kind_inline, type_table, type_hr, encoding_text, encoding_json,
}
use duckdb_panduck.WikiReader.Builder.{
  MwBlock, State, mw_block, no_state, push, flush_paragraph, flush_pre, flush, close_lists,
  close_all, heading_block, template_block, behavior_block, html_block, list_item, file_link,
}
use duckdb_panduck.WikiReader.Runs.{MwInline, plain_text}

-- The cells of a table so far; the rows stand newest first.
pub record Cells : Type 0 where
  pub headers : List Bytes
  pub rows : List (List Bytes)
  pub current : List Bytes
  pub started : Bool

abbrev pub no_cells : Cells
no_cells = record { headers = []; rows = []; current = []; started = false }

abbrev pub plain_cells : ℕ → Bytes → List Bytes
plain_cells sep text = map plain_text (split_cells text sep)

abbrev pub next_row : Cells → Cells
next_row t = record t {
  rows = if t.started then t.current ∷ t.rows else t.rows;
  current = [];
  started = true;
}

-- One round of the loop of Table.
unfoldable pub cell_line : LineKind → Bytes → Cells → Cells
cell_line LineKind.table_header text t = record t { headers = t.headers ++ plain_cells b'!' text }
cell_line LineKind.table_row text t = next_row t
cell_line LineKind.table_cell text t = record t {
  current = t.current ++ plain_cells b'|' text;
  started = true;
}
cell_line _ text t = t

abbrev pub is_table_end : LineKind → Bool
is_table_end LineKind.table_end = true
is_table_end _ = false

-- The cells up to the end of the table, and the lines behind it.
unfoldable pub cells_from : Cells → List Line → Cells × List Line
cells_from t [] = (t, [])
cells_from t (l ∷ ls) =
    let more : Cells × List Line = cells_from (cell_line l.kind l.text t) ls in
    if is_table_end l.kind then (t, ls) else more

abbrev pub is_nil : List Bytes → Bool
is_nil [] = true
is_nil (c ∷ cs) = false

-- The rows in their order; a last one without cells is left out.
unfoldable pub table_rows : Cells → List (List Bytes)
table_rows t = reverse (if is_nil t.current then t.rows else t.current ∷ t.rows)

abbrev pub table_block : Cells → MwBlock
table_block t = record (mw_block type_table 1 (build_table_json t.headers (table_rows t)) []) {
  encoding = encoding_json;
}

-- `Table`
abbrev pub table : List Line → State → State × List Line
table ls st =
    let found : Cells × List Line = cells_from no_cells ls in
    (push (table_block found.0) st, found.1)

abbrev pub joined : Bytes → Bytes → Bytes → Bytes
joined between old new = if empty old then new else old ++ (between ++ new)

abbrev pub pre_line : Line → State → State
pre_line l st = record st { pre = joined (10 ∷ []) st.pre l.text }

abbrev pub add_para : Line → State → State
add_para l st = record st { para = joined (codes " ") st.para l.text }

abbrev pub figure_or_para : Line → State → Option (List MwBlock) → State
figure_or_para l st none = add_para l st
figure_or_para l st (some bs) = record st { blocks = bs ++ st.blocks }

abbrev pub text_line : Line → State → State
text_line l st = figure_or_para l st (if empty st.para then file_link (trimmed l.text) else none)

-- The `switch` on the kind of line `l`: the state after it and the lines that are left.
unfoldable pub step_at : LineKind → State → Line → List Line → State × List Line
step_at LineKind.blank st l ls = (flush st, ls)
step_at LineKind.comment st l ls = (flush st, ls)
step_at LineKind.heading st l ls = (push (heading_block l) (close_all st), ls)
step_at LineKind.hrule st l ls = (push (mw_block type_hr 1 [] []) (close_all st), ls)
step_at LineKind.template st l ls = (push (template_block l) (close_all st), ls)
step_at LineKind.behavior st l ls = (push (behavior_block l) (close_all st), ls)
step_at LineKind.html_block st l ls = (html_block l (close_all st), ls)
step_at LineKind.preformatted st l ls = (pre_line l st, ls)
step_at LineKind.list_item st l ls = (list_item l (flush_pre (flush_paragraph st)), ls)
step_at LineKind.table_start st l ls = table ls (close_all st)
step_at LineKind.text st l ls = (text_line l (close_lists (flush_pre st)), ls)
step_at _ st l ls = (add_para l (flush_pre st), ls)

-- One round of the loop over the lines.
abbrev pub step : State → Line → List Line → State × List Line
step st l ls = step_at l.kind st l ls

-- Every round takes a line at least.
unfoldable pub build_loop : ℕ → State → List Line → State
build_loop zero st ls = st
build_loop (suc fuel) st [] = st
build_loop (suc fuel) st (l ∷ ls) =
    let next : State × List Line = step st l ls in build_loop fuel next.0 next.1

-- `ParseMediaWikiString`
unfoldable pub parse_mediawiki_string : Bytes → List MwBlock
parse_mediawiki_string src =
    let lines : List Line = scan_mediawiki src in
    reverse (close_all (build_loop (length lines) no_state lines)).blocks

abbrev pub block_level : MwBlock → ℕ
block_level b = if ltb 0 b.level then b.level else 1

unfoldable pub block_row : ℕ → MwBlock → Block
block_row order b = record {
  kind = if same_name b.kind "" then kind_block else b.kind;
  element_type = b.element_type;
  content = some b.content;
  level = block_level b;
  encoding = if same_name b.encoding "" then encoding_text else b.encoding;
  attributes = b.attributes;
  element_order = order;
}

unfoldable pub inline_row : ℕ → ℕ → MwInline → Block
inline_row order level r = record {
  kind = kind_inline;
  element_type = r.element_type;
  content = some r.content;
  level = if ltb 0 r.level then r.level else suc level;
  encoding = if same_name r.encoding "" then encoding_text else r.encoding;
  attributes = r.attributes;
  element_order = order;
}

abbrev pub inline_rows : ℕ → ℕ → List MwInline → List Block
inline_rows order level [] = []
inline_rows order level (r ∷ rs) = inline_row order level r ∷ inline_rows (suc order) level rs

-- The rows of the blocks, numbered from `order`.
unfoldable pub rows_from : ℕ → List MwBlock → List Block
rows_from order [] = []
rows_from order (b ∷ bs) =
    block_row order b
    ∷ (inline_rows (suc order) (block_level b) b.inlines
        ++ rows_from (suc order + length b.inlines) bs)

-- `ReadMediaWiki`
unfoldable pub read_mediawiki : Bytes → List Block
read_mediawiki src = rows_from 0 (parse_mediawiki_string src)
