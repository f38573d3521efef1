-- ===== src/OrgReader.antt =====
-- libpanduck/src/org.cpp: the reader of Org documents. A branch that goes on in the lines, for a
-- block, a table or a drawer, gives the lines behind it.
pub mod Runs
pub mod Builder
pub mod Rows
pub mod Outline
pub mod Nesting
pub mod Rounds
pub mod Items
pub mod Steps
pub mod Values
pub mod Numbered
pub mod Whole
pub mod Marks
pub mod Spelling
use duckdb_panduck.Base.{
  ℕ, zero, suc, ◌+◌, Bool, true, false, not, ◌&&◌, ◌||◌, List, [], ◌∷◌, ◌++◌, map, reverse, Option,
  none, some, if◌then◌else◌, ltb, length, ◌==◌,
}
use duckdb_panduck.Blocks.Json.{build_table_json}
use duckdb_panduck.Blocks.{Block, Attributes, set_attribute, set_if, to_string}
use duckdb_panduck.Org.{Line, LineKind, is_space, not_space, scan_org}
use duckdb_panduck.OrgReader.Builder.{
  OrgBlock, State, org_block, no_state, depth, push, simple, emit, close_all, flush_paragraph,
  heading, item, keyword, metadata_blocks,
}
use duckdb_panduck.OrgReader.Runs.{Inline}
use duckdb_panduck.Text.{Bytes, codes, empty, same, find, take_while, trim}
use duckdb_panduck.Vocabulary.{
  kind_block, kind_inline, type_blockquote, type_paragraph, type_code, type_table, type_hr,
  encoding_text, encoding_json, attr_heading_level, attr_key, attr_role, attr_ordered_legacy,
  attr_list_type, list_type_ordered,
}

abbrev pub is_end : Bytes → Line → Bool
is_end name l = elim (l.kind) [ LineKind.block_end ↦ same l.key name | _ ↦ false ]

abbrev pub grown : Bytes → Bytes → Bytes
grown body text = body ++ ((if empty body then [] else 10 ∷ []) ++ text)

-- The body of a block, and the lines behind its end.
unfoldable pub block_body : Bytes → Bytes → List Line → Bytes × List Line
block_body name body [] = (body, [])
block_body name body (l ∷ ls) =
    let more : Bytes × List Line = block_body name (grown body l.text) ls in
    if is_end name l then (body, ls) else more

unfoldable pub language_of : Bytes → Bytes → Bytes
language_of name arg = if same name (codes "SRC") then take_while not_space arg else []

abbrev pub code_block : Bytes → Bytes → Bytes → ℕ → OrgBlock
code_block name arg body level = record (org_block type_code level) {
  content = body;
  language = language_of name arg;
}

unfoldable pub body_blocks : Line → Bytes → State → State
body_blocks line body st =
    if same line.key (codes "QUOTE")
    then emit type_paragraph body (suc (depth st.lists)) "" (simple type_blockquote st)
    else push (code_block line.key line.text body (depth st.lists)) st

-- `Block`
abbrev pub block : Line → List Line → State → State × List Line
block line ls st =
    let found : Bytes × List Line = block_body line.key [] ls in
    (body_blocks line found.0 st, found.1)

-- The cells up to a bar; what stands behind the last one is no cell.
unfoldable pub cells_behind : Bytes → Bytes → List Bytes
cells_behind cur [] = []
cells_behind cur (c ∷ s) =
    let rest = cells_behind (if c == b'|' then [] else cur ++ c ∷ []) s in
    if c == b'|' then trim is_space cur ∷ rest else rest

-- `TableCells`
unfoldable pub table_cells : Bytes → List Bytes
table_cells [] = []
table_cells (c ∷ s) = let rest = table_cells s in if c == b'|' then cells_behind [] s else rest

pub record TableRow : Type 0 where
  pub cells : List Bytes
  pub ruled : Bool

-- A rule behind a row marks it.
abbrev pub rule_last : List TableRow → List TableRow
rule_last [] = []
rule_last (r ∷ rs) = record r { ruled = true } ∷ rs

abbrev pub is_rule : Line → Bool
is_rule l = elim (l.kind) [ LineKind.table_rule ↦ true | _ ↦ false ]

abbrev pub is_row : Line → Bool
is_row l = elim (l.kind) [ LineKind.table_row ↦ true | _ ↦ false ]

abbrev pub next_rows : List TableRow → Line → List TableRow
next_rows rows l =
    if is_rule l
    then rule_last rows
    else record { cells = table_cells l.text; ruled = false } ∷ rows

-- The rows, newest first, and the lines behind the table.
unfoldable pub table_rows : List TableRow → List Line → List TableRow × List Line
table_rows rows [] = (rows, [])
table_rows rows (l ∷ ls) =
    let more : List TableRow × List Line = table_rows (next_rows rows l) ls in
    if is_rule l || is_row l then more else (rows, l ∷ ls)

abbrev pub cells_of : List TableRow → List (List Bytes)
cells_of rows = map (λ r. r.cells) rows

-- The headers and the body; a rule behind the first of several rows promotes it.
unfoldable pub promoted : List TableRow → List Bytes × List (List Bytes)
promoted [] = ([], [])
promoted (r ∷ []) = ([], r.cells ∷ [])
promoted (r ∷ s ∷ rows) =
    if r.ruled then (r.cells, cells_of (s ∷ rows)) else ([], cells_of (r ∷ s ∷ rows))

abbrev pub table_block : List TableRow → ℕ → OrgBlock
table_block rows level = record (org_block type_table level) {
  content = build_table_json (promoted rows).0 (promoted rows).1;
  encoding = encoding_json;
}

abbrev pub push_table : List TableRow → State → State
push_table [] st = st
push_table (r ∷ rows) st = push (table_block (r ∷ rows) (depth st.lists)) st

-- `Table`
abbrev pub table : List Line → State → State × List Line
table ls st =
    let found : List TableRow × List Line = table_rows [] ls in
    (push_table (reverse found.0) st, found.1)

abbrev pub ends_drawer : Line → Bool
ends_drawer l = elim (l.kind) [ LineKind.drawer_end ↦ true | LineKind.blank ↦ true | _ ↦ false ]

-- The lines behind an open drawer, up to its end or a blank line.
unfoldable pub skip_drawer : List Line → List Line
skip_drawer [] = []
skip_drawer (l ∷ ls) = let rest = skip_drawer ls in if ends_drawer l then ls else rest

-- The `switch` on the kind of line `l`: the state after it and the lines that are left.
unfoldable pub step_at : LineKind → State → Line → List Line → State × List Line
step_at LineKind.blank st l ls = (close_all (flush_paragraph st), ls)
step_at LineKind.comment st l ls = (st, ls)
step_at LineKind.keyword st l ls = (keyword l (flush_paragraph st), ls)
step_at LineKind.heading st l ls = (heading l (close_all (flush_paragraph st)), ls)
step_at LineKind.hrule st l ls = (simple type_hr (close_all (flush_paragraph st)), ls)
step_at LineKind.block_begin st l ls = block l ls (close_all (flush_paragraph st))
step_at LineKind.block_end st l ls = (st, ls)
step_at LineKind.table_row st l ls = table (l ∷ ls) (close_all (flush_paragraph st))
step_at LineKind.table_rule st l ls = table (l ∷ ls) (close_all (flush_paragraph st))
step_at LineKind.list_item st l ls = (item l (flush_paragraph st), ls)
step_at LineKind.drawer_begin st l ls = (st, skip_drawer ls)
step_at LineKind.drawer_end st l ls = (st, ls)
step_at LineKind.text st l ls = (record st { para = st.para ++ l.text ∷ [] }, ls)

-- One round of the loop over the lines.
abbrev pub step : State → Line → List Line → State × List Line
step st l ls = step_at l.kind st l ls

-- Every round takes a line at least.
unfoldable pub build_loop : ℕ → State → List Line → State
build_loop zero st ls = st
build_loop (suc fuel) st [] = st
build_loop (suc fuel) st (l ∷ ls) =
    let next : State × List Line = step st l ls in build_loop fuel next.0 next.1

-- The blocks of a state at the end of the lines.
unfoldable pub finish : State → List OrgBlock
finish st =
    let last : State = close_all (flush_paragraph st) in
    reverse last.blocks ++ metadata_blocks last.metadata

-- `ParseOrgString`
unfoldable pub parse_org_string : Bytes → List OrgBlock
parse_org_string src = finish (build_loop (length (scan_org src)) no_state (scan_org src))
