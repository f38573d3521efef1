-- ===== src/Examples/Pages.antt =====
-- Small pages for the reader of libpanduck/src/mediawiki.cpp.
use Prim.Native.String.{String}
use duckdb_panduck.Base.{ℕ, ◌≡◌, refl, List, [], ◌∷◌, map, some}
use duckdb_panduck.Blocks.Reader.{read_table}
use duckdb_panduck.MediaWiki.Markup.{split_cells, split_pairs, Line, LineKind, make}
use duckdb_panduck.Text.{trim, Bytes, codes, find, find_text}
use duckdb_panduck.WikiReader.Builder.{
  no_state, item_block, attach_inlines, open_lists_for, open_from, common, flush_pre,
  flush_paragraph,
}
use duckdb_panduck.WikiReader.Runs.{
  plain_loop, MwInline, parse_inlines, inline_loop, found_at, find_wrapped, find_ref, push_text,
  add_text, push_wrapped, lone_text,
}
use duckdb_panduck.WikiReader.Tables.{table_lines, headers_of, rows_of, read_table-table_block}
use duckdb_panduck.WikiReader.{
  table_rows, cell_line, cells_from, no_cells, table_block, build_loop, step_at,
}

-- A header line, two rows, the second over two lines, and a line behind the table.
abbrev cell_lines : List Line
cell_lines =
    make LineKind.table_header (codes "a !! ''b''")
    ∷ make LineKind.table_row []
    ∷ make LineKind.table_cell (codes "1 || [[x|2]]")
    ∷ make LineKind.table_row []
    ∷ make LineKind.table_cell (codes "3")
    ∷ make LineKind.table_cell (codes "4")
    ∷ make LineKind.table_end []
    ∷ make LineKind.text (codes "behind")
    ∷ []

read_table-table_block_example :
    read_table (table_block (cells_from no_cells cell_lines).0).content
    ≡ some (headers_of (table_lines cell_lines), rows_of (table_lines cell_lines))
read_table-table_block_example = read_table-table_block cell_lines

-- A bare line goes on with the cell above it, says the scanner, and the reader leaves it out.
continuation_lost :
    table_rows
      (cells_from no_cells
        (make LineKind.table_cell (codes "3") ∷ make LineKind.text (codes "and more") ∷ [])).0
    ≡ (codes "3" ∷ []) ∷ []
unfolding table_rows cells_from cell_line split_cells split_pairs plain_loop trim
continuation_lost = refl

abbrev shape : MwInline → String × Bytes × ℕ
shape r = (r.element_type, r.content, r.level)

-- The text behind a bold run is added to the last text inside of it.
bold_swallows :
    map shape (parse_inlines (codes "'''a ''b'' c''' d") 2)
    ≡ ("bold", [], 2)
      ∷ ("text", codes "a ", 3)
      ∷ ("italic", codes "b", 3)
      ∷ ("text", codes " c d", 3)
      ∷ []
unfolding parse_inlines inline_loop found_at find_wrapped find_text push_text add_text push_wrapped
    lone_text
bold_swallows = refl

-- A list that goes on behind preformatted lines has no list above it.
abbrev item : Bytes → Bytes → Line
item markers text = record (make LineKind.list_item text) { markers = markers }

abbrev levels : List Line → List (String × ℕ)
levels ls = map (λ b. (b.element_type, b.level)) (build_loop 9 no_state ls).blocks

list_behind_code :
    levels (
      item (codes "*") (codes "a")
      ∷ make LineKind.preformatted (codes "code")
      ∷ item (codes "**") (codes "b")
      ∷ [])
    ≡ ("list_item", 4) ∷ ("list", 3) ∷ ("code", 1) ∷ ("list_item", 2) ∷ ("list", 1) ∷ []
unfolding build_loop step_at item_block attach_inlines open_lists_for open_from common flush_pre
    flush_paragraph parse_inlines inline_loop found_at push_text add_text lone_text
list_behind_code = refl

-- The list of all notes is read as one more note.
references_note :
    map shape (parse_inlines (codes "a <references/>") 2)
    ≡ ("text", codes "a ", 2) ∷ ("note", [], 2) ∷ []
unfolding parse_inlines inline_loop found_at find_ref find push_text add_text
references_note = refl
