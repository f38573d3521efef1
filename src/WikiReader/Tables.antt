-- ===== src/WikiReader/Tables.antt =====
-- The tables of libpanduck/src/mediawiki.cpp keep the cells of their lines in their rows.
use duckdb_panduck.Base.{
  ℕ, ◌≡◌, refl, sym, ap, ◌∙◌, Bool, true, false, ◌&&◌, List, [], ◌∷◌, ◌++◌, map, some, append_assoc,
  append-nil, reverse, reverse-cons, Bool-cases, inl, inr, if◌then◌else◌, ◌==◌,
}
use duckdb_panduck.Blocks.Reader.{read_table}
use duckdb_panduck.Blocks.Table.{read_table-build_table_json}
use duckdb_panduck.MediaWiki.Markup.{Line, LineKind, trimmed, split_cells, split_pairs, cons_cell}
use duckdb_panduck.Text.{Bytes}
use duckdb_panduck.WikiReader.Runs.{plain_text}
use duckdb_panduck.WikiReader.{
  Cells, no_cells, next_row, plain_cells, cell_line, is_table_end, cells_from, is_nil, table_rows,
  table_block,
}

-- The lines up to the end of a table.
abbrev pub table_lines : List Line → List Line
table_lines [] = []
table_lines (l ∷ ls) = let more = table_lines ls in if is_table_end l.kind then [] else l ∷ more

abbrev header_texts : LineKind → Bytes → List Bytes
header_texts LineKind.table_header text = plain_cells b'!' text
header_texts _ text = []

-- The header cells that lines are written with, without their markup.
abbrev pub headers_of : List Line → List Bytes
headers_of [] = []
headers_of (l ∷ ls) = header_texts l.kind l.text ++ headers_of ls

-- The cells before the first row marker, and those between the markers and behind the last one.
abbrev pub Groups : Type 0
Groups = List Bytes × List (List Bytes)

abbrev add_line : LineKind → Bytes → Groups → Groups
add_line LineKind.table_row text g = ([], g.0 ∷ g.1)
add_line LineKind.table_cell text g = (plain_cells b'|' text ++ g.0, g.1)
add_line _ text g = g

abbrev pub groups_of : List Line → Groups
groups_of [] = ([], [])
groups_of (l ∷ ls) = add_line l.kind l.text (groups_of ls)

-- A row, left out where it has no cells.
abbrev pub filled : List Bytes → List (List Bytes) → List (List Bytes)
filled r rs = if is_nil r then rs else r ∷ rs

-- Rows of which the last one is left out where it has no cells.
abbrev pub closed : List (List Bytes) → List (List Bytes)
closed [] = []
closed (r ∷ []) = filled r []
closed (r ∷ s ∷ rs) = r ∷ closed (s ∷ rs)

-- The rows that lines are written with: one for each row marker, without cells too unless it is the
-- last one, and before them one for the cells that no marker opens.
abbrev pub rows_of : List Line → List (List Bytes)
rows_of ls = let g = groups_of ls in filled g.0 (closed g.1)

-- The rows to come, where `started` says whether the first of them is one without cells too.
abbrev coming : Bool → List Bytes → List (List Bytes) → List (List Bytes)
coming started r [] = filled r []
coming started r (s ∷ rs) = if started then r ∷ closed (s ∷ rs) else filled r (closed (s ∷ rs))

coming-started : (r : List Bytes) (rs : List (List Bytes)) → coming true r rs ≡ closed (r ∷ rs)
coming-started r [] = refl
coming-started r (s ∷ rs) = refl

coming-filled : (r : List Bytes) (rs : List (List Bytes)) → coming false r rs ≡ filled r (closed rs)
coming-filled r [] = refl
coming-filled r (s ∷ rs) = refl

-- A row with cells is there whether it has started or not.
coming-cells :
    (b : Bool) (c : Bytes) (r : List Bytes) (rs : List (List Bytes))
    → coming b (c ∷ r) rs ≡ coming true (c ∷ r) rs
coming-cells b c r [] = refl
coming-cells true c r (s ∷ rs) = refl
coming-cells false c r (s ∷ rs) = refl

-- SplitCells gives a cell at least.
abbrev HasCells : List Bytes → Type 0
HasCells xs = (c : Bytes) × (r : List Bytes) × (xs ≡ c ∷ r)

cons_cell-HasCells : (c : ℕ) (cells : List Bytes) → HasCells (cons_cell c cells)
cons_cell-HasCells c [] = (c ∷ [], [], refl)
cons_cell-HasCells c (cell ∷ cells) = (c ∷ cell, cells, refl)

split_pairs-HasCells : (sep : ℕ) (s : Bytes) → HasCells (split_pairs sep s)
unfolding split_pairs
split_pairs-HasCells sep [] = ([], [], refl)
split_pairs-HasCells sep (c ∷ []) = (c ∷ [], [], refl)
split_pairs-HasCells sep (c ∷ d ∷ s) = elim (Bool-cases (c == sep && d == sep)) [
  | inl e ↦ rw e ([], split_pairs sep s, refl)
  | inr e ↦ rw e (cons_cell-HasCells c (split_pairs sep (d ∷ s)))
]

plain_cells-HasCells : (sep : ℕ) (text : Bytes) → HasCells (plain_cells sep text)
unfolding split_cells
plain_cells-HasCells sep text =
    let (c, r, e) = split_pairs-HasCells sep text in
    (plain_text (trimmed c), map plain_text (map trimmed r), rw e refl)

-- A row that has not started has no cells.
record IsRowed (t : Cells) : Type 0 where
  waits : t.started ≡ false → t.current ≡ []

cell_line-IsRowed :
    (k : LineKind) (text : Bytes) (t : Cells) → IsRowed t → IsRowed (cell_line k text t)
unfolding cell_line
cell_line-IsRowed LineKind.table_row text t h = record { waits = λ e. refl }
cell_line-IsRowed LineKind.table_cell text t h = record { waits = λ e. cc }
cell_line-IsRowed LineKind.table_header text t h = record { waits = h.waits }
cell_line-IsRowed _ text t h = h

-- The rows of a table so far, and those to come from groups of cells.
abbrev all_rows : Cells → Groups → List (List Bytes)
all_rows t g = reverse t.rows ++ coming t.started (t.current ++ g.0) g.1

next_row-all_rows :
    (t : Cells) (g : Groups) → IsRowed t → all_rows (next_row t) g ≡ all_rows t ([], g.0 ∷ g.1)
next_row-all_rows t g h = elim (Bool-cases t.started) [
  | inl e ↦
      rw (e, append-nil t.current)
        (rw (coming-started g.0 g.1, reverse-cons t.current t.rows)
          (append_assoc (reverse t.rows) (t.current ∷ []) (closed (g.0 ∷ g.1))))
  | inr e ↦ rw (e, h.waits e) (rw (coming-started g.0 g.1) refl)
]

add_cells-all_rows :
    (t : Cells) (cells : List Bytes) (g : Groups)
    → HasCells cells
    → IsRowed t
    → reverse t.rows ++ coming true ((t.current ++ cells) ++ g.0) g.1
      ≡ all_rows t (cells ++ g.0, g.1)
add_cells-all_rows t cells g (c, r, e) h =
    ap (λ x. reverse t.rows ++ x)
      (ap (λ x. coming true x g.1) (append_assoc t.current cells g.0)
        ∙ elim (Bool-cases t.started) [
          | inl f ↦ rw f refl
          | inr f ↦ rw (f, h.waits f, e) (sym (coming-cells false c (r ++ g.0) g.1))
        ])

cell_line-all_rows :
    (k : LineKind) (text : Bytes) (t : Cells) (g : Groups)
    → IsRowed t
    → all_rows (cell_line k text t) g ≡ all_rows t (add_line k text g)
unfolding cell_line
cell_line-all_rows LineKind.table_row text t g h = next_row-all_rows t g h
cell_line-all_rows LineKind.table_cell text t g h =
    add_cells-all_rows t (plain_cells b'|' text) g (plain_cells-HasCells b'|' text) h
cell_line-all_rows LineKind.table_header text t g h = refl
cell_line-all_rows _ text t g h = refl

cell_line-headers :
    (k : LineKind) (text : Bytes) (t : Cells)
    → (cell_line k text t).headers ≡ t.headers ++ header_texts k text
unfolding cell_line
cell_line-headers LineKind.table_header text t = refl
cell_line-headers LineKind.table_row text t = sym (append-nil t.headers)
cell_line-headers _ text t = sym (append-nil t.headers)

table_rows-all_rows : (t : Cells) → table_rows t ≡ all_rows t ([], [])
unfolding table_rows
table_rows-all_rows t = rw (append-nil t.current) (rows t.current)
  where
    rows :
        (current : List Bytes)
        → reverse (if is_nil current then t.rows else current ∷ t.rows)
          ≡ reverse t.rows ++ filled current []
    rows [] = sym (append-nil (reverse t.rows))
    rows (c ∷ cs) = reverse-cons (c ∷ cs) t.rows

cells_from-all_rows :
    (t : Cells) (ls : List Line)
    → IsRowed t
    → table_rows (cells_from t ls).0 ≡ all_rows t (groups_of (table_lines ls))
unfolding cells_from
cells_from-all_rows t [] h = table_rows-all_rows t
cells_from-all_rows t (l ∷ ls) h =
    let next = cell_line l.kind l.text t in
    let later = cells_from-all_rows next ls (cell_line-IsRowed l.kind l.text t h) in
    elim (Bool-cases (is_table_end l.kind)) [
      | inl e ↦ rw e (table_rows-all_rows t)
      | inr e ↦ rw e (later ∙ cell_line-all_rows l.kind l.text t (groups_of (table_lines ls)) h)
    ]

cells_from-headers :
    (t : Cells) (ls : List Line)
    → (cells_from t ls).0.headers ≡ t.headers ++ headers_of (table_lines ls)
unfolding cells_from
cells_from-headers t [] = sym (append-nil t.headers)
cells_from-headers t (l ∷ ls) =
    let later = cells_from-headers (cell_line l.kind l.text t) ls in
    elim (Bool-cases (is_table_end l.kind)) [
      | inl e ↦ rw e (sym (append-nil t.headers))
      | inr e ↦ rw e (
          later
          ∙ ap (λ x. x ++ headers_of (table_lines ls)) (cell_line-headers l.kind l.text t)
          ∙ append_assoc t.headers (header_texts l.kind l.text) (headers_of (table_lines ls)))
    ]

-- What a strict parser of JSON reads of a table block are the header cells of the lines up to the end
-- of the table, in their order, and its rows: the cells of the cell lines between two row markers are
-- one row, also where there are none; the cells before the first marker are a row, and those behind
-- the last one, where there are any. Lines of other kinds, a bare line that goes on with the cell
-- above it included, are left out.
pub read_table-table_block :
    (ls : List Line)
    → read_table (table_block (cells_from no_cells ls).0).content
      ≡ some (headers_of (table_lines ls), rows_of (table_lines ls))
read_table-table_block ls =
    let t = (cells_from no_cells ls).0 in
    let g = groups_of (table_lines ls) in
    read_table-build_table_json t.headers (table_rows t)
    ∙ ap (λ h. some (h, table_rows t)) (cells_from-headers no_cells ls)
    ∙ ap (λ r. some (headers_of (table_lines ls), r))
        (cells_from-all_rows no_cells ls (record { waits = λ e. refl }) ∙ coming-filled g.0 g.1)
