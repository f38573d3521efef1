-- ===== src/Textile/Row.antt =====
-- The cells of a table row (libpanduck/src/textile_scanner.cpp, SplitRow).
use duckdb_panduck.Base.{
  ◌≡◌, refl, sym, ap, ◌∙◌, List, [], ◌∷◌, ◌++◌, map, arith, All, append_assoc,
}
use duckdb_panduck.Textile.{split_bars, pop_back_bar, split_row, is_trim, trimmed}
use duckdb_panduck.Text.Lines.{Lacks}
use duckdb_panduck.Text.Trim.{OpensSolid, EndsSolid, trim_id}
use duckdb_panduck.Text.{Bytes}

-- A cell that is written out: no bar in it, and no blank at its ends.
pub record IsCell (s : Bytes) : Type 0 where
  pub barless : Lacks b'|' s
  pub opens : OpensSolid is_trim s
  pub ends : EndsSolid is_trim s

-- Every cell with a bar behind it.
unfoldable pub row_end : Bytes → List Bytes → Bytes
row_end cell [] = cell ++ (b'|' ∷ [])
row_end cell (d ∷ ds) = cell ++ (b'|' ∷ row_end d ds)

-- The cells with a bar between each two.
joined : Bytes → List Bytes → Bytes
joined cell [] = cell
joined cell (d ∷ ds) = cell ++ (b'|' ∷ joined d ds)

pop_back_bar-last : (s : Bytes) → pop_back_bar (s ++ (b'|' ∷ [])) ≡ s
unfolding pop_back_bar
pop_back_bar-last [] = refl
pop_back_bar-last (c ∷ []) = refl
pop_back_bar-last (c ∷ d ∷ s) = rw (pop_back_bar-last (d ∷ s))

row_end-joined : (cell : Bytes) (ds : List Bytes) → row_end cell ds ≡ joined cell ds ++ (b'|' ∷ [])
unfolding row_end joined
row_end-joined cell [] = refl
row_end-joined cell (d ∷ ds) =
    ap (λ s. cell ++ (b'|' ∷ s)) (row_end-joined d ds)
    ∙ sym (append_assoc cell (b'|' ∷ joined d ds) (b'|' ∷ []))

split_bars-cell :
    (cell rest : Bytes)
    → Lacks b'|' cell
    → split_bars (cell ++ (b'|' ∷ rest)) ≡ cell ∷ split_bars rest
unfolding split_bars
split_bars-cell [] rest h = refl
split_bars-cell (c ∷ s) rest h = ground (arith, split_bars-cell s rest h.1)

split_bars-last : (cell : Bytes) → Lacks b'|' cell → split_bars cell ≡ cell ∷ []
unfolding split_bars
split_bars-last [] h = refl
split_bars-last (c ∷ s) h = ground (arith, split_bars-last s h.1)

cells-joined :
    (cell : Bytes) (ds : List Bytes)
    → IsCell cell
    → All IsCell ds
    → map trimmed (split_bars (joined cell ds)) ≡ cell ∷ ds
unfolding joined
cells-joined cell [] h hs =
    rw (split_bars-last cell h.barless) (ap (λ s. s ∷ []) (trim_id is_trim cell h.opens h.ends))
cells-joined cell (d ∷ ds) h hs =
    rw (split_bars-cell cell (joined d ds) h.barless) (
      rw (cells-joined d ds hs.0 hs.1) (ap (λ s. s ∷ d ∷ ds) (trim_id is_trim cell h.opens h.ends)))

EndsSolid-bar : (s : Bytes) → EndsSolid is_trim (s ++ (b'|' ∷ []))
EndsSolid-bar [] = refl
EndsSolid-bar (c ∷ []) = refl
EndsSolid-bar (c ∷ d ∷ s) = EndsSolid-bar (d ∷ s)

-- A row written with a bar before the first cell and one behind each cell is split into exactly
-- these cells, where no cell has a bar in it or a blank at its ends. Cells may be empty.
pub split_row-row :
    (cell : Bytes) (ds : List Bytes)
    → IsCell cell
    → All IsCell ds
    → split_row (b'|' ∷ row_end cell ds) ≡ cell ∷ ds
unfolding split_row
split_row-row cell ds h hs =
    let whole = row_end-joined cell ds in
    let solid = EndsSolid-bar (b'|' ∷ joined cell ds) in
    let kept = trim_id is_trim (b'|' ∷ joined cell ds ++ (b'|' ∷ [])) refl solid in
    rw whole (
      rw kept (
        ap (λ s. map trimmed (split_bars s)) (pop_back_bar-last (joined cell ds))
        ∙ cells-joined cell ds h hs))
