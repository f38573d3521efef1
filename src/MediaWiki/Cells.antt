-- ===== src/MediaWiki/Cells.antt =====
-- The cells of a table line (libpanduck/src/mediawiki_scanner.cpp, SplitCells).
use duckdb_panduck.Base.{
  ℕ, ◌≡◌, refl, ap, ◌∙◌, true, List, [], ◌∷◌, ◌++◌, map, arith, ◌==◌, All, ==_ne,
}
use duckdb_panduck.MediaWiki.Markup.{cons_cell, split_pairs, split_cells, is_trim, trimmed}
use duckdb_panduck.Text.Lines.{Lacks}
use duckdb_panduck.Text.Trim.{OpensSolid, EndsSolid, trim_id}
use duckdb_panduck.Text.{Bytes}

-- A cell that is written out: no separator in it, and no blank at its ends.
pub record IsPlainCell (sep : ℕ) (s : Bytes) : Type 0 where
  pub lacks : Lacks sep s
  pub opens : OpensSolid is_trim s
  pub ends : EndsSolid is_trim s

-- The cells with the separator twice between each two.
abbrev pub joined : ℕ → Bytes → List Bytes → Bytes
joined sep cell [] = cell
joined sep cell (d ∷ ds) = cell ++ (sep ∷ sep ∷ joined sep d ds)

split_pairs-last : (sep : ℕ) (cell : Bytes) → Lacks sep cell → split_pairs sep cell ≡ cell ∷ []
unfolding split_pairs
split_pairs-last sep [] h = refl
split_pairs-last sep (c ∷ []) h = refl
split_pairs-last sep (c ∷ d ∷ s) h =
    rw (==_ne c sep h.0) (ap (cons_cell c) (split_pairs-last sep (d ∷ s) h.1))

==_self : (n : ℕ) → (n == n) ≡ true
==_self n = ground arith

split_pairs-cell :
    (sep : ℕ) (cell rest : Bytes)
    → Lacks sep cell
    → split_pairs sep (cell ++ (sep ∷ sep ∷ rest)) ≡ cell ∷ split_pairs sep rest
unfolding split_pairs
split_pairs-cell sep [] rest h = rw (==_self sep) refl
split_pairs-cell sep (c ∷ []) rest h =
    rw (==_ne c sep h.0) (ap (cons_cell c) (split_pairs-cell sep [] rest tt))
split_pairs-cell sep (c ∷ d ∷ s) rest h =
    rw (==_ne c sep h.0) (ap (cons_cell c) (split_pairs-cell sep (d ∷ s) rest h.1))

-- A line of cells with the separator twice between each two is split into exactly these cells, where
-- no cell has the separator in it or a blank at its ends. Cells may be empty.
pub split_cells-joined :
    (sep : ℕ) (cell : Bytes) (ds : List Bytes)
    → IsPlainCell sep cell
    → All (IsPlainCell sep) ds
    → split_cells (joined sep cell ds) sep ≡ cell ∷ ds
unfolding split_cells
split_cells-joined sep cell [] h hs =
    rw (split_pairs-last sep cell h.lacks) (ap (λ s. s ∷ []) (trim_id is_trim cell h.opens h.ends))
split_cells-joined sep cell (d ∷ ds) h hs =
    ap (map trimmed) (split_pairs-cell sep cell (joined sep d ds) h.lacks)
    ∙ ap (λ s. s ∷ map trimmed (split_pairs sep (joined sep d ds)))
        (trim_id is_trim cell h.opens h.ends)
    ∙ ap (λ ls. cell ∷ ls) (split_cells-joined sep d ds hs.0 hs.1)
