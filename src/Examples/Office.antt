-- ===== src/Examples/Office.antt =====
-- A small office document for libpanduck/include/panduck/doc_metadata.hpp.
use Prim.Native.String.{String}
use duckdb_panduck.Base.{ℕ, ◌≡◌, refl, List, [], ◌∷◌, arith}
use duckdb_panduck.Metadata.Duplicates.{kept, drop_duplicated-kept}
use duckdb_panduck.Metadata.{erase_all, erase_one, meta_text, drop_duplicated}
use duckdb_panduck.Text.{Bytes, codes}

-- A kind with the contents of the runs.
abbrev Piece : Type 0
Piece = String × List Bytes

abbrev kind : Piece → String
kind p = p.0

abbrev texts : Piece → List Bytes
texts p = p.1

-- The metadata has the title and the date, and not the name below the title.
abbrev pieces : List Piece
pieces =
    ("value", codes "Title" ∷ [])
    ∷ ("value", codes "2024" ∷ [])
    ∷ ("block", codes "Title" ∷ [])
    ∷ ("block", codes "A. Name" ∷ [])
    ∷ ("block", codes "2024" ∷ [])
    ∷ ("block", codes "Title" ∷ [])
    ∷ []

abbrev candidates : List (ℕ × Bytes)
candidates = (2, codes "Title") ∷ (3, codes "A. Name") ∷ (4, codes "2024") ∷ []

drop_duplicated-kept_example :
    drop_duplicated kind texts candidates pieces
    ≡ kept (meta_text kind texts pieces) candidates 0 pieces
drop_duplicated-kept_example =
    drop_duplicated-kept kind texts candidates pieces
      ((omega arith, (omega arith, tt)), ((omega arith, tt), (tt, tt)))

pieces_left :
    drop_duplicated kind texts candidates pieces
    ≡ ("value", codes "Title" ∷ [])
      ∷ ("value", codes "2024" ∷ [])
      ∷ ("block", codes "A. Name" ∷ [])
      ∷ ("block", codes "Title" ∷ [])
      ∷ []
unfolding drop_duplicated meta_text erase_all erase_one
pieces_left = refl
