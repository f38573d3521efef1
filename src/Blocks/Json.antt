-- ===== src/Blocks/Json.antt =====
-- libpanduck/include/panduck/block_json.hpp: the JSON of a table, on bytes.
use duckdb_panduck.Base.{ℕ, ◌+◌, ◌/◌, ◌%◌, List, [], ◌∷◌, ◌++◌, if◌then◌else◌, ltb, ◌==◌}
use duckdb_panduck.Text.{Bytes, codes}

-- A digit of `%x`.
abbrev pub hex_digit : ℕ → ℕ
hex_digit n = if ltb n 10 then 48 + n else 87 + n

-- `\u%04x` of a control character
abbrev pub control_escape : ℕ → Bytes
control_escape c = codes "\\u00" ++ (hex_digit (c / 16) ∷ hex_digit (c % 16) ∷ [])

unfoldable pub escape_byte : ℕ → Bytes
escape_byte c =
    if c == b'"'
    then codes "\\\""
    else if c == b'\\'
    then codes "\\\\"
    else if c == 10
    then codes "\\n"
    else if c == 13
    then codes "\\r"
    else if c == 9
    then codes "\\t"
    else if ltb c 32
    then control_escape c
    else c ∷ []

-- `JsonEscapeString`
unfoldable pub json_escape : Bytes → Bytes
json_escape [] = []
json_escape (c ∷ s) = escape_byte c ++ json_escape s

abbrev pub quoted : Bytes → Bytes
quoted s = b'"' ∷ (json_escape s ++ b'"' ∷ [])

module _ {A : Type 0} (show : A → Bytes) where
  -- `(i ? "," : "") + show(v[i])` over a vector, behind its first element.
  abbrev pub more_listed : List A → Bytes
  more_listed [] = []
  more_listed (x ∷ xs) = (b',' ∷ show x) ++ more_listed xs

  abbrev pub listed : List A → Bytes
  listed [] = []
  listed (x ∷ xs) = show x ++ more_listed xs

abbrev pub row_json : List Bytes → Bytes
row_json cells = b'[' ∷ (listed quoted cells ++ b']' ∷ [])

-- `BuildTableJson`
unfoldable pub build_table_json : List Bytes → List (List Bytes) → Bytes
build_table_json headers rows =
    codes "{\"headers\":["
    ++ (listed quoted headers ++ (codes "],\"rows\":[" ++ (listed row_json rows ++ codes "]}")))
