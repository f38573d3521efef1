-- ===== src/Blocks/Reader.antt =====
-- A strict parser of JSON for the arrays and strings of the table schema that
-- libpanduck/include/panduck/block_json.hpp writes: it refuses control characters that are not
-- escaped, and escapes that JSON does not have.
use duckdb_panduck.Base.{
  ℕ, zero, suc, ◌+◌, ◌-◌, ◌*◌, true, false, List, [], ◌∷◌, Option, none, some, if◌then◌else◌, ltb,
  ◌==◌, length, drop, Bool, ◌&&◌, ◌||◌,
}
use duckdb_panduck.Text.{Bytes, codes, starts_with, same, is_digit, within}

abbrev pub first_is : ℕ → Bytes → Bool
first_is b [] = false
first_is b (c ∷ s) = c == b

abbrev pub is_hex : ℕ → Bool
is_hex c = is_digit c || within b'a' b'f' c || within b'A' b'F' c

abbrev pub hex_value : ℕ → ℕ
hex_value c = if ltb c 58 then c - 48 else if ltb c 97 then c - 55 else c - 87

-- A byte, for a code of ASCII.
abbrev pub ascii : ℕ → Bytes → Option (ℕ × Bytes)
ascii n s = if ltb n 128 then some (n, s) else none

-- The four digits behind `\u`.
abbrev pub read_hex : Bytes → Option (ℕ × Bytes)
read_hex (a ∷ b ∷ c ∷ d ∷ s) =
    if is_hex a && is_hex b && is_hex c && is_hex d
    then ascii (((hex_value a * 16 + hex_value b) * 16 + hex_value c) * 16 + hex_value d) s
    else none
read_hex _ = none

abbrev pub stands_for_itself : ℕ → Bool
stands_for_itself c = c == b'"' || c == b'\\' || c == b'/'

-- What stands behind a backslash, one of the escapes of JSON and no other.
abbrev pub read_escape : Bytes → Option (ℕ × Bytes)
read_escape [] = none
read_escape (c ∷ s) =
    if c == b'n'
    then some (10, s)
    else if c == b'r'
    then some (13, s)
    else if c == b't'
    then some (9, s)
    else if c == b'u'
    then read_hex s
    else if c == b'b'
    then some (8, s)
    else if c == b'f'
    then some (12, s)
    else if stands_for_itself c
    then some (c, s)
    else none

-- A control character may not stand in a string as it is.
unfoldable pub read_char : Bytes → Option (ℕ × Bytes)
read_char [] = none
read_char (c ∷ s) = if c == b'\\' then read_escape s else if ltb c 32 then none else some (c, s)

abbrev pub put_char : ℕ → Option (Bytes × Bytes) → Option (Bytes × Bytes)
put_char c none = none
put_char c (some (s, rest)) = some (c ∷ s, rest)

-- The characters up to the closing quote, and what stands behind it.
unfoldable pub read_string : ℕ → Bytes → Option (Bytes × Bytes)
read_string zero s = none
read_string (suc fuel) s = elim (first_is b'"' s) [
  | true ↦ some ([], drop 1 s)
  | false ↦ elim (read_char s) [ none ↦ none | some (c, rest) ↦ put_char c (read_string fuel rest) ]
]

unfoldable pub read_quoted : Bytes → Option (Bytes × Bytes)
read_quoted [] = none
read_quoted (c ∷ s) = if c == b'"' then read_string (length s) s else none

module _ {A : Type 0} (item : Bytes → Option (A × Bytes)) where
  abbrev pub put : A → Option (List A × Bytes) → Option (List A × Bytes)
  put x none = none
  put x (some (xs, rest)) = some (x ∷ xs, rest)

  -- The elements behind the first one, each behind its comma, and the closing bracket.
  unfoldable pub read_more : ℕ → Bytes → Option (List A × Bytes)
  read_more zero s = none
  read_more (suc fuel) [] = none
  read_more (suc fuel) (c ∷ s) = elim (c == b']') [
    | true ↦ some ([], s)
    | false ↦ elim (if c == b',' then item s else none) [
      | none ↦ none
      | some (x, rest) ↦ put x (read_more fuel rest)
    ]
  ]

  -- `s` stands behind the opening bracket.
  unfoldable pub read_list : Bytes → Option (List A × Bytes)
  unfolding read_more
  read_list s = elim (first_is b']' s) [
    | true ↦ some ([], drop 1 s)
    | false ↦ elim (item s) [ none ↦ none | some (x, rest) ↦ put x (read_more (length rest) rest) ]
  ]

unfoldable pub read_row : Bytes → Option (List Bytes × Bytes)
read_row [] = none
read_row (c ∷ s) = if c == b'[' then read_list read_quoted s else none

-- The rows, and the brace that ends the text.
abbrev pub close_table :
    List Bytes → Option (List (List Bytes) × Bytes) → Option (List Bytes × List (List Bytes))
close_table headers none = none
close_table headers (some (rows, rest)) =
    if same rest (codes "}") then some (headers, rows) else none

abbrev pub open_rows : Option (List Bytes × Bytes) → Option (List Bytes × List (List Bytes))
open_rows none = none
open_rows (some (headers, rest)) =
    if starts_with (codes ",\"rows\":[") rest
    then close_table headers (read_list read_row (drop 9 rest))
    else none

-- The headers and the rows of a text that is a table of this schema and nothing else.
unfoldable pub read_table : Bytes → Option (List Bytes × List (List Bytes))
read_table s =
    if starts_with (codes "{\"headers\":[") s
    then open_rows (read_list read_quoted (drop 12 s))
    else none
