-- ===== src/Blocks/Table.antt =====
-- The table JSON (libpanduck/include/panduck/block_json.hpp), read back by a parser of JSON that
-- keeps to that schema.
use duckdb_panduck.Base.{
  ℕ, zero, suc, ◌+◌, ◌*◌, ◌/◌, ◌%◌, ◌≤◌, ◌<◌, ◌≡◌, refl, ap, ◌∙◌, true, false, List, [], ◌∷◌, ◌++◌,
  Option, some, ltb, ◌==◌, arith, Bool-cases, inl, inr, length, length-append, append_assoc,
}
use duckdb_panduck.Blocks.Json.{
  hex_digit, control_escape, escape_byte, json_escape, quoted, more_listed, listed, row_json,
  build_table_json,
}
use duckdb_panduck.Blocks.Reader.{
  first_is, is_hex, hex_value, read_char, put_char, read_string, read_quoted, read_more, read_list,
  read_row, read_table,
}
use duckdb_panduck.Text.{Bytes, codes}

hex_value-hex_digit : (n : ℕ) → n < 16 → hex_value (hex_digit n) ≡ n
hex_value-hex_digit n h = elim (Bool-cases (ltb n 10)) [
  | inl e ↦ rw e (ground arith)
  | inr e ↦ rw e (ground arith)
]

is_hex-hex_digit : (n : ℕ) → n < 16 → is_hex (hex_digit n) ≡ true
is_hex-hex_digit n h = elim (Bool-cases (ltb n 10)) [
  | inl e ↦ rw e (ground arith)
  | inr e ↦ rw e (ground arith)
]

read_control :
    (c : ℕ) (s : Bytes) → ltb c 32 ≡ true → read_char (control_escape c ++ s) ≡ some (c, s)
unfolding read_char
read_control c s h =
    let high = hex_value-hex_digit (c / 16) (ground arith) in
    let low = hex_value-hex_digit (c % 16) (ground arith) in
    let high_hex = is_hex-hex_digit (c / 16) (ground arith) in
    let low_hex = is_hex-hex_digit (c % 16) (ground arith) in
    let value : ((hex_value b'0' * 16 + hex_value b'0') * 16 + c / 16) * 16 + c % 16 ≡ c =
      ground arith in
    let small : ltb c 128 ≡ true = ground arith in
    rw (high, low, high_hex, low_hex, value, small) refl

-- One character is read back from its escape.
read_char-escape_byte : (c : ℕ) (s : Bytes) → read_char (escape_byte c ++ s) ≡ some (c, s)
unfolding read_char escape_byte
read_char-escape_byte c s = elim (Bool-cases (c == b'"')) [
  | inl e ↦ rw e (ground arith)
  | inr e ↦ rw e (elim (Bool-cases (c == b'\\')) [
    | inl f ↦ rw f (ground arith)
    | inr f ↦ rw f (elim (Bool-cases (c == 10)) [
      | inl g ↦ rw g (ground arith)
      | inr g ↦ rw g (elim (Bool-cases (c == 13)) [
        | inl h ↦ rw h (ground arith)
        | inr h ↦ rw h (elim (Bool-cases (c == 9)) [
          | inl i ↦ rw i (ground arith)
          | inr i ↦ rw i (elim (Bool-cases (ltb c 32)) [
            | inl j ↦ rw j (read_control c s j)
            | inr j ↦ rw j (rw (f, j) refl)
          ])
        ])
      ])
    ])
  ])
]

-- No escape opens with a quote.
first_is-escape_byte : (c : ℕ) (s : Bytes) → first_is b'"' (escape_byte c ++ s) ≡ false
unfolding escape_byte
first_is-escape_byte c s = ground arith

read_string_char :
    (fuel : ℕ) (s : Bytes) (c : ℕ) (rest : Bytes)
    → first_is b'"' s ≡ false
    → read_char s ≡ some (c, rest)
    → read_string (suc fuel) s ≡ put_char c (read_string fuel rest)
unfolding read_string
read_string_char fuel s c rest h k = rw (read_string, h, k) refl

read_string-json_escape :
    (s t : Bytes) (fuel : ℕ)
    → length s ≤ fuel
    → read_string (suc fuel) (json_escape s ++ (b'"' ∷ t)) ≡ some (s, t)
unfolding read_string json_escape
read_string-json_escape [] t fuel h = refl
read_string-json_escape (c ∷ s) t zero h = absurd (omega arith)
read_string-json_escape (c ∷ s) t (suc fuel) h =
    let rest = json_escape s ++ (b'"' ∷ t) in
    let ih = read_string-json_escape s t fuel (omega arith) in
    ap (read_string (suc (suc fuel))) (append_assoc (escape_byte c) (json_escape s) (b'"' ∷ t))
    ∙ read_string_char (suc fuel) (escape_byte c ++ rest) c rest (first_is-escape_byte c rest)
        (read_char-escape_byte c rest)
    ∙ ap (put_char c) ih

escape_byte_long : (c : ℕ) → 1 ≤ length (escape_byte c)
unfolding escape_byte
escape_byte_long c = ground arith

length-json_escape : (s : Bytes) → length s ≤ length (json_escape s)
unfolding json_escape
length-json_escape [] = omega arith
length-json_escape (c ∷ s) =
    omega (
      arith,
      length-append (escape_byte c) (json_escape s),
      escape_byte_long c,
      length-json_escape s,
    )

read_string_enough :
    (s t : Bytes) (fuel : ℕ)
    → length s < fuel
    → read_string fuel (json_escape s ++ (b'"' ∷ t)) ≡ some (s, t)
read_string_enough s t zero h = absurd (omega arith)
read_string_enough s t (suc fuel) h = read_string-json_escape s t fuel (omega arith)

read_quoted-quoted : (s t : Bytes) → read_quoted (quoted s ++ t) ≡ some (s, t)
unfolding read_quoted
read_quoted-quoted s t =
    ap (λ x. read_string (length x) x) (append_assoc (json_escape s) (b'"' ∷ []) t)
    ∙ read_string_enough s t (length (json_escape s ++ (b'"' ∷ t)))
        (omega (arith, length-append (json_escape s) (b'"' ∷ t), length-json_escape s))

-- A reader of elements that reads what is shown, and nothing that is shown opens as the end does.
record Reads (A : Type 0) (show : A → Bytes) (item : Bytes → Option (A × Bytes)) : Type 0 where
  reads : (x : A) (t : Bytes) → item (show x ++ t) ≡ some (x, t)
  solid : (x : A) (t : Bytes) → first_is b']' (show x ++ t) ≡ false

module _ {A : Type 0} (show : A → Bytes) (item : Bytes → Option (A × Bytes))
    (r : Reads A show item) where
  read_more-more_listed :
      (xs : List A) (t : Bytes) (fuel : ℕ)
      → length xs < fuel
      → read_more item fuel (more_listed show xs ++ (b']' ∷ t)) ≡ some (xs, t)
  unfolding read_more
  read_more-more_listed xs t zero h = absurd (omega arith)
  read_more-more_listed [] t (suc fuel) h = refl
  read_more-more_listed (x ∷ xs) t (suc fuel) h =
      let ih = read_more-more_listed xs t fuel (omega arith) in
      rw (append_assoc (show x) (more_listed show xs) (b']' ∷ t))
        (rw (r.reads x (more_listed show xs ++ (b']' ∷ t))) (rw ih refl))

  more_listed_long : (xs : List A) → length xs ≤ length (more_listed show xs)
  more_listed_long [] = omega arith
  more_listed_long (x ∷ xs) =
      omega (arith, length-append (show x) (more_listed show xs), more_listed_long xs)

  read_list-listed :
      (xs : List A) (t : Bytes) → read_list item (listed show xs ++ (b']' ∷ t)) ≡ some (xs, t)
  unfolding read_list
  read_list-listed [] t = refl
  read_list-listed (x ∷ xs) t =
      let rest = more_listed show xs ++ (b']' ∷ t) in
      let more =
        read_more-more_listed xs t (length rest)
          (omega (arith, length-append (more_listed show xs) (b']' ∷ t), more_listed_long xs)) in
      rw (append_assoc (show x) (more_listed show xs) (b']' ∷ t))
        (rw (read_list, r.solid x rest, r.reads x rest) (rw more refl))

cells_Reads : Reads Bytes quoted read_quoted
cells_Reads = record { reads = read_quoted-quoted; solid = λ x t. refl }

read_row-row_json : (r : List Bytes) (t : Bytes) → read_row (row_json r ++ t) ≡ some (r, t)
unfolding read_row
read_row-row_json r t =
    ap (read_list read_quoted) (append_assoc (listed quoted r) (b']' ∷ []) t)
    ∙ read_list-listed quoted read_quoted cells_Reads r t

rows_Reads : Reads (List Bytes) row_json read_row
rows_Reads = record { reads = read_row-row_json; solid = λ x t. refl }

-- A table is read back from its JSON by a strict parser, whatever bytes its cells have: no control
-- character stands in a string as it is, and no escape is one that JSON does not have.
pub read_table-build_table_json :
    (headers : List Bytes) (rows : List (List Bytes))
    → read_table (build_table_json headers rows) ≡ some (headers, rows)
unfolding read_table build_table_json
read_table-build_table_json headers rows =
    rw
      (read_list-listed quoted read_quoted cells_Reads headers
        (codes ",\"rows\":[" ++ (listed row_json rows ++ codes "]}")))
      (rw (read_list-listed row_json read_row rows_Reads rows (codes "}")) refl)
