-- ===== src/Org.antt =====
-- libpanduck/src/org_scanner.cpp: every line of an Org document classified by its prefix. Each
-- branch of the loop body is a function that gives the line, or `none` to fall through.
pub mod Lines
pub mod Heading
pub mod Headline
use duckdb_panduck.Base.{
  ℕ, zero, suc, ◌+◌, ◌-◌, Bool, true, false, not, ◌&&◌, ◌||◌, List, [], ◌∷◌, ◌++◌, map, Option,
  none, some, length, take, drop, leb, ltb, ◌==◌, if◌then◌else◌, or_else,
}
use duckdb_panduck.Text.{
  Bytes, codes, upper, is_digit, starts_with, find, find_text, take_while, drop_while, trim_right,
  trim, back, all_bytes, any_byte, digits_value, split_lines, empty, same,
}

pub data LineKind : Type 0 where
  blank heading keyword block_begin block_end list_item table_row : LineKind
  table_rule hrule comment drawer_begin drawer_end text : LineKind

pub record Line : Type 0 where
  pub kind : LineKind
  pub text : Bytes
  pub key : Bytes
  pub raw : Bytes
  pub term : Bytes
  pub level : ℕ
  pub ordered : Bool
  pub start : ℕ
  pub definition : Bool

-- `Line line;` with the kind set
abbrev pub line : LineKind → Line
line k = record {
  kind = k;
  text = [];
  key = [];
  raw = [];
  term = [];
  level = 0;
  ordered = false;
  start = 1;
  definition = false;
}

abbrev pub is_space : ℕ → Bool
is_space c = c == b' ' || c == 9

-- The blanks that `TrimRight` and `TrimBoth` cut off.
abbrev pub is_trim : ℕ → Bool
is_trim c = c == b' ' || c == 9 || c == 13

abbrev pub trim_both : Bytes → Bytes
trim_both s = trim is_trim s

abbrev pub not_space : ℕ → Bool
not_space c = not (is_space c)

unfoldable pub is_horizontal_rule : Bytes → Bool
is_horizontal_rule t = leb 5 (length t) && all_bytes (λ c. c == b'-') t

abbrev pub opens_with : ℕ → Bytes → Bool
opens_with c [] = false
opens_with c (d ∷ s) = d == c

unfoldable pub is_table_rule : Bytes → Bool
is_table_rule t =
    leb 2 (length t)
    && opens_with b'|' t
    && all_bytes (λ c. c == b'-' || c == b'|' || c == b'+' || is_space c) t
    && any_byte (λ c. c == b'-') t

abbrev pub is_star : ℕ → Bool
is_star c = c == b'*'

abbrev pub opens_space : Bytes → Bool
opens_space [] = false
opens_space (c ∷ s) = is_space c

-- The number of stars, capped at 6.
abbrev pub capped : ℕ → ℕ
capped stars = if ltb 6 stars then 6 else stars

unfoldable pub parse_heading : Bytes → Option Line
parse_heading raw =
    let stars = length (take_while is_star raw) in
    let rest = drop_while is_star raw in
    if stars == 0 || not (opens_space rest)
    then none
    else some (record (line heading) { level = capped stars; text = trim_both rest })

pub record Item : Type 0 where
  pub indent : ℕ
  pub ordered : Bool
  pub start : ℕ
  pub rest : Bytes

-- Behind the digits: a dot or a parenthesis, and a space.
unfoldable pub parse_ordered : ℕ → Bytes → Bytes → Option Item
parse_ordered indent digits [] = none
parse_ordered indent digits (c ∷ s) =
    if empty digits || not (c == b'.' || c == b')') || not (opens_space s)
    then none
    else some (record {
      indent = indent;
      ordered = true;
      start = digits_value 0 digits;
      rest = trim_both (drop 1 s);
    })

-- `s` is the line behind its indent. A star is a bullet only when it is indented.
unfoldable pub parse_item_at : ℕ → Bytes → Option Item
unfolding parse_ordered
parse_item_at indent [] = none
parse_item_at indent (c ∷ s) =
    if c == b'-' || c == b'+' || c == b'*' && ltb 0 indent
    then if opens_space s
      then some
          (record { indent = indent; ordered = false; start = 1; rest = trim_both (drop 1 s) })
      else none
    else parse_ordered indent (take_while is_digit (c ∷ s)) (drop_while is_digit (c ∷ s))

unfoldable pub parse_list_item : Bytes → Option Item
unfolding parse_item_at
parse_list_item raw = parse_item_at (length (take_while is_space raw)) (drop_while is_space raw)

abbrev pub keyword_line : Bytes → Bytes → Option ℕ → Option Line
keyword_line raw body none = none
keyword_line raw body (some colon) = some (record (line keyword) {
  key = upper (trim_both (take colon body));
  text = trim_both (drop (suc colon) body);
  raw = trim_right is_trim raw;
})

-- `body` is the line behind `#+`.
unfoldable pub scan_directive : Bytes → Bytes → Option Line
scan_directive raw body =
    if starts_with (codes "BEGIN_") (upper body)
    then some (record (line block_begin) {
      key = upper (take_while not_space (drop 6 body));
      text = trim_both (drop_while not_space (drop 6 body));
    })
    else if starts_with (codes "END_") (upper body)
    then some (record (line block_end) { key = upper (trim_both (drop 4 body)) })
    else keyword_line raw body (find b':' body)

abbrev pub is_comment : Bytes → Bool
is_comment [] = false
is_comment (c ∷ []) = c == b'#'
is_comment (c ∷ d ∷ s) = c == b'#' && is_space d

unfoldable pub scan_hash : Bytes → Bytes → Option Line
scan_hash raw trimmed =
    if starts_with (codes "#+") trimmed
    then scan_directive raw (drop 2 trimmed)
    else if is_comment trimmed
    then some (record (line comment) { text = trim_both (drop 1 trimmed) })
    else none

abbrev pub drawer_line : Bytes → Line
drawer_line name = record (line (if same name (codes "END") then drawer_end else drawer_begin)) {
  key = name;
}

unfoldable pub scan_drawer : Bytes → Option Line
scan_drawer t =
    if leb 2 (length t) && opens_with b':' t && back t == b':' && not (any_byte (λ c. c == b' ') t)
    then some (drawer_line (upper (take (length t - 2) (drop 1 t))))
    else none

unfoldable pub scan_rule : Bytes → Option Line
unfolding is_horizontal_rule is_table_rule
scan_rule t =
    if is_horizontal_rule t
    then some (line hrule)
    else if is_table_rule t
    then some (line table_rule)
    else if opens_with b'|' t
    then some (record (line table_row) { text = t })
    else none

abbrev pub split_item : Line → Bytes → Option ℕ → Line
split_item l rest none = record l { text = rest }
split_item l rest (some sep) = record l {
  definition = true;
  term = trim_both (take sep rest);
  text = trim_both (drop (sep + 4) rest);
}

unfoldable pub item_line : Item → Line
item_line i =
    split_item (record (line list_item) { level = i.indent; ordered = i.ordered; start = i.start })
      i.rest (find_text (codes " :: ") i.rest)

abbrev pub scan_item : Option Item → Option Line
scan_item none = none
scan_item (some i) = some (item_line i)

-- `raw` is the line with the blanks at its end cut off, `trimmed` those at both ends.
unfoldable pub classify_trimmed : Bytes → Bytes → Line
classify_trimmed raw trimmed = or_else (scan_hash raw trimmed) (
    or_else (scan_drawer trimmed) (
      or_else (scan_rule trimmed) (
        or_else (parse_heading raw)
          (or_else (scan_item (parse_list_item raw)) (record (line text) { text = trimmed })))))

unfoldable pub classify_raw : Bytes → Line
classify_raw raw =
    if empty (trim_both raw) then line blank else classify_trimmed raw (trim_both raw)

abbrev pub classify : Bytes → Line
classify l = classify_raw (trim_right is_trim l)

abbrev pub is_blank_line : Line → Bool
is_blank_line l = elim (l.kind) [ blank ↦ true | _ ↦ false ]

-- `if (!out.empty() && out.back().kind == BLANK) out.pop_back()`
unfoldable pub drop_last_blank : List Line → List Line
drop_last_blank [] = []
drop_last_blank (l ∷ []) = if is_blank_line l then [] else l ∷ []
drop_last_blank (l ∷ m ∷ ls) = l ∷ drop_last_blank (m ∷ ls)

unfoldable pub scan_org : Bytes → List Line
scan_org src = drop_last_blank (map classify (split_lines src))
