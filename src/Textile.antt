-- ===== src/Textile.antt =====
-- libpanduck/src/textile_scanner.cpp: the lines of a Textile document, and the cells of a table
-- row. A branch of the loop body gives the line, or `none` to fall through.
pub mod Heading
pub mod Marks
pub mod Row
pub mod Steps
use Prim.Native.Nat.{◌^◌}
use duckdb_panduck.Base.{
  ℕ, zero, suc, ◌+◌, ◌-◌, ◌%◌, Bool, true, false, not, ◌&&◌, ◌||◌, List, [], ◌∷◌, ◌++◌, map, Option,
  none, some, length, take, drop, leb, ltb, ◌==◌, if◌then◌else◌, or_else,
}
use duckdb_panduck.Text.{
  Bytes, codes, is_alnum, to_lower, starts_with, find, find_text, take_while, drop_while, trim,
  back, split_lines, empty, same, within,
}

pub data LineKind : Type 0 where
  blank heading para blockquote code_block notextile : LineKind
  comment list_item table_row html_block text : LineKind

pub record Line : Type 0 where
  pub kind : LineKind
  pub text : Bytes
  pub markers : Bytes
  pub style : Bytes
  pub css_class : Bytes
  pub id : Bytes
  pub term : Bytes
  pub definition : Bool
  pub level : ℕ
  pub raw : Bytes

-- `Line ln;` with its source line set
abbrev pub line : Bytes → Line
line source = record {
  kind = text;
  text = [];
  markers = [];
  style = [];
  css_class = [];
  id = [];
  term = [];
  definition = false;
  level = 0;
  raw = source;
}

abbrev pub is_trim : ℕ → Bool
is_trim c = c == b' ' || c == 9 || c == 13 || c == 10

abbrev pub trimmed : Bytes → Bytes
trimmed s = trim is_trim s

-- `if (!l.empty() && l.back() == '\r') l.pop_back()`
unfoldable pub pop_cr : Bytes → Bytes
pop_cr [] = []
pop_cr (c ∷ []) = if c == 13 then [] else c ∷ []
pop_cr (c ∷ d ∷ s) = c ∷ pop_cr (d ∷ s)

unfoldable pub source_lines : Bytes → List Bytes
source_lines src = map pop_cr (split_lines src)

pub record Marker : Type 0 where
  pub name : Bytes
  pub style : Bytes
  pub css_class : Bytes
  pub id : Bytes

abbrev pub closing : ℕ → ℕ
closing c = if c == b'{' then b'}' else if c == b'(' then b')' else b']'

abbrev pub is_opening : ℕ → Bool
is_opening c = c == b'{' || c == b'(' || c == b'['

abbrev pub class_group : Marker → Bytes → Option ℕ → Marker
class_group m value none = record m { css_class = value }
class_group m value (some hash) = record m {
  css_class = take hash value;
  id = drop (suc hash) value;
}

-- One attribute group: its opening byte and what it holds.
unfoldable pub with_group : ℕ → Bytes → Marker → Marker
with_group c value m =
    if c == b'{'
    then record m { style = value }
    else if c == b'('
    then class_group m value (find b'#' value)
    else m

-- The loop over the groups, at `s`; the rest of the line is behind them.
unfoldable pub groups_loop : ℕ → Bytes → Marker → Option (Marker × Bytes)
groups_loop zero s m = none
groups_loop (suc fuel) [] m = some (m, [])
groups_loop (suc fuel) (c ∷ s) m =
    let group : Option (Marker × Bytes) = elim (find (closing c) s) [
      | none ↦ none
      | some size ↦ groups_loop fuel (drop (suc size) s) (with_group c (take size s) m)
    ] in
    if is_opening c then group else some (m, c ∷ s)

abbrev pub is_alignment : ℕ → Bool
is_alignment c = c == b'<' || c == b'>' || c == b'='

-- Behind the dot: a second one is left out, then a space or the end.
abbrev pub after_dot : Bytes → Option Bytes
after_dot [] = some []
after_dot (c ∷ s) = if c == b' ' then some s else none

abbrev pub after_dots : Bytes → Option Bytes
after_dots [] = some []
after_dots (c ∷ s) = if c == b'.' then after_dot s else after_dot (c ∷ s)

abbrev pub marker_end : Bytes → Option Bytes
marker_end [] = none
marker_end (c ∷ s) = if c == b'.' then after_dots s else none

abbrev pub with_body : Option (Marker × Bytes) → Option (Marker × Bytes)
with_body none = none
with_body (some (m, s)) = elim (marker_end (drop_while is_alignment s)) [
  | none ↦ none
  | some body ↦ some (m, body)
]

-- `ParseMarker`: the marker and the body behind it.
unfoldable pub parse_marker : Bytes → Option (Marker × Bytes)
parse_marker t =
    let head = take_while is_alnum t in
    let m : Marker = record { name = head; style = []; css_class = []; id = [] } in
    if empty head then none else with_body (groups_loop (suc (length t)) (drop_while is_alnum t) m)

abbrev pub cons_cell : ℕ → List Bytes → List Bytes
cons_cell c [] = (c ∷ []) ∷ []
cons_cell c (cell ∷ cells) = (c ∷ cell) ∷ cells

-- The loop over the body of a row, before the cells are trimmed.
unfoldable pub split_bars : Bytes → List Bytes
split_bars [] = [] ∷ []
split_bars (c ∷ s) = if c == b'|' then [] ∷ split_bars s else cons_cell c (split_bars s)

abbrev pub pop_front_bar : Bytes → Bytes
pop_front_bar [] = []
pop_front_bar (c ∷ s) = if c == b'|' then s else c ∷ s

unfoldable pub pop_back_bar : Bytes → Bytes
pop_back_bar [] = []
pop_back_bar (c ∷ []) = if c == b'|' then [] else c ∷ []
pop_back_bar (c ∷ d ∷ s) = c ∷ pop_back_bar (d ∷ s)

unfoldable pub split_row : Bytes → List Bytes
split_row s = map trimmed (split_bars (pop_back_bar (pop_front_bar (trimmed s))))

abbrev pub opens_with : ℕ → Bytes → Bool
opens_with c [] = false
opens_with c (d ∷ s) = d == c

abbrev pub is_list_mark : ℕ → Bool
is_list_mark c = c == b'*' || c == b'#'

unfoldable pub scan_list : Line → Bytes → Option Line
scan_list l t =
    let marks = take_while is_list_mark t in
    if not (empty marks) && opens_with b' ' (drop_while is_list_mark t)
    then some (record l {
      kind = list_item;
      markers = marks;
      level = length marks;
      text = trimmed (drop_while is_list_mark t);
    })
    else none

-- `a - b` in `size_t`
abbrev pub size_sub : ℕ → ℕ → ℕ
size_sub a b = (a + 2 ^ 64 - b) % 2 ^ 64

abbrev pub definition_line : Line → Bytes → Option ℕ → Option Line
definition_line l t none = none
definition_line l t (some sep) = some (record l {
  kind = list_item;
  markers = codes "-";
  level = 1;
  definition = true;
  term = trimmed (take (size_sub sep 2) (drop 2 t));
  text = trimmed (drop (sep + 4) t);
})

unfoldable pub scan_definition : Line → Bytes → Option Line
scan_definition l t =
    if starts_with (codes "- ") t then definition_line l t (find_text (codes " := ") t) else none

unfoldable pub scan_simple : Line → Bytes → Option Line
scan_simple l t =
    if opens_with b'|' t
    then some (record l { kind = table_row; text = t })
    else if starts_with (codes "###.") t
    then some (record l { kind = comment })
    else none

abbrev pub html_blocks : List Bytes
html_blocks =
    codes "dl"
    ∷ codes "table"
    ∷ codes "div"
    ∷ codes "ul"
    ∷ codes "ol"
    ∷ codes "blockquote"
    ∷ codes "pre"
    ∷ codes "p"
    ∷ []

abbrev pub any_same : Bytes → List Bytes → Bool
any_same t [] = false
any_same t (b ∷ bs) = same t b || any_same t bs

-- The name behind the `<`, in lower case.
unfoldable pub html_tag : Bytes → Bytes
html_tag t = map to_lower (take_while is_alnum (drop 1 t))

abbrev pub is_html_open : Bytes → Bool
is_html_open t = opens_with b'<' t && ltb 2 (length t) && any_same (html_tag t) html_blocks

abbrev pub closing_tag : Bytes → Bytes
closing_tag tag = codes "</" ++ tag ++ codes ">"

abbrev pub is_found : Option ℕ → Bool
is_found none = false
is_found (some n) = true

-- The lines up to the one with the closing tag, each on a line of its own, and those behind.
unfoldable pub html_loop : Bytes → List Bytes → Bytes → Bytes × List Bytes
html_loop close [] acc = (acc, [])
html_loop close (l ∷ ls) acc =
    let rest = html_loop close ls (acc ++ (b'\n' ∷ trimmed l)) in
    if is_found (find_text close acc) then (acc, l ∷ ls) else rest

abbrev pub heading_level : Bytes → Option ℕ
heading_level (h ∷ n ∷ []) = if h == b'h' && within b'1' b'6' n then some (n - b'0') else none
heading_level _ = none

-- The kind that a marker's name gives, other than a heading's.
unfoldable pub kind_of_name : Bytes → Option LineKind
kind_of_name name =
    if same name (codes "p")
    then some para
    else if same name (codes "bq")
    then some blockquote
    else if same name (codes "pre") || same name (codes "bc")
    then some code_block
    else if same name (codes "notextile")
    then some notextile
    else none

abbrev pub kind_line : Line → Option LineKind → Option Line
kind_line l none = none
kind_line l (some k) = some (record l { kind = k })

abbrev pub marked_line : Line → Bytes → Option ℕ → Option Line
marked_line l name (some n) = some (record l { kind = heading; level = n })
marked_line l name none = kind_line l (kind_of_name name)

abbrev pub with_marker : Line → Marker → Bytes → Line
with_marker l m body = record l {
  style = m.style;
  css_class = m.css_class;
  id = m.id;
  text = trimmed body;
}

-- A marker that names no block leaves its attributes on the line, which is text.
unfoldable pub scan_marked : Line → Bytes → Option (Marker × Bytes) → Line
scan_marked l t none = record l { kind = text; text = t }
scan_marked l t (some (m, body)) =
    or_else (marked_line (with_marker l m body) m.name (heading_level m.name))
      (record (with_marker l m body) { kind = text; text = t })

abbrev pub html_line : Line → Bytes → Bytes × List Bytes → Line × List Bytes
html_line l tag (acc, rest) = (record l { kind = html_block; text = acc; markers = tag }, rest)

unfoldable pub scan_from : Line → Bytes → List Bytes → Line × List Bytes
scan_from l t rest =
    let block = html_line l (html_tag t) (html_loop (closing_tag (html_tag t)) rest t) in
    if is_html_open t then block else (scan_marked l t (parse_marker t), rest)

abbrev pub line_or : Option Line → List Bytes → Line × List Bytes → Line × List Bytes
line_or none rest other = other
line_or (some l) rest other = (l, rest)

-- One round of the loop: the line, and the lines that are left.
abbrev pub first_line : Line → Bytes → Option Line
first_line l t = elim (scan_simple l t) [
  | some m ↦ some m
  | none ↦ elim (scan_list l t) [ some m ↦ some m | none ↦ scan_definition l t ]
]

-- One round of the loop: the line, and the lines that are left.
unfoldable pub scan_step : Bytes → List Bytes → Line × List Bytes
scan_step source rest =
    let t = trimmed source in
    let l = line source in
    if empty t
    then (record l { kind = blank }, rest)
    else line_or (first_line l t) rest (scan_from l t rest)

unfoldable pub scan_lines : ℕ → List Bytes → List Line
scan_lines zero ls = []
scan_lines (suc fuel) [] = []
scan_lines (suc fuel) (source ∷ rest) =
    let (l, behind) = scan_step source rest in l ∷ scan_lines fuel behind

unfoldable pub scan_textile : Bytes → List Line
scan_textile src = scan_lines (length (source_lines src)) (source_lines src)
