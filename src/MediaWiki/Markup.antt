-- ===== src/MediaWiki/Markup.antt =====
-- The line type of libpanduck/include/panduck/mediawiki_scanner.hpp, and the helpers of
-- libpanduck/src/mediawiki_scanner.cpp that look at one text.
use duckdb_panduck.Base.{
  ℕ, ◌-◌, Bool, true, false, ◌&&◌, ◌||◌, List, [], ◌∷◌, map, length, take, drop, leb, ltb, ◌==◌,
  if◌then◌else◌,
}
use duckdb_panduck.Base.Int.{ℤ, pos, ◌+ℤ◌, ◌-ℤ◌}
use duckdb_panduck.Text.{
  Bytes, codes, is_alnum, is_upper, to_lower, starts_with, take_while, trim, trim_right,
  split_lines, empty, same, all_bytes,
}
use duckdb_panduck.Text

pub data LineKind : Type 0 where
  blank heading list_item preformatted table_start table_row table_cell : LineKind
  table_header table_end hrule template behavior comment html_block text : LineKind

pub record Line : Type 0 where
  pub kind : LineKind
  pub text : Bytes
  pub name : Bytes
  pub attrs : Bytes
  pub markers : Bytes
  pub verbatim : Bool
  pub level : ℕ

-- `Make`
abbrev pub make : LineKind → Bytes → Line
make k s = record {
  kind = k;
  text = s;
  name = [];
  attrs = [];
  markers = [];
  verbatim = false;
  level = 0;
}

abbrev pub is_trim : ℕ → Bool
is_trim c = c == b' ' || c == 9 || c == 13 || c == 10

abbrev pub trimmed : Bytes → Bytes
trimmed s = trim is_trim s

abbrev pub trim_end : Bytes → Bytes
trim_end s = trim_right is_trim s

-- `if (!l.empty() && l.back() == '\r') l.pop_back()`
unfoldable pub pop_cr : Bytes → Bytes
pop_cr [] = []
pop_cr (c ∷ []) = if c == 13 then [] else c ∷ []
pop_cr (c ∷ d ∷ s) = c ∷ pop_cr (d ∷ s)

unfoldable pub source_lines : Bytes → List Bytes
source_lines src = map pop_cr (split_lines src)

-- Two braces open or close together; the byte behind a pair is not looked at twice.
unfoldable pub brace_delta : Bytes → ℤ
brace_delta [] = pos 0
brace_delta (c ∷ []) = pos 0
brace_delta (c ∷ d ∷ s) =
    let pair = brace_delta s in
    let other = brace_delta (d ∷ s) in
    if c == b'{' && d == b'{'
    then pos 1 +ℤ pair
    else if c == b'}' && d == b'}'
    then pair -ℤ pos 1
    else other

-- Up to a bar or two closing braces; a bar that is the last byte is not seen.
unfoldable pub name_of : Bytes → Bytes
name_of [] = []
name_of (c ∷ []) = c ∷ []
name_of (c ∷ d ∷ s) =
    let rest = name_of (d ∷ s) in if c == b'|' || c == b'}' && d == b'}' then [] else c ∷ rest

unfoldable pub template_name : Bytes → Bytes
template_name raw = if ltb (length raw) 3 then [] else trimmed (name_of (drop 2 raw))

abbrev pub is_switch_byte : ℕ → Bool
is_switch_byte c = is_upper c || c == b'_'

unfoldable pub is_behavior_switch : Bytes → Bool
is_behavior_switch t =
    leb 5 (length t)
    && starts_with (codes "__") t
    && same (drop (length t - 2) t) (codes "__")
    && all_bytes is_switch_byte (take (length t - 4) (drop 2 t))

abbrev pub opens_with : ℕ → Bytes → Bool
opens_with c [] = false
opens_with c (d ∷ s) = d == c

abbrev pub min_of : ℕ → ℕ → ℕ
min_of a b = if ltb b a then b else a

abbrev pub is_equals : ℕ → Bool
is_equals c = c == b'='

-- How many bytes at the end satisfy `p`.
abbrev pub trailing_run : (ℕ → Bool) → Bytes → ℕ
trailing_run p s = length s - length (trim_right p s)

abbrev pub is_tag_byte : ℕ → Bool
is_tag_byte c = is_alnum c || c == b'_'

-- The name behind the `<`, in lower case.
unfoldable pub html_tag : Bytes → Bytes
html_tag t = map to_lower (take_while is_tag_byte (drop 1 t))

abbrev pub any_same : Bytes → List Bytes → Bool
any_same t [] = false
any_same t (b ∷ bs) = same t b || any_same t bs

abbrev pub html_blocks : List Bytes
html_blocks =
    codes "blockquote"
    ∷ codes "syntaxhighlight"
    ∷ codes "source"
    ∷ codes "pre"
    ∷ codes "references"
    ∷ codes "div"
    ∷ codes "center"
    ∷ codes "poem"
    ∷ []

abbrev pub html_known : Bytes → Bool
html_known tag = any_same tag html_blocks

-- `if (!attrs.empty() && attrs.back() == '/') attrs.pop_back()`
unfoldable pub pop_slash : Bytes → Bytes
pop_slash [] = []
pop_slash (c ∷ []) = if c == b'/' then [] else c ∷ []
pop_slash (c ∷ d ∷ s) = c ∷ pop_slash (d ∷ s)

-- Whether nothing but blanks stands outside of the tags.
unfoldable pub only_tags : Bool → Bytes → Bool
only_tags in_tag [] = true
only_tags in_tag (c ∷ s) =
    let inside = only_tags true s in
    let outside = only_tags false s in
    let same_state = only_tags in_tag s in
    if c == b'<'
    then inside
    else if c == b'>'
    then outside
    else (in_tag || Text.is_space c) && same_state

abbrev pub is_inline_owned : Bytes → Bool
is_inline_owned tag = any_same tag (codes "ref" ∷ codes "nowiki" ∷ codes "code" ∷ codes "math" ∷ [])

abbrev pub cons_cell : ℕ → List Bytes → List Bytes
cons_cell c [] = (c ∷ []) ∷ []
cons_cell c (cell ∷ cells) = (c ∷ cell) ∷ cells

-- The loop of `SplitCells`, before the cells are trimmed.
unfoldable pub split_pairs : ℕ → Bytes → List Bytes
split_pairs sep [] = [] ∷ []
split_pairs sep (c ∷ []) = (c ∷ []) ∷ []
split_pairs sep (c ∷ d ∷ s) =
    let pair = split_pairs sep s in
    let other = split_pairs sep (d ∷ s) in
    if c == sep && d == sep then [] ∷ pair else cons_cell c other

unfoldable pub split_cells : Bytes → ℕ → List Bytes
split_cells s sep = map trimmed (split_pairs sep s)
