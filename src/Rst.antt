-- ===== src/Rst.antt =====
-- libpanduck/src/rst_scanner.cpp: every line of a reStructuredText document classified by its own
-- text. Each branch of the loop body is a function that gives the line, or `none` to fall through.
pub mod Runs
pub mod Adornment
pub mod Lines
use duckdb_panduck.Base.{
  ℕ, zero, suc, ◌+◌, Bool, true, false, not, ◌&&◌, ◌||◌, List, [], ◌∷◌, ◌++◌, map, Option, none,
  some, length, take, drop, leb, ltb, ◌==◌, if◌then◌else◌, or_else,
}
use duckdb_panduck.Text.{
  Bytes, codes, is_digit, is_punct, starts_with, find, find_text, take_while, drop_while,
  trim_right, trim, back, all_bytes, any_byte, digits_value, split_lines, empty,
}

pub data LineKind : Type 0 where
  blank adornment directive comment field bullet : LineKind
  enumerated grid_sep table_row simple_sep text : LineKind

pub record Line : Type 0 where
  pub kind : LineKind
  pub text : Bytes
  pub name : Bytes
  pub adornment : ℕ
  pub indent : ℕ
  pub ordered : Bool
  pub start : ℕ
  pub text_col : ℕ
  pub raw_text : Bytes
  pub header_sep : Bool
  pub spans : List ℕ
  pub span_starts : List ℕ

-- `Line line;` with its indent set
abbrev pub line : ℕ → Line
line n = record {
  kind = text;
  text = [];
  name = [];
  adornment = 0;
  indent = n;
  ordered = false;
  start = 1;
  text_col = 0;
  raw_text = [];
  header_sep = false;
  spans = [];
  span_starts = [];
}

abbrev pub is_space : ℕ → Bool
is_space c = c == b' ' || c == 9

-- The blanks that `TrimRight` and `TrimBoth` cut off.
abbrev pub is_trim : ℕ → Bool
is_trim c = c == b' ' || c == 9 || c == 13

abbrev pub trim_both : Bytes → Bytes
trim_both s = trim is_trim s

abbrev pub indent_of : Bytes → ℕ
indent_of s = length (take_while is_space s)

abbrev pub is_adornment_char : ℕ → Bool
is_adornment_char c = is_punct c && not (c == b',') && not (c == b';')

-- The character of the run.
unfoldable pub adornment_of : Bytes → Option ℕ
adornment_of [] = none
adornment_of (c ∷ s) =
    if ltb (length (c ∷ s)) 2 || not (is_adornment_char c)
    then none
    else if all_bytes (λ d. d == c) (c ∷ s)
    then some c
    else none

abbrev pub opens_with : ℕ → Bytes → Bool
opens_with c [] = false
opens_with c (d ∷ s) = d == c

-- Whether the separator marks a header.
unfoldable pub grid_sep_of : Bytes → Option Bool
grid_sep_of t =
    if ltb (length t) 3 || not (opens_with b'+' t) || not (back t == b'+')
    then none
    else if all_bytes (λ c. c == b'=' || c == b'+' || c == b'-') t
    then some (any_byte (λ c. c == b'=') t)
    else none

abbrev pub is_equals : ℕ → Bool
is_equals c = c == b'='

-- What `IsSimpleSep` leaves in `spans` and `starts`, and whether the loop came to the end.
pub record Rule : Type 0 where
  pub ended : Bool
  pub widths : List ℕ
  pub starts : List ℕ

abbrev pub rule_end : Bool → Rule
rule_end b = record { ended = b; widths = []; starts = [] }

abbrev pub rule_run : ℕ → ℕ → Rule → Rule
rule_run width i r = record r { widths = width ∷ r.widths; starts = i ∷ r.starts }

-- `s` is the line from byte `i` on.
unfoldable pub rule_loop : ℕ → ℕ → Bytes → Rule
rule_loop zero i s = rule_end false
rule_loop (suc fuel) i [] = rule_end true
rule_loop (suc fuel) i (c ∷ s) =
    let width = length (take_while is_equals (c ∷ s)) in
    let run = rule_run width i (rule_loop fuel (i + width) (drop_while is_equals (c ∷ s))) in
    let gap = rule_loop fuel (suc i) s in
    if is_equals c then run else if c == b' ' then gap else rule_end false

unfoldable pub simple_sep_of : Bytes → Rule
simple_sep_of t =
    if ltb (length t) 2 || not (opens_with b'=' t)
    then rule_end false
    else rule_loop (suc (length t)) 0 t

-- The result of `IsSimpleSep`: two runs at least.
abbrev pub is_simple_sep : Rule → Bool
is_simple_sep r = r.ended && leb 2 (length r.widths)

abbrev pub explicit_line : Line → Bytes → Option ℕ → Line
explicit_line l rest none = record l { kind = comment; text = rest }
explicit_line l rest (some zero) = record l { kind = comment; text = rest }
explicit_line l rest (some (suc n)) = record l {
  kind = directive;
  name = trim_both (take (suc n) rest);
  text = trim_both (drop (suc n + 2) rest);
}

unfoldable pub scan_explicit : Line → Bytes → Option Line
scan_explicit l t =
    let rest = trim_both (drop 2 t) in
    if starts_with (codes "..") t
    then some (explicit_line l rest (find_text (codes "::") rest))
    else none

abbrev pub grid_line : Line → Option Bool → Option Line
grid_line l none = none
grid_line l (some header) = some (record l { kind = grid_sep; header_sep = header })

unfoldable pub scan_row : Line → Bytes → Option Line
scan_row l t =
    if opens_with b'|' t && ltb 1 (length t)
    then some (record l { kind = table_row; text = t })
    else none

abbrev pub simple_line : Line → Rule → Option Line
simple_line l r = if is_simple_sep r then some (record l { kind = simple_sep }) else none

abbrev pub adornment_line : Line → Bytes → Option ℕ → Option Line
adornment_line l t none = none
adornment_line l t (some c) = some (record l { kind = adornment; adornment = c; text = t })

-- `close` counts the bytes of the name.
abbrev pub field_line : Line → Bytes → Option ℕ → Option Line
field_line l s none = none
field_line l s (some zero) = none
field_line l s (some (suc n)) =
    some (record l { kind = field; name = take (suc n) s; text = trim_both (drop (suc n + 1) s) })

unfoldable pub scan_field : Line → Bytes → Option Line
scan_field l [] = none
scan_field l (c ∷ s) = if c == b':' then field_line l s (find b':' s) else none

-- `t.find_first_not_of(" \t", d)`, or `d + 1` where it finds none
unfoldable pub solid_from : ℕ → Bytes → ℕ
solid_from d t =
    if empty (drop_while is_space (drop d t))
    then d + 1
    else d + length (take_while is_space (drop d t))

unfoldable pub scan_bullet : Line → Bytes → Option Line
unfolding solid_from
scan_bullet l [] = none
scan_bullet l (c ∷ s) =
    if (c == b'-' || c == b'*' || c == b'+') && opens_with b' ' s
    then some (record l {
      kind = bullet;
      raw_text = c ∷ s;
      text = trim_both (drop 1 s);
      text_col = l.indent + solid_from 1 (c ∷ s);
    })
    else none

abbrev pub is_close : Bytes → Bool
is_close [] = false
is_close (c ∷ s) = (c == b'.' || c == b')') && opens_with b' ' s

-- The bytes of the number, one for `#`.
abbrev pub number_size : Bytes → ℕ
number_size t = if opens_with b'#' t then 1 else length (take_while is_digit t)

unfoldable pub scan_enum : Line → Bytes → Option Line
unfolding solid_from
scan_enum l t =
    let d = number_size t in
    if ltb 0 d && is_close (drop d t)
    then some (record l {
      kind = enumerated;
      ordered = true;
      start = if opens_with b'#' t then 1 else digits_value 0 (take d t);
      text = trim_both (drop (d + 2) t);
      raw_text = t;
      text_col = l.indent + solid_from (d + 1) t;
    })
    else none

-- From the test of `IsSimpleSep` on, the line carries the runs that it found, whatever it answers.
unfoldable pub scan_rest : Line → Rule → Bytes → Line
scan_rest l r t = or_else (simple_line l r) (
    or_else (adornment_line l t (adornment_of t)) (
      or_else (scan_field l t)
        (or_else (scan_bullet l t) (or_else (scan_enum l t) (record l { kind = text; text = t })))))

abbrev pub with_rule : Line → Rule → Line
with_rule l r = record l { spans = r.widths; span_starts = r.starts }

unfoldable pub scan_line : Line → Bytes → Line
scan_line l t = or_else (scan_explicit l t) (
    or_else (grid_line l (grid_sep_of t))
      (or_else (scan_row l t) (scan_rest (with_rule l (simple_sep_of t)) (simple_sep_of t) t)))

unfoldable pub classify_raw : Bytes → Line
classify_raw raw =
    let l = line (indent_of raw) in
    if empty (trim_both raw) then record l { kind = blank } else scan_line l (trim_both raw)

abbrev pub classify : Bytes → Line
classify l = classify_raw (trim_right is_trim l)

abbrev pub is_blank_line : Line → Bool
is_blank_line l = elim (l.kind) [ blank ↦ true | _ ↦ false ]

-- `if (!out.empty() && out.back().kind == BLANK) out.pop_back()`
unfoldable pub drop_last_blank : List Line → List Line
drop_last_blank [] = []
drop_last_blank (l ∷ []) = if is_blank_line l then [] else l ∷ []
drop_last_blank (l ∷ m ∷ ls) = l ∷ drop_last_blank (m ∷ ls)

unfoldable pub scan_rst : Bytes → List Line
scan_rst src = drop_last_blank (map classify (split_lines src))
