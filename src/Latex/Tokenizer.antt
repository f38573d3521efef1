-- ===== src/Latex/Tokenizer.antt =====
-- `Tokenize` of libpanduck/src/latex_tokenizer.cpp. One round of the loop is `step`: it has the
-- pending run (`text` and `raw`) and the rest of the source, and gives the tokens it emits.
pub mod Shape
pub mod Stream
pub mod Opaque
pub mod Prose
pub mod RoundTrip
use duckdb_panduck.Base.{
  ℕ, zero, suc, ◌+◌, Bool, true, false, not, ◌&&◌, ◌||◌, List, [], ◌∷◌, ◌++◌, Option, none, some,
  length, take, drop, ◌==◌, if◌then◌else◌,
}
use duckdb_panduck.Latex.Math.{MathBody, lex_math_body}
use duckdb_panduck.Latex.Token.{
  Token, TokenKind, token, text, control_word, control_symbol, begin_group, end_group, par_break,
  math_shift, end, utf8_sequence_length,
}
use duckdb_panduck.Latex.Verbatim.{Lexed, lex_verbatim, is_blank, text_token}
use duckdb_panduck.Text.{
  Bytes, codes, same, empty, is_alpha, is_space, starts_with, take_while, drop_while,
}

pub record Step : Type 0 where
  pub emitted : List Token
  pub run : Bytes
  pub raw : Bytes
  pub rest : Bytes

-- `flush`: the pending run as a token, with its source spelling where a ligature rewrote it.
abbrev pub flush : Bytes → Bytes → List Token
flush run raw =
    if empty run
    then []
    else record {
      kind = text;
      text = run;
      display_math = false;
      raw = if same raw run then [] else raw;
    }
      ∷ []

-- A round that emits tokens behind the pending run, and goes on with an empty run.
abbrev pub emit : Bytes → Bytes → List Token → Bytes → Step
emit run raw tokens rest = record {
  emitted = flush run raw ++ tokens;
  run = [];
  raw = [];
  rest = rest;
}

-- A round that adds to the run: what it resolves to, and its spelling.
abbrev pub grow : Bytes → Bytes → Bytes → Bytes → Bytes → Step
grow run raw resolved spelling rest = record {
  emitted = [];
  run = run ++ resolved;
  raw = raw ++ spelling;
  rest = rest;
}

abbrev pub skip_star : Bytes → Bytes
skip_star [] = []
skip_star (c ∷ s) = if c == b'*' then s else c ∷ s

abbrev pub after_begin : Bytes → Option Lexed → Lexed
after_begin s none = record { tokens = []; rest = s }
after_begin s (some l) = l

-- What stands behind the name of a control word: its star, its blanks, and a verbatim environment.
unfoldable pub lex_word_tail : Bytes → Bytes → Lexed
lex_word_tail name s =
    let rest = drop_while is_blank (skip_star s) in
    if same name (codes "begin")
    then after_begin rest (lex_verbatim rest)
    else record { tokens = []; rest = rest }

-- `s` opens with the first letter of the name.
unfoldable pub lex_control_word : Bytes → Lexed
lex_control_word s =
    let name = take_while is_alpha s in
    let tail = lex_word_tail name (drop_while is_alpha s) in
    record { tokens = token control_word name false ∷ tail.tokens; rest = tail.rest }

-- `s` is the text behind the opener.
unfoldable pub lex_math : Bool → Bytes → Bytes → Lexed
lex_math display closer s =
    let m = lex_math_body closer s in
    record {
      tokens =
          token math_shift [] display ∷ (text_token m.body ++ token math_shift [] display ∷ []);
      rest = m.rest;
    }

-- One character, which may be several bytes; `s` is the text behind the backslash.
unfoldable pub lex_control_symbol : Bytes → Lexed
lex_control_symbol s =
    let len = utf8_sequence_length s in
    record { tokens = token control_symbol (take len s) false ∷ []; rest = drop len s }

abbrev pub emit_lexed : Bytes → Bytes → Lexed → Step
emit_lexed run raw l = emit run raw l.tokens l.rest

-- The rounds at a backslash with the byte `d` and the text `s` behind it.
unfoldable pub step_backslash : Bytes → Bytes → ℕ → Bytes → Step
step_backslash run raw d s =
    if is_alpha d
    then emit_lexed run raw (lex_control_word (d ∷ s))
    else if d == b'('
    then emit_lexed run raw (lex_math false (codes "\\)") s)
    else if d == b'['
    then emit_lexed run raw (lex_math true (codes "\\]") s)
    else if d == b')'
    then emit run raw (token math_shift [] false ∷ []) s
    else if d == b']'
    then emit run raw (token math_shift [] true ∷ []) s
    else emit_lexed run raw (lex_control_symbol (d ∷ s))

-- TeX's comment rule: to the end of the line, the newline, and the next line's blanks.
unfoldable pub skip_comment : Bytes → Bytes
skip_comment s = drop_while is_blank (drop 1 (drop_while (λ c. not (c == b'\n')) s))

abbrev is_line_blank : ℕ → Bool
is_line_blank c = c == b' ' || c == 9 || c == 13

-- Does a second newline follow, with only blanks before it?
abbrev opens_newline : Bytes → Bool
opens_newline [] = false
opens_newline (c ∷ s) = c == b'\n'

-- `s` is the text behind a newline.
unfoldable pub step_newline : Bytes → Bytes → Bytes → Step
step_newline run raw s =
    let next = drop_while is_line_blank s in
    if opens_newline next
    then emit run raw (token par_break [] false ∷ []) (drop_while is_space next)
    else grow run raw (b'\n' ∷ []) (b'\n' ∷ []) s

-- `s` is the text behind the first dollar.
unfoldable pub step_dollar : Bytes → Bytes → Bytes → Step
step_dollar run raw s =
    if starts_with (codes "$") s
    then emit_lexed run raw (lex_math true (codes "$$") (drop 1 s))
    else emit_lexed run raw (lex_math false (codes "$") s)

abbrev em_dash : Bytes
em_dash = 0xE2 ∷ 0x80 ∷ 0x94 ∷ []

abbrev en_dash : Bytes
en_dash = 0xE2 ∷ 0x80 ∷ 0x93 ∷ []

abbrev left_quote : Bytes
left_quote = 0xE2 ∷ 0x80 ∷ 0x9C ∷ []

abbrev right_quote : Bytes
right_quote = 0xE2 ∷ 0x80 ∷ 0x9D ∷ []

abbrev no_break_space : Bytes
no_break_space = 0xC2 ∷ 0xA0 ∷ []

-- The ligatures, longest spelling first, and the plain byte; `s` is the text behind `c`.
unfoldable pub step_prose : Bytes → Bytes → ℕ → Bytes → Step
step_prose run raw c s =
    if c == b'-' && starts_with (codes "--") s
    then grow run raw em_dash (codes "---") (drop 2 s)
    else if c == b'-' && starts_with (codes "-") s
    then grow run raw en_dash (codes "--") (drop 1 s)
    else if c == b'`' && starts_with (codes "`") s
    then grow run raw left_quote (codes "``") (drop 1 s)
    else if c == 39 && starts_with (39 ∷ []) s
    then grow run raw right_quote (39 ∷ 39 ∷ []) (drop 1 s)
    else if c == b'~'
    then grow run raw no_break_space (codes "~") s
    else grow run raw (c ∷ []) (c ∷ []) s

-- The rounds at a byte that opens no backslash construct.
unfoldable pub step_plain : Bytes → Bytes → ℕ → Bytes → Step
step_plain run raw c s =
    if c == b'{'
    then emit run raw (token begin_group (c ∷ []) false ∷ []) s
    else if c == b'}'
    then emit run raw (token end_group (c ∷ []) false ∷ []) s
    else if c == b'%'
    then record { emitted = []; run = run; raw = raw; rest = skip_comment s }
    else if c == b'\n'
    then step_newline run raw s
    else if c == b'$'
    then step_dollar run raw s
    else step_prose run raw c s

-- A backslash at the very end of the source is an ordinary byte.
unfoldable pub step : Bytes → Bytes → ℕ → Bytes → Step
step run raw c [] = step_plain run raw c []
step run raw c (d ∷ s) =
    if c == b'\\' then step_backslash run raw d s else step_plain run raw c (d ∷ s)

-- The loop. Fuel that runs out gives no `end` token.
unfoldable pub tokenize_loop : ℕ → Bytes → Bytes → Bytes → List Token
tokenize_loop n run raw [] = flush run raw ++ token end [] false ∷ []
tokenize_loop zero run raw (c ∷ s) = []
tokenize_loop (suc n) run raw (c ∷ s) =
    let next = step run raw c s in next.emitted ++ tokenize_loop n next.run next.raw next.rest

-- The fuel is the length of the source.
unfoldable pub tokenize : Bytes → List Token
tokenize src = tokenize_loop (length src) [] [] src
