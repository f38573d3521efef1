-- ===== src/Latex/Verbatim.antt =====
-- `LexVerbatim` of libpanduck/src/latex_tokenizer.cpp: an environment whose body is bytes.
use duckdb_panduck.Base.{
  ℕ, zero, suc, ◌+◌, Bool, false, ◌||◌, List, [], ◌∷◌, ◌++◌, Option, none, some, length, take, drop,
  ◌==◌, if◌then◌else◌,
}
use duckdb_panduck.Latex.Token.{Token, token, text, control_word, begin_group, end_group}
use duckdb_panduck.Text.{Bytes, codes, same, empty, find, find_text, drop_while, trim_right}

abbrev pub is_blank : ℕ → Bool
is_blank c = c == b' ' || c == 9

-- A run of tokens, and the text behind it.
pub record Lexed : Type 0 where
  pub tokens : List Token
  pub rest : Bytes

-- `env.substr(0, env.size() - 1)` where the name ends in a star
unfoldable pub without_star : Bytes → Bytes
without_star [] = []
without_star (c ∷ []) = if c == b'*' then [] else c ∷ []
without_star (c ∷ d ∷ s) = c ∷ without_star (d ∷ s)

abbrev pub is_verbatim : Bytes → Bool
is_verbatim env =
    same (without_star env) (codes "verbatim") || same (without_star env) (codes "lstlisting")

-- The scan for `]` within the budget; `none` where it meets a newline or the limit first.
unfoldable pub option_end : ℕ → Bytes → Option Bytes
option_end zero s = none
option_end (suc budget) [] = none
option_end (suc budget) (c ∷ s) =
    let rest = option_end budget s in
    if c == b']' then some s else if c == b'\n' then none else rest

abbrev verbatim_option_budget : ℕ
verbatim_option_budget = 256

abbrev pub rest_or : Bytes → Option Bytes → Bytes
rest_or s none = s
rest_or s (some rest) = rest

unfoldable pub skip_options : Bytes → Bytes
skip_options [] = []
skip_options (c ∷ s) =
    if c == b'[' then rest_or (c ∷ s) (option_end verbatim_option_budget (c ∷ s)) else c ∷ s

abbrev pub is_layout : ℕ → Bool
is_layout c = c == b' ' || c == 9 || c == 13

abbrev pub newline_or : Bytes → Bytes → Bytes
newline_or body [] = body
newline_or body (c ∷ s) = if c == b'\n' then s else body

-- Past the rest of the `\begin` line, if only layout stands there.
unfoldable pub skip_line_end : Bytes → Bytes
skip_line_end body = newline_or body (drop_while is_layout body)

abbrev pub is_trailing : ℕ → Bool
is_trailing c = c == b'\n' || c == 13 || c == b' ' || c == 9

abbrev pub terminator : Bytes → Bytes
terminator env = codes "\\end{" ++ (env ++ codes "}")

abbrev pub group : Bytes → List Token
group env =
    token begin_group (codes "{") false
    ∷ token text env false
    ∷ token end_group (codes "}") false
    ∷ []

abbrev pub text_token : Bytes → List Token
text_token t = if empty t then [] else token text t false ∷ []

abbrev pub verbatim_tokens : Bytes → Bytes → List Token
verbatim_tokens env body =
    group env
    ++ (text_token (trim_right is_trailing body)
        ++ (token control_word (codes "end") false ∷ group env))

-- The body up to the terminator at `stop`, or to the end of the source.
abbrev pub cut_body : Bytes → Bytes → Option ℕ → Lexed
cut_body env body none = record { tokens = verbatim_tokens env body; rest = [] }
cut_body env body (some stop) = record {
  tokens = verbatim_tokens env (take stop body);
  rest = drop (stop + length (terminator env)) body;
}

unfoldable pub lex_verbatim_body : Bytes → Bytes → Lexed
lex_verbatim_body env body = cut_body env body (find_text (terminator env) body)

abbrev pub lex_environment : Bytes → Bytes → Option Lexed
lex_environment env after =
    if is_verbatim env
    then some (lex_verbatim_body env (skip_line_end (skip_options after)))
    else none

abbrev pub lex_name : Bytes → Option ℕ → Option Lexed
lex_name s none = none
lex_name s (some close) = lex_environment (take close s) (drop (suc close) s)

abbrev pub lex_brace : Bytes → Option Lexed
lex_brace [] = none
lex_brace (c ∷ s) = if c == b'{' then lex_name s (find b'}' s) else none

-- The text behind `\begin`; `none` leaves it to the scanner.
unfoldable pub lex_verbatim : Bytes → Option Lexed
lex_verbatim s = lex_brace (drop_while is_blank s)
