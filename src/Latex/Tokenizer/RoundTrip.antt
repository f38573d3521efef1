-- ===== src/Latex/Tokenizer/RoundTrip.antt =====
-- Constructs that `Tokenize` of libpanduck/src/latex_tokenizer.cpp cuts out as bytes: verbatim
-- environments, formulas and comments.
use duckdb_panduck.Base.{
  ℕ, suc, ◌≤◌, ◌≡◌, ◌≢◌, refl, ap, ◌∙◌, true, false, List, [], ◌∷◌, ◌++◌, arith, length, take,
  All-append, none, some, length-append,
}
use duckdb_panduck.Latex.Token.{Token, token, control_word}
use duckdb_panduck.Latex.Tokenizer.{
  lex_word_tail, lex_control_word, step_backslash, step, tokenize_loop, tokenize,
}
use duckdb_panduck.Latex.Tokenizer.Stream.{tokenize_loop_fuel}
use duckdb_panduck.Latex.Verbatim.{
  Lexed, group, text_token, terminator, is_verbatim, is_trailing, lex_verbatim, lex_environment,
  lex_verbatim_body, cut_body, skip_options, skip_line_end,
}
use duckdb_panduck.Text.Find.{
  find-Lacks, take-append, drop-suc-append, find_text-behind, take-suc-append, drop_past,
}
use duckdb_panduck.Text.Lines.{Lacks}
use duckdb_panduck.Text.Trim.{EndsSolid}
use duckdb_panduck.Text.{Bytes, codes, find_text, take_while, drop_while, trim_right}

terminator-Lacks : (env : Bytes) → Lacks b'\n' env → Lacks b'\n' (terminator env)
terminator-Lacks env h =
    All-append (λ c. c ≢ b'\n') (codes "\\end{") _ (ground arith)
      (All-append (λ c. c ≢ b'\n') env _ h (ground arith))

-- Blanks at the end of a body go, and the newline before the terminator with them.
trim_right-newline :
    (body : Bytes) → EndsSolid is_trailing body → trim_right is_trailing (body ++ b'\n' ∷ []) ≡ body
unfolding trim_right
trim_right-newline [] h = refl
trim_right-newline (c ∷ []) h = rw h
trim_right-newline (c ∷ d ∷ body) h = rw (trim_right-newline (d ∷ body) h)

-- The environment with its body, from behind `\begin` on.
abbrev pub environment : Bytes → Bytes → Bytes → Bytes
environment env body rest =
    b'{' ∷ (env ++ (b'}' ∷ (b'\n' ∷ (body ++ (b'\n' ∷ (terminator env ++ rest))))))

abbrev pub environment_tokens : Bytes → Bytes → List Token
environment_tokens env body =
    group env ++ (text_token body ++ (token control_word (codes "end") false ∷ group env))

abbrev pub environment_lexed : Bytes → Bytes → Bytes → Lexed
environment_lexed env body rest = record { tokens = environment_tokens env body; rest = rest }

cut_body-environment :
    (env body rest : Bytes)
    → EndsSolid is_trailing body
    → cut_body env (body ++ (b'\n' ∷ (terminator env ++ rest))) (some (suc (length body)))
      ≡ environment_lexed env body rest
cut_body-environment env body rest solid = λ i. record {
  tokens = environment_tokens' (kept i);
  rest = drop_past body b'\n' (terminator env) rest i;
}
  where
    environment_tokens' : Bytes → List Token
    environment_tokens' b =
        group env ++ (text_token b ++ (token control_word (codes "end") false ∷ group env))

    kept :
        trim_right is_trailing
          (take (suc (length body)) (body ++ (b'\n' ∷ (terminator env ++ rest))))
        ≡ body
    kept =
        ap (trim_right is_trailing) (take-suc-append body b'\n' (terminator env ++ rest))
        ∙ trim_right-newline body solid

-- What a verbatim environment must be for its body to come through: a name that suspends the lexer
-- and holds no brace or newline, a body that ends in no blank and does not hold the terminator.
pub record IsEnvironment (env body : Bytes) : Type 0 where
  pub named : is_verbatim env ≡ true
  pub closed : Lacks b'}' env
  pub single : Lacks b'\n' env
  pub solid : EndsSolid is_trailing body
  pub missing : find_text (terminator env) body ≡ none

module _ (env body rest : Bytes) (h : IsEnvironment env body) where
  lex_verbatim_body-environment :
      lex_verbatim_body env (body ++ (b'\n' ∷ (terminator env ++ rest)))
      ≡ environment_lexed env body rest
  unfolding lex_verbatim_body
  lex_verbatim_body-environment =
      ap (cut_body env (body ++ (b'\n' ∷ (terminator env ++ rest)))) (
        find_text-behind b'\n' (terminator env) body rest (terminator-Lacks env h.single) (cc)
          h.missing)
      ∙ cut_body-environment env body rest h.solid

  lex_environment-environment :
      lex_environment env (b'\n' ∷ (body ++ (b'\n' ∷ (terminator env ++ rest))))
      ≡ some (environment_lexed env body rest)
  unfolding skip_options skip_line_end drop_while
  lex_environment-environment = rw (h.named, lex_verbatim_body-environment)

  lex_verbatim-environment :
      lex_verbatim (environment env body rest) ≡ some (environment_lexed env body rest)
  unfolding lex_verbatim drop_while
  lex_verbatim-environment =
      let after = b'\n' ∷ (body ++ (b'\n' ∷ (terminator env ++ rest))) in
      rw (find-Lacks b'}' env after h.closed)
        (rw (take-append, drop-suc-append) lex_environment-environment)

length-drop_end : (s : Bytes) (c : ℕ) (t : Bytes) → length t ≤ length (s ++ c ∷ t)
length-drop_end s c t = omega (arith, length-append s (c ∷ t))

length-environment : (env body rest : Bytes) → length rest ≤ length (environment env body rest)
length-environment env body rest = omega (
  arith,
  length-append (terminator env) rest,
  length-drop_end body b'\n' (terminator env ++ rest),
  length-drop_end env b'}' (b'\n' ∷ (body ++ (b'\n' ∷ (terminator env ++ rest)))),
)

-- A verbatim environment comes through byte for byte: where env is verbatim or lstlisting, starred or
-- not, and the body does not end in a blank and does not hold `\end{env}`, the source `\begin{env}`, a
-- newline, the body, a newline and `\end{env}` lexes to the begin word, the group, the body as one text
-- token (none if it is empty), the end word and the group, and then to the tokens of the text behind
-- it.
pub tokenize-environment :
    (env body rest : Bytes)
    → IsEnvironment env body
    → tokenize (codes "\\begin" ++ environment env body rest)
      ≡ token control_word (codes "begin") false ∷ (environment_tokens env body ++ tokenize rest)
unfolding tokenize tokenize_loop step step_backslash lex_control_word lex_word_tail take_while
    drop_while
tokenize-environment env body rest h =
    let src = environment env body rest in
    rw (lex_verbatim-environment env body rest h) (
      ap (λ ts. token control_word (codes "begin") false ∷ (environment_tokens env body ++ ts))
        (tokenize_loop_fuel (suc (suc (suc (suc (suc (length src)))))) (length rest) [] [] rest
          (omega (arith, length-environment env body rest)) (omega arith)))
