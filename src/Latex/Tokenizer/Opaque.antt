-- ===== src/Latex/Tokenizer/Opaque.antt =====
-- Formulas and comments in `Tokenize` of libpanduck/src/latex_tokenizer.cpp.
use duckdb_panduck.Base.{
  ℕ, suc, ◌≤◌, ◌≡◌, ◌≢◌, refl, ap, ◌∙◌, false, not, [], ◌∷◌, ◌++◌, arith, length, ◌==◌, ==_ne,
  ==_ne', length-append,
}
use duckdb_panduck.Latex.Math.{lex_math_body}
use duckdb_panduck.Latex.Token.{token, text, math_shift}
use duckdb_panduck.Latex.Tokenizer.{
  Step, lex_math, step_plain, step_dollar, step, skip_comment, tokenize_loop, tokenize,
}
use duckdb_panduck.Latex.Tokenizer.Stream.{tokenize_loop_fuel}
use duckdb_panduck.Latex.Verbatim.{text_token, is_blank}
use duckdb_panduck.Text.Lines.{Lacks}
use duckdb_panduck.Text.{Bytes, codes, drop_while}

-- A formula's body with no dollar and no backslash.
abbrev pub IsFormula : Bytes → Type 0
IsFormula body = (body ≢ []) × Lacks b'$' body × Lacks b'\\' body

lex_math_body-dollar :
    (body rest : Bytes)
    → Lacks b'$' body
    → Lacks b'\\' body
    → lex_math_body (codes "$") (body ++ (b'$' ∷ rest)) ≡ record { body = body; rest = rest }
unfolding lex_math_body
lex_math_body-dollar [] [] h k = refl
lex_math_body-dollar [] (c ∷ rest) h k = refl
lex_math_body-dollar (b ∷ []) rest h k =
    rw (==_ne' b b'$' h.0, ==_ne b b'\\' k.0) (rw (lex_math_body-dollar [] rest tt tt))
lex_math_body-dollar (b ∷ c ∷ body) rest h k =
    rw (==_ne' b b'$' h.0, ==_ne b b'\\' k.0) (rw (lex_math_body-dollar (c ∷ body) rest h.1 k.1))

lex_math-dollar :
    (body rest : Bytes)
    → Lacks b'$' body
    → Lacks b'\\' body
    → lex_math false (codes "$") (body ++ (b'$' ∷ rest)) ≡ record {
      tokens = token math_shift [] false ∷ (text_token body ++ token math_shift [] false ∷ []);
      rest = rest;
    }
unfolding lex_math
lex_math-dollar body rest h k = rw (lex_math_body-dollar body rest h k)

length-behind : (s : Bytes) (c : ℕ) (t : Bytes) → length t ≤ length (s ++ (c ∷ t))
length-behind s c t = omega (arith, length-append s (c ∷ t))

step-step_plain :
    (run raw : Bytes) (c : ℕ) (s : Bytes)
    → (c == b'\\') ≡ false
    → step run raw c s ≡ step_plain run raw c s
unfolding step
step-step_plain run raw c [] h = refl
step-step_plain run raw c (d ∷ s) h = rw h

step_dollar-IsFormula :
    (c : ℕ) (body rest : Bytes)
    → Lacks b'$' (c ∷ body)
    → Lacks b'\\' (c ∷ body)
    → step [] [] b'$' (c ∷ (body ++ (b'$' ∷ rest))) ≡ record {
      emitted =
          token math_shift [] false ∷ token text (c ∷ body) false ∷ token math_shift [] false ∷ [];
      run = [];
      raw = [];
      rest = rest;
    }
unfolding step step_plain step_dollar
step_dollar-IsFormula c body rest h k =
    rw (==_ne' c b'$' h.0) (rw (lex_math-dollar (c ∷ body) rest h k))

-- Formulas are opaque: between dollars, a body with no dollar and no backslash comes through as one
-- text token between two shifts of inline math, whatever ligatures, braces, comments and newlines it
-- holds, and lexing goes on behind the closing dollar.
pub tokenize-IsFormula :
    (body rest : Bytes)
    → IsFormula body
    → tokenize (b'$' ∷ (body ++ (b'$' ∷ rest)))
      ≡ token math_shift [] false
        ∷ token text body false
        ∷ token math_shift [] false
        ∷ tokenize rest
unfolding tokenize tokenize_loop
tokenize-IsFormula [] rest (ne, h, k) = absurd (ne refl)
tokenize-IsFormula (c ∷ body) rest (ne, h, k) =
    let src = c ∷ (body ++ (b'$' ∷ rest)) in
    let shifts =
      token math_shift [] false ∷ token text (c ∷ body) false ∷ token math_shift [] false ∷ [] in
    ap (λ (q : Step). q.emitted ++ tokenize_loop (length src) q.run q.raw q.rest)
      (step_dollar-IsFormula c body rest h k)
    ∙ ap (λ ts. shifts ++ ts)
        (tokenize_loop_fuel (length src) (length rest) [] [] rest
          (omega (arith, length-behind (c ∷ body) b'$' rest)) (omega arith))

drop_while-comment :
    (comment rest : Bytes)
    → Lacks b'\n' comment
    → drop_while (λ c. not (c == b'\n')) (comment ++ (b'\n' ∷ rest)) ≡ b'\n' ∷ rest
unfolding drop_while
drop_while-comment [] rest h = refl
drop_while-comment (c ∷ comment) rest h =
    rw (==_ne c b'\n' h.0) (drop_while-comment comment rest h.1)

step_comment :
    (run raw comment rest : Bytes)
    → Lacks b'\n' comment
    → step run raw b'%' (comment ++ (b'\n' ∷ rest))
      ≡ record { emitted = []; run = run; raw = raw; rest = drop_while is_blank rest }
unfolding step_plain skip_comment
step_comment run raw comment rest h =
    step-step_plain run raw b'%' (comment ++ (b'\n' ∷ rest)) refl
    ∙ rw (drop_while-comment comment rest h)

-- A comment is not there: a percent sign, the bytes up to the newline, the newline and the blanks
-- that open the next line leave no token, and do not end the run that stands before them.
pub tokenize_loop_comment :
    (n : ℕ) (run raw comment rest : Bytes)
    → Lacks b'\n' comment
    → tokenize_loop (suc n) run raw (b'%' ∷ (comment ++ (b'\n' ∷ rest)))
      ≡ tokenize_loop n run raw (drop_while is_blank rest)
unfolding tokenize_loop
tokenize_loop_comment n run raw comment rest h =
    ap (λ (q : Step). q.emitted ++ tokenize_loop n q.run q.raw q.rest)
      (step_comment run raw comment rest h)
