-- ===== src/Latex/Tokenizer/Shape.antt =====
-- The shape of the tokens of `Tokenize` in libpanduck/src/latex_tokenizer.cpp.
use duckdb_panduck.Base.{
  ℕ, zero, suc, ◌≤◌, ◌≡◌, ◌≢◌, refl, sym, inl, inr, Bool, true, false, List, [], ◌∷◌, ◌++◌, arith,
  length, drop, ◌==◌, Bool-cases, Option, none, some, take, All, All-append,
}
use duckdb_panduck.Latex.Math.{lex_math_body}
use duckdb_panduck.Latex.Token.{
  Token, TokenKind, token, text, control_word, control_symbol, begin_group, end_group, par_break,
  math_shift, end, utf8_sequence_length, utf8_sequence_length_bounds,
}
use duckdb_panduck.Latex.Tokenizer.{
  after_begin, flush, skip_star, lex_word_tail, lex_control_word, lex_math, lex_control_symbol,
  step_backslash, step_newline, step_dollar, step_prose, step_plain, step, tokenize_loop, tokenize,
  opens_newline, is_line_blank,
}
use duckdb_panduck.Latex.Tokenizer.Stream.{length-step}
use duckdb_panduck.Latex.Verbatim.{
  Lexed, lex_verbatim, is_blank, text_token, group, verbatim_tokens, is_verbatim, without_star,
  cut_body, lex_verbatim_body, lex_environment, lex_name, lex_brace, is_trailing,
}
use duckdb_panduck.Text.Same.{same_ne}
use duckdb_panduck.Text.{
  Bytes, codes, same, empty, find, take_while, drop_while, trim_right, is_alpha, starts_with,
  all_bytes,
}

-- What a token of each kind holds.
abbrev pub Holds : TokenKind → Token → Type 0
Holds text t = (t.text ≢ []) × (t.raw ≢ t.text) × (t.display_math ≡ false)
Holds control_word t =
    (t.text ≢ []) × (all_bytes is_alpha t.text ≡ true) × (t.raw ≡ []) × (t.display_math ≡ false)
Holds control_symbol t = (t.text ≢ []) × (t.raw ≡ []) × (t.display_math ≡ false)
Holds begin_group t = (t.text ≡ codes "{") × (t.raw ≡ []) × (t.display_math ≡ false)
Holds end_group t = (t.text ≡ codes "}") × (t.raw ≡ []) × (t.display_math ≡ false)
Holds par_break t = (t.text ≡ []) × (t.raw ≡ []) × (t.display_math ≡ false)
Holds math_shift t = (t.text ≡ []) × (t.raw ≡ [])
Holds end t = ⊥

-- A token before the end of the stream.
abbrev pub IsInner : Token → Type 0
IsInner t = Holds t.kind t

empty-false : (s : Bytes) → empty s ≡ false → s ≢ []
empty-false [] h = cc
empty-false (c ∷ s) h = cc

text_token-IsInner : (s : Bytes) → All IsInner (text_token s)
text_token-IsInner [] = tt
text_token-IsInner (c ∷ s) = ((cc, cc, refl), tt)

flush-IsInner : (run raw : Bytes) → All IsInner (flush run raw)
flush-IsInner [] raw = tt
flush-IsInner (c ∷ run) raw = elim (Bool-cases (same raw (c ∷ run))) [
  | inl e ↦ rw e ((cc, cc, refl), tt)
  | inr e ↦ rw e ((cc, same_ne raw (c ∷ run) e, refl), tt)
]

verbatim-ne-nil : (env : Bytes) → is_verbatim env ≡ true → env ≢ []
unfolding without_star
verbatim-ne-nil [] h = cc
verbatim-ne-nil (c ∷ env) h = cc

group-IsInner : (env : Bytes) → env ≢ [] → All IsInner (group env)
group-IsInner env h = ((refl, refl, refl), ((h, (λ e. h (sym e)), refl), ((refl, refl, refl), tt)))

verbatim_tokens-IsInner : (env body : Bytes) → env ≢ [] → All IsInner (verbatim_tokens env body)
verbatim_tokens-IsInner env body h = All-append IsInner (group env) _ (group-IsInner env h) (
    All-append IsInner (text_token (trim_right is_trailing body)) _
      (text_token-IsInner (trim_right is_trailing body))
      ((cc, refl, refl, refl), group-IsInner env h))

cut_body-IsInner :
    (env body : Bytes) (o : Option ℕ) → env ≢ [] → All IsInner (cut_body env body o).tokens
cut_body-IsInner env body none h = verbatim_tokens-IsInner env body h
cut_body-IsInner env body (some stop) h = verbatim_tokens-IsInner env (take stop body) h

abbrev AllInner : Option Lexed → Type 0
AllInner none = Unit
AllInner (some l) = All IsInner l.tokens

lex_environment-AllInner : (env s : Bytes) → AllInner (lex_environment env s)
unfolding lex_verbatim_body
lex_environment-AllInner env s = elim (Bool-cases (is_verbatim env)) [
  | inl e ↦ rw e (cut_body-IsInner env _ _ (verbatim-ne-nil env e))
  | inr e ↦ rw e tt
]

lex_name-AllInner : (s : Bytes) (o : Option ℕ) → AllInner (lex_name s o)
lex_name-AllInner s none = tt
lex_name-AllInner s (some close) = lex_environment-AllInner (take close s) (drop (suc close) s)

lex_brace-AllInner : (s : Bytes) → AllInner (lex_brace s)
lex_brace-AllInner [] = tt
lex_brace-AllInner (c ∷ s) = elim (Bool-cases (c == b'{')) [
  | inl e ↦ rw e (lex_name-AllInner s (find b'}' s))
  | inr e ↦ rw e tt
]

after_begin-IsInner :
    (s : Bytes) (o : Option Lexed) → AllInner o → All IsInner (after_begin s o).tokens
after_begin-IsInner s none h = tt
after_begin-IsInner s (some l) h = h

lex_word_tail-IsInner : (name s : Bytes) → All IsInner (lex_word_tail name s).tokens
unfolding lex_word_tail lex_verbatim
lex_word_tail-IsInner name s =
    let rest = drop_while is_blank (skip_star s) in
    elim (Bool-cases (same name (codes "begin"))) [
      | inl e ↦ rw e (
          after_begin-IsInner rest (lex_verbatim rest)
            (lex_brace-AllInner (drop_while is_blank rest)))
      | inr e ↦ rw e tt
    ]

take_while-all_bytes : (p : ℕ → Bool) (s : Bytes) → all_bytes p (take_while p s) ≡ true
unfolding take_while
take_while-all_bytes p [] = refl
take_while-all_bytes p (c ∷ s) = ground (arith, take_while-all_bytes p s)

lex_control_word-IsInner :
    (c : ℕ) (s : Bytes) → is_alpha c ≡ true → All IsInner (lex_control_word (c ∷ s)).tokens
unfolding lex_control_word
lex_control_word-IsInner c s h =
    ((nonempty, take_while-all_bytes is_alpha (c ∷ s), refl, refl), lex_word_tail-IsInner _ _)
  where
    nonempty : take_while is_alpha (c ∷ s) ≢ []
    nonempty = unfold take_while in rw h (cc)

lex_math-IsInner :
    (display : Bool) (closer s : Bytes) → All IsInner (lex_math display closer s).tokens
unfolding lex_math
lex_math-IsInner display closer s = (
  (refl, refl),
  All-append IsInner (text_token (lex_math_body closer s).body) _
      (text_token-IsInner (lex_math_body closer s).body) ((refl, refl), tt),
)

take-ne-nil : (n d : ℕ) (s : Bytes) → 1 ≤ n → take n (d ∷ s) ≢ []
take-ne-nil zero d s h = absurd (omega arith)
take-ne-nil (suc n) d s h = cc

lex_control_symbol-IsInner : (d : ℕ) (s : Bytes) → All IsInner (lex_control_symbol (d ∷ s)).tokens
unfolding lex_control_symbol
lex_control_symbol-IsInner d s = (
  (take-ne-nil (utf8_sequence_length (d ∷ s)) d s (utf8_sequence_length_bounds d s).0, refl, refl),
  tt,
)

emit-IsInner :
    (run raw : Bytes) (ts : List Token) → All IsInner ts → All IsInner (flush run raw ++ ts)
emit-IsInner run raw ts h = All-append IsInner (flush run raw) ts (flush-IsInner run raw) h

step_backslash-IsInner :
    (run raw : Bytes) (d : ℕ) (s : Bytes) → All IsInner (step_backslash run raw d s).emitted
unfolding step_backslash
step_backslash-IsInner run raw d s = elim (Bool-cases (is_alpha d)) [
  | inl e ↦ rw e (emit-IsInner run raw _ (lex_control_word-IsInner d s e))
  | inr e ↦ rw e (
      ground (
        arith,
        emit-IsInner run raw _ (lex_math-IsInner false (codes "\\)") s),
        emit-IsInner run raw _ (lex_math-IsInner true (codes "\\]") s),
        emit-IsInner run raw (token math_shift [] false ∷ []) ((refl, refl), tt),
        emit-IsInner run raw (token math_shift [] true ∷ []) ((refl, refl), tt),
        emit-IsInner run raw _ (lex_control_symbol-IsInner d s),
      ))
]

step_newline-IsInner : (run raw s : Bytes) → All IsInner (step_newline run raw s).emitted
unfolding step_newline
step_newline-IsInner run raw s = elim (Bool-cases (opens_newline (drop_while is_line_blank s))) [
  | inl e ↦ rw e (emit-IsInner run raw (token par_break [] false ∷ []) ((refl, refl, refl), tt))
  | inr e ↦ rw e tt
]

step_dollar-IsInner : (run raw s : Bytes) → All IsInner (step_dollar run raw s).emitted
unfolding step_dollar
step_dollar-IsInner run raw s = elim (Bool-cases (starts_with (codes "$") s)) [
  | inl e ↦ rw e (emit-IsInner run raw _ (lex_math-IsInner true (codes "$$") (drop 1 s)))
  | inr e ↦ rw e (emit-IsInner run raw _ (lex_math-IsInner false (codes "$") s))
]

step_prose-emitted : (run raw : Bytes) (c : ℕ) (s : Bytes) → (step_prose run raw c s).emitted ≡ []
unfolding step_prose
step_prose-emitted run raw c s = ground arith

step_plain-IsInner :
    (run raw : Bytes) (c : ℕ) (s : Bytes) → All IsInner (step_plain run raw c s).emitted
unfolding step_plain
step_plain-IsInner run raw c s = elim (Bool-cases (c == b'{')) [
  | inl e ↦ rw e (emit-IsInner run raw _ ((ground arith, refl, refl), tt))
  | inr e ↦ rw e (elim (Bool-cases (c == b'}')) [
    | inl f ↦ rw f (emit-IsInner run raw _ ((ground arith, refl, refl), tt))
    | inr f ↦ rw f (
        ground (
          arith,
          step_newline-IsInner run raw s,
          step_dollar-IsInner run raw s,
          step_prose-emitted run raw c s,
        ))
  ])
]

step-IsInner : (run raw : Bytes) (c : ℕ) (s : Bytes) → All IsInner (step run raw c s).emitted
unfolding step
step-IsInner run raw c [] = step_plain-IsInner run raw c []
step-IsInner run raw c (d ∷ s) =
    ground (arith, step_backslash-IsInner run raw d s, step_plain-IsInner run raw c (d ∷ s))

-- Inner tokens, and one `end` behind them.
abbrev pub IsStream : List Token → Type 0
IsStream [] = ⊥
IsStream (t ∷ []) = t ≡ token end [] false
IsStream (t ∷ u ∷ ts) = IsInner t × IsStream (u ∷ ts)

append-IsStream : (xs ys : List Token) → All IsInner xs → IsStream ys → IsStream (xs ++ ys)
append-IsStream [] ys h k = k
append-IsStream (x ∷ []) [] h k = absurd k
append-IsStream (x ∷ []) (y ∷ ys) h k = (h.0, k)
append-IsStream (x ∷ z ∷ xs) ys h k = (h.0, append-IsStream (z ∷ xs) ys h.1 k)

tokenize_loop-IsStream :
    (n : ℕ) (run raw s : Bytes) → length s ≤ n → IsStream (tokenize_loop n run raw s)
unfolding tokenize_loop
tokenize_loop-IsStream n run raw [] h =
    append-IsStream (flush run raw) _ (flush-IsInner run raw) refl
tokenize_loop-IsStream zero run raw (c ∷ s) h = absurd (omega arith)
tokenize_loop-IsStream (suc n) run raw (c ∷ s) h =
    let next = step run raw c s in
    let shorter = length-step run raw c s in
    append-IsStream next.emitted _ (step-IsInner run raw c s)
      (tokenize_loop-IsStream n next.run next.raw next.rest (omega arith))

-- For every source, malformed ones included, the lexer reads to the end of the input and gives a
-- stream that closes with its only `end` token. Before it, every text token is a run that is not
-- empty and whose source spelling, where one is kept, differs from it; every control word is one or
-- more letters; no control symbol is empty; groups are single braces; and paragraph breaks and math
-- shifts carry no text.
pub tokenize-IsStream : (src : Bytes) → IsStream (tokenize src)
unfolding tokenize
tokenize-IsStream src = tokenize_loop-IsStream (length src) [] [] src (omega arith)
