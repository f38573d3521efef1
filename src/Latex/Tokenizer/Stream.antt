-- ===== src/Latex/Tokenizer/Stream.antt =====
-- Termination of `Tokenize` in libpanduck/src/latex_tokenizer.cpp, and the shape of its tokens.
use duckdb_panduck.Base.{
  ℕ, zero, suc, ◌+◌, ◌≤◌, ◌≡◌, refl, ap, inl, inr, Bool, true, false, not, [], ◌∷◌, ◌++◌, arith,
  length, drop, ◌==◌, Bool-cases, length-append, length-drop, Option, none, some, take,
}
use duckdb_panduck.Latex.Math.{lex_math_body, lex_math_body-IsCut}
use duckdb_panduck.Latex.Token.{utf8_sequence_length, utf8_sequence_length_bounds}
use duckdb_panduck.Latex.Tokenizer.{
  after_begin, is_line_blank, skip_star, lex_word_tail, lex_control_word, lex_math,
  lex_control_symbol, step_backslash, skip_comment, step_newline, step_dollar, step_prose,
  step_plain, step, tokenize_loop,
}
use duckdb_panduck.Latex.Verbatim.{
  Lexed, rest_or, newline_or, is_layout, cut_body, terminator, lex_environment, lex_name, lex_brace,
  is_verbatim, lex_verbatim, skip_options, skip_line_end, lex_verbatim_body, option_end, is_blank,
}
use duckdb_panduck.Text.{
  Bytes, codes, find, find_text, take_while, drop_while, is_alpha, is_space, starts_with,
}

pub length-drop_while : (p : ℕ → Bool) (s : Bytes) → length (drop_while p s) ≤ length s
unfolding drop_while
length-drop_while p [] = omega arith
length-drop_while p (c ∷ s) = ground (arith, length-drop_while p s)

length-skip_star : (s : Bytes) → length (skip_star s) ≤ length s
length-skip_star [] = omega arith
length-skip_star (c ∷ s) = ground arith

length-option_end : (n : ℕ) (s : Bytes) {t : Bytes} → option_end n s ≡ some t → length t ≤ length s
unfolding option_end
length-option_end zero s h = cc
length-option_end (suc n) [] h = cc
length-option_end (suc n) (c ∷ s) {t} h = ground (arith, length-option_end n s {t = t})

length-lex_math :
    (display : Bool) (closer s : Bytes) → length (lex_math display closer s).rest ≤ length s
unfolding lex_math
length-lex_math display closer s =
    let m = lex_math_body closer s in
    let cut = lex_math_body-IsCut closer s in
    elim cut.ends [
      | inl e ↦ omega (
        arith,
        ap length cut.parts,
        length-append m.body cut.tail,
        ap length e,
        length-append closer m.rest,
      )
      | inr (t, r) ↦ rw r (omega arith)
    ]

length-rest_or :
    (s : Bytes) (o : Option Bytes)
    → ((t : Bytes) → o ≡ some t → length t ≤ length s)
    → length (rest_or s o) ≤ length s
length-rest_or s none h = omega arith
length-rest_or s (some t) h = h t refl

length-skip_options : (s : Bytes) → length (skip_options s) ≤ length s
unfolding skip_options
length-skip_options [] = omega arith
length-skip_options (c ∷ s) =
    ground
      (arith, length-rest_or (c ∷ s) (option_end 256 (c ∷ s)) (λ t. length-option_end 256 (c ∷ s)))

length-newline_or :
    (body s : Bytes) → length s ≤ length body → length (newline_or body s) ≤ length body
length-newline_or body [] h = omega arith
length-newline_or body (c ∷ s) h = ground arith

length-skip_line_end : (s : Bytes) → length (skip_line_end s) ≤ length s
unfolding skip_line_end
length-skip_line_end s = length-newline_or s _ (length-drop_while is_layout s)

length-cut_body :
    (env body : Bytes) (o : Option ℕ) → length (cut_body env body o).rest ≤ length body
length-cut_body env body none = omega arith
length-cut_body env body (some stop) =
    omega (arith, length-drop (stop + length (terminator env)) body)

length-lex_verbatim_body :
    (env body : Bytes) → length (lex_verbatim_body env body).rest ≤ length body
unfolding lex_verbatim_body
length-lex_verbatim_body env body = length-cut_body env body (find_text (terminator env) body)

-- The rest that a lexed construct leaves is no longer than `s`.
abbrev Fits : Bytes → Option Lexed → Type 0
Fits s none = Unit
Fits s (some l) = length l.rest ≤ length s

lex_environment-Fits : (env s : Bytes) → Fits s (lex_environment env s)
lex_environment-Fits env s = elim (Bool-cases (is_verbatim env)) [
  | inl e ↦ rw e (
      omega (
        arith,
        length-lex_verbatim_body env (skip_line_end (skip_options s)),
        length-skip_line_end (skip_options s),
        length-skip_options s,
      ))
  | inr e ↦ rw e tt
]

lex_name-Fits : (s : Bytes) (o : Option ℕ) → Fits s (lex_name s o)
lex_name-Fits s none = tt
lex_name-Fits s (some close) =
    weaken (lex_environment (take close s) (drop (suc close) s))
      (lex_environment-Fits (take close s) (drop (suc close) s))
  where
    weaken : (o : Option Lexed) → Fits (drop (suc close) s) o → Fits s o
    weaken none h = tt
    weaken (some l) h = omega (arith, length-drop (suc close) s)

lex_brace-Fits : (s : Bytes) → Fits s (lex_brace s)
lex_brace-Fits [] = tt
lex_brace-Fits (c ∷ s) = elim (Bool-cases (c == b'{')) [
  | inl e ↦ rw e (weaken (lex_name s (find b'}' s)) (lex_name-Fits s (find b'}' s)))
  | inr e ↦ rw e tt
]
  where
    weaken : (o : Option Lexed) → Fits s o → Fits (c ∷ s) o
    weaken none h = tt
    weaken (some l) h = omega arith

after_begin-le :
    (s : Bytes) (o : Option Lexed) → Fits s o → length (after_begin s o).rest ≤ length s
after_begin-le s none h = omega arith
after_begin-le s (some l) h = h

lex_verbatim-Fits : (s : Bytes) → Fits s (lex_verbatim s)
unfolding lex_verbatim
lex_verbatim-Fits s =
    weaken (lex_brace (drop_while is_blank s)) (lex_brace-Fits (drop_while is_blank s))
  where
    weaken : (o : Option Lexed) → Fits (drop_while is_blank s) o → Fits s o
    weaken none h = tt
    weaken (some l) h = omega (arith, length-drop_while is_blank s)

length-lex_word_tail : (name s : Bytes) → length (lex_word_tail name s).rest ≤ length s
unfolding lex_word_tail
length-lex_word_tail name s =
    let rest = drop_while is_blank (skip_star s) in
    ground (
      arith,
      length-drop_while is_blank (skip_star s),
      length-skip_star s,
      after_begin-le rest (lex_verbatim rest) (lex_verbatim-Fits rest),
    )

length-lex_control_word :
    (c : ℕ) (s : Bytes) → is_alpha c ≡ true → length (lex_control_word (c ∷ s)).rest ≤ length s
unfolding lex_control_word drop_while
length-lex_control_word c s h = rw h (
    omega (
      arith,
      length-lex_word_tail (take_while is_alpha (c ∷ s)) (drop_while is_alpha s),
      length-drop_while is_alpha s,
    ))

length-lex_control_symbol :
    (d : ℕ) (s : Bytes) → length (lex_control_symbol (d ∷ s)).rest ≤ length s
unfolding lex_control_symbol
length-lex_control_symbol d s =
    omega
      (arith, length-drop (utf8_sequence_length (d ∷ s)) (d ∷ s), utf8_sequence_length_bounds d s)

length-step_backslash :
    (run raw : Bytes) (d : ℕ) (s : Bytes)
    → length (step_backslash run raw d s).rest ≤ length (d ∷ s)
unfolding step_backslash
length-step_backslash run raw d s = ground (
  arith,
  length-lex_control_word d s,
  length-lex_math false (codes "\\)") s,
  length-lex_math true (codes "\\]") s,
  length-lex_control_symbol d s,
)

length-skip_comment : (s : Bytes) → length (skip_comment s) ≤ length s
unfolding skip_comment
length-skip_comment s =
    let line = drop_while (λ c. not (c == b'\n')) s in
    omega (
      arith,
      length-drop_while is_blank (drop 1 line),
      length-drop 1 line,
      length-drop_while (λ c. not (c == b'\n')) s,
    )

length-step_newline : (run raw s : Bytes) → length (step_newline run raw s).rest ≤ length s
unfolding step_newline
length-step_newline run raw s =
    let next = drop_while is_line_blank s in
    ground (arith, length-drop_while is_line_blank s, length-drop_while is_space next)

length-step_dollar : (run raw s : Bytes) → length (step_dollar run raw s).rest ≤ length s
unfolding step_dollar
length-step_dollar run raw s = elim (Bool-cases (starts_with (codes "$") s)) [
  | inl e ↦ rw e (omega (arith, length-lex_math true (codes "$$") (drop 1 s), length-drop 1 s))
  | inr e ↦ rw e (length-lex_math false (codes "$") s)
]

length-step_prose :
    (run raw : Bytes) (c : ℕ) (s : Bytes) → length (step_prose run raw c s).rest ≤ length s
unfolding step_prose
length-step_prose run raw c s = ground (arith, length-drop 2 s, length-drop 1 s)

length-step_plain :
    (run raw : Bytes) (c : ℕ) (s : Bytes) → length (step_plain run raw c s).rest ≤ length s
unfolding step_plain
length-step_plain run raw c s = ground (
  arith,
  length-skip_comment s,
  length-step_newline run raw s,
  length-step_dollar run raw s,
  length-step_prose run raw c s,
)

-- A round takes at least one byte.
pub length-step : (run raw : Bytes) (c : ℕ) (s : Bytes) → length (step run raw c s).rest ≤ length s
unfolding step
length-step run raw c [] = length-step_plain run raw c []
length-step run raw c (d ∷ s) =
    ground (arith, length-step_backslash run raw d s, length-step_plain run raw c (d ∷ s))

-- Any fuel from the length of the source on gives the same tokens.
pub tokenize_loop_fuel :
    (n m : ℕ) (run raw s : Bytes)
    → length s ≤ n
    → length s ≤ m
    → tokenize_loop n run raw s ≡ tokenize_loop m run raw s
unfolding tokenize_loop
tokenize_loop_fuel n m run raw [] h k = refl
tokenize_loop_fuel zero m run raw (c ∷ s) h k = absurd (omega arith)
tokenize_loop_fuel (suc n) zero run raw (c ∷ s) h k = absurd (omega arith)
tokenize_loop_fuel (suc n) (suc m) run raw (c ∷ s) h k =
    let next = step run raw c s in
    let shorter = length-step run raw c s in
    ap (λ ts. next.emitted ++ ts)
      (tokenize_loop_fuel n m next.run next.raw next.rest (omega arith) (omega arith))
