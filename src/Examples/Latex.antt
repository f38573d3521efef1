-- ===== src/Examples/Latex.antt =====
-- Small LaTeX sources and titles for libpanduck/src/latex_tokenizer.cpp, latex_macros.cpp and
-- libpanduck/include/panduck/slugify.hpp.
use duckdb_panduck.Base.{◌≤◌, ◌≡◌, ◌↔◌, refl, inr, false, [], ◌∷◌, ◌++◌, none, some, arith, length}
use duckdb_panduck.Latex.Macros.Lookup.{IsAmong, lookup_macro-IsAmong}
use duckdb_panduck.Latex.Macros.{MacroEntry, entry, semantic, macros, scan, lookup_macro}
use duckdb_panduck.Latex.Math.{IsCut, lex_math_body, lex_math_body-IsCut}
use duckdb_panduck.Latex.Token.{
  Token, token, text, control_word, math_shift, end, utf8_sequence_length,
  utf8_sequence_length_bounds,
}
use duckdb_panduck.Latex.Tokenizer.Opaque.{tokenize-IsFormula, tokenize_loop_comment}
use duckdb_panduck.Latex.Tokenizer.Prose.{IsProse, spelling, tokenize-IsProse}
use duckdb_panduck.Latex.Tokenizer.RoundTrip.{
  IsEnvironment, environment, environment_tokens, tokenize-environment,
}
use duckdb_panduck.Latex.Tokenizer.Shape.{IsStream, tokenize-IsStream}
use duckdb_panduck.Latex.Tokenizer.Stream.{tokenize_loop_fuel}
use duckdb_panduck.Latex.Tokenizer.{tokenize, tokenize_loop}
use duckdb_panduck.Latex.Verbatim.{is_blank, without_star}
use duckdb_panduck.Slug.Repeat.{heading_slug_idem}
use duckdb_panduck.Slug.Shape.{IsSlug, heading_slug-IsSlug}
use duckdb_panduck.Slug.{heading_slug, slug_loop, slug_step}
use duckdb_panduck.Text.{Bytes, codes, drop_while, find_text}

abbrev source : Bytes
source = codes "\\section*{A -- B}% note\n  x $a_1$"

tokenize-IsStream_example : IsStream (tokenize source)
tokenize-IsStream_example = tokenize-IsStream source

tokenize_loop_fuel_example : tokenize_loop 40 [] [] source ≡ tokenize_loop 100 [] [] source
tokenize_loop_fuel_example = tokenize_loop_fuel 40 100 [] [] source (ground arith) (ground arith)

abbrev prose : Bytes
prose = codes "``a~b"

prose-IsProse : IsProse prose
prose-IsProse = (refl, (refl, (refl, (refl, (refl, tt)))))

tokenize-IsProse_example :
    (t : Token) × (tokenize prose ≡ t ∷ token end [] false ∷ [])
    × (t.kind ≡ text)
    × (spelling t ≡ prose)
tokenize-IsProse_example = tokenize-IsProse prose (cc) prose-IsProse

listing-IsEnvironment : IsEnvironment (codes "verbatim") (codes "100% --- $x")
unfolding find_text without_star
listing-IsEnvironment = record {
  named = refl;
  closed = ground arith;
  single = ground arith;
  solid = refl;
  missing = refl;
}

tokenize-environment_example :
    tokenize
      (codes "\\begin" ++ environment (codes "verbatim") (codes "100% --- $x") (codes "\n\n"))
    ≡ token control_word (codes "begin") false
      ∷ (environment_tokens (codes "verbatim") (codes "100% --- $x") ++ tokenize (codes "\n\n"))
tokenize-environment_example =
    tokenize-environment (codes "verbatim") (codes "100% --- $x") (codes "\n\n")
      listing-IsEnvironment

tokenize-IsFormula_example :
    tokenize (b'$' ∷ (codes "a_1 % --" ++ (b'$' ∷ codes " end")))
    ≡ token math_shift [] false
      ∷ token text (codes "a_1 % --") false
      ∷ token math_shift [] false
      ∷ tokenize (codes " end")
tokenize-IsFormula_example =
    tokenize-IsFormula (codes "a_1 % --") (codes " end") (cc, ground arith, ground arith)

tokenize_loop_comment_example :
    tokenize_loop 9 (codes "a") (codes "a") (b'%' ∷ (codes "xy" ++ (b'\n' ∷ codes "  b")))
    ≡ tokenize_loop 8 (codes "a") (codes "a") (drop_while is_blank (codes "  b"))
tokenize_loop_comment_example =
    tokenize_loop_comment 8 (codes "a") (codes "a") (codes "xy") (codes "  b") (ground arith)

lex_math_body-IsCut_example :
    IsCut (codes "\\]") (codes "x \\$ y\\] z") (lex_math_body (codes "\\]") (codes "x \\$ y\\] z"))
lex_math_body-IsCut_example = lex_math_body-IsCut (codes "\\]") (codes "x \\$ y\\] z")

abbrev e_acute : Bytes
e_acute = 169 ∷ b'x' ∷ []

utf8_sequence_length_bounds_example :
    (1 ≤ utf8_sequence_length (195 ∷ e_acute))
    × (utf8_sequence_length (195 ∷ e_acute) ≤ 4)
    × (utf8_sequence_length (195 ∷ e_acute) ≤ length (195 ∷ e_acute))
utf8_sequence_length_bounds_example = utf8_sequence_length_bounds 195 e_acute

abbrev title : Bytes
title = codes "3 Steps: the `Foo_Bar` (draft)"

heading_slug-title : heading_slug title b'-' ≡ codes "steps-the-foo_bar-draft"
unfolding heading_slug slug_loop slug_step
heading_slug-title = refl

heading_slug_digits : heading_slug (codes "123") b'-' ≡ codes "section"
unfolding heading_slug slug_loop slug_step
heading_slug_digits = refl

heading_slug-IsSlug_example : IsSlug b'-' (heading_slug title b'-')
heading_slug-IsSlug_example = heading_slug-IsSlug title b'-'

heading_slug_idem_example : heading_slug (heading_slug title b'_') b'_' ≡ heading_slug title b'_'
heading_slug_idem_example = heading_slug_idem title b'_' (inr refl)

abbrev emph : MacroEntry
emph = entry "emph" semantic (some (codes "italic")) 1 (some 0) none

lookup_macro-emph : lookup_macro (codes "emph") ≡ some emph
unfolding lookup_macro scan macros
lookup_macro-emph = refl

lookup_macro-IsAmong_example :
    (lookup_macro (codes "emph") ≡ some emph) ↔ (IsAmong emph macros × (emph.name ≡ codes "emph"))
lookup_macro-IsAmong_example = lookup_macro-IsAmong (codes "emph") emph
