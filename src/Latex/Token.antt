-- ===== src/Latex/Token.antt =====
-- The tokens of libpanduck/include/panduck/latex_tokenizer.hpp, and the length of a UTF-8 sequence
-- (libpanduck/src/latex_tokenizer.cpp). A position in the source is the rest of the text from there.
use duckdb_panduck.Base.{
  ℕ, zero, suc, ◌-◌, ◌≤◌, ◌≡◌, Bool, true, false, ◌&&◌, [], ◌∷◌, arith, length, if◌then◌else◌,
}
use duckdb_panduck.Text.{Bytes, codes, within}

pub data TokenKind : Type 0 where
  text control_word control_symbol begin_group end_group par_break math_shift end : TokenKind

pub record Token : Type 0 where
  pub kind : TokenKind
  pub text : Bytes
  pub display_math : Bool
  pub raw : Bytes

-- The constructor with three arguments leaves `raw` empty.
abbrev pub token : TokenKind → Bytes → Bool → Token
token k t dm = record { kind = k; text = t; display_math = dm; raw = [] }

abbrev pub kind_name : TokenKind → Bytes
kind_name text = codes "text"
kind_name control_word = codes "control_word"
kind_name control_symbol = codes "control_symbol"
kind_name begin_group = codes "begin_group"
kind_name end_group = codes "end_group"
kind_name par_break = codes "par_break"
kind_name math_shift = codes "math_shift"
kind_name end = codes "end"

-- The length that a lead byte announces: `(lead & 0xE0) == 0xC0` is a byte from 0xC0 to 0xDF, and
-- so on; 1 for any other byte.
abbrev pub announced : ℕ → ℕ
announced lead =
    if within 0xC0 0xDF lead
    then 2
    else if within 0xE0 0xEF lead
    then 3
    else if within 0xF0 0xF7 lead
    then 4
    else 1

-- Do `n` continuation bytes, `(b & 0xC0) == 0x80`, stand in front?
unfoldable pub continues : ℕ → Bytes → Bool
continues zero s = true
continues (suc n) [] = false
continues (suc n) (b ∷ s) = within 0x80 0xBF b && continues n s

unfoldable pub utf8_sequence_length : Bytes → ℕ
unfolding continues
utf8_sequence_length [] = 0
utf8_sequence_length (lead ∷ s) = if continues (announced lead - 1) s then announced lead else 1

continues-le : (n : ℕ) (s : Bytes) → continues n s ≡ true → n ≤ length s
unfolding continues
continues-le zero s h = omega arith
continues-le (suc n) [] h = cc
continues-le (suc n) (b ∷ s) h = ground (arith, continues-le n s)

-- Where a byte is left, the length is from 1 to 4 and does not run past the end of the text.
pub utf8_sequence_length_bounds :
    (lead : ℕ) (s : Bytes)
    → (1 ≤ utf8_sequence_length (lead ∷ s))
      × (utf8_sequence_length (lead ∷ s) ≤ 4)
      × (utf8_sequence_length (lead ∷ s) ≤ length (lead ∷ s))
unfolding utf8_sequence_length
utf8_sequence_length_bounds lead s = ground (arith, continues-le (announced lead - 1) s)
