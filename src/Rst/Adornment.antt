-- ===== src/Rst/Adornment.antt =====
-- Section adornment (libpanduck/src/rst_scanner.cpp, IsAdornment).
use duckdb_panduck.Base.{
  or-true, ℕ, zero, suc, ◌≡◌, ◌≢◌, refl, ap, ◌∙◌, true, false, ◌∷◌, arith, length, ltb, replicate,
  none, some, ◌==◌, ==_ne, ==_ne',
}
use duckdb_panduck.Rst.{
  Line, adornment, line, is_trim, is_space, is_adornment_char, adornment_of, scan_explicit,
  grid_sep_of, scan_row, simple_sep_of, rule_end, scan_rest, scan_line, classify_raw, classify,
  indent_of,
}
use duckdb_panduck.Text.Trim.{EndsSolid, trim_id, trim_right_id}
use duckdb_panduck.Text.{Bytes, take_while, all_bytes}

-- An adornment character that opens no other construct.
pub record IsPlainAdornment (c : ℕ) : Type 0 where
  pub adorns : is_adornment_char c ≡ true
  pub no_dot : c ≢ b'.'
  pub no_plus : c ≢ b'+'
  pub no_bar : c ≢ b'|'
  pub no_equals : c ≢ b'='

-- The character, two times or more.
abbrev pub run : ℕ → ℕ → Bytes
run n c = c ∷ c ∷ replicate n c

is_trim-adornment : (c : ℕ) → is_adornment_char c ≡ true → is_trim c ≡ false
is_trim-adornment c h = ground arith

run-EndsSolid : (n c : ℕ) → is_trim c ≡ false → EndsSolid is_trim (c ∷ replicate n c)
run-EndsSolid zero c h = h
run-EndsSolid (suc n) c h = run-EndsSolid n c h

all_same : (n c : ℕ) → all_bytes (λ d. d == c) (replicate n c) ≡ true
all_same zero c = refl
all_same (suc n) c = ground (arith, all_same n c)

adornment_of-run : (n c : ℕ) → is_adornment_char c ≡ true → adornment_of (run n c) ≡ some c
unfolding adornment_of
adornment_of-run n c h =
    rw (long (length (replicate n c))) (rw h (rw (all_same (suc (suc n)) c) refl))
  where
    long : (k : ℕ) → ltb (suc (suc k)) 2 ≡ false
    long k = ground arith

module _ (n c : ℕ) (h : IsPlainAdornment c) where
  scan_explicit-run : (l : Line) → scan_explicit l (run n c) ≡ none
  unfolding scan_explicit
  scan_explicit-run l = rw (==_ne' c b'.' h.no_dot) refl

  grid_sep_of-run : grid_sep_of (run n c) ≡ none
  unfolding grid_sep_of
  grid_sep_of-run = rw (==_ne c b'+' h.no_plus) (rw (or-true (ltb (length (run n c)) 3)) refl)

  scan_row-run : (l : Line) → scan_row l (run n c) ≡ none
  unfolding scan_row
  scan_row-run l = rw (==_ne c b'|' h.no_bar) refl

  simple_sep_of-run : simple_sep_of (run n c) ≡ rule_end false
  unfolding simple_sep_of
  simple_sep_of-run = rw (==_ne c b'=' h.no_equals) (rw (or-true (ltb (length (run n c)) 2)) refl)

  scan_line-run :
      (k : ℕ)
      → scan_line (line k) (run n c)
        ≡ record (line k) { kind = adornment; adornment = c; text = run n c }
  unfolding scan_line scan_rest
  scan_line-run k = rw (scan_explicit-run (line k)) (
      rw grid_sep_of-run (
        rw (scan_row-run (line k))
          (rw simple_sep_of-run (rw (adornment_of-run n c h.adorns) refl))))

  indent_of-run : indent_of (run n c) ≡ 0
  unfolding take_while
  indent_of-run = rw (is_space-adornment c h.adorns) refl
    where
      is_space-adornment : (c : ℕ) → is_adornment_char c ≡ true → is_space c ≡ false
      is_space-adornment c h = ground arith

  classify_raw-run :
      classify_raw (run n c) ≡ record (line 0) { kind = adornment; adornment = c; text = run n c }
  unfolding classify_raw
  classify_raw-run =
      let solid = is_trim-adornment c h.adorns in
      rw (trim_id is_trim (run n c) solid (run-EndsSolid (suc n) c solid))
        (rw indent_of-run (scan_line-run 0))

-- A line that is one adornment character, two times or more, and no dot, plus, bar or equals sign, is
-- an adornment of this character, and keeps the run as its text.
pub classify-run :
    (n c : ℕ)
    → IsPlainAdornment c
    → classify (run n c) ≡ record (line 0) { kind = adornment; adornment = c; text = run n c }
classify-run n c h =
    let solid = is_trim-adornment c h.adorns in
    ap classify_raw (trim_right_id is_trim (run n c) (run-EndsSolid (suc n) c solid))
    ∙ classify_raw-run n c h
