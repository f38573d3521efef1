-- ===== src/TextileReader/Words.antt =====
-- Delimiters inside words (libpanduck/src/textile.cpp, TryDelim and ParseInlines).
use Prim.Native.String.{String}
use duckdb_panduck.Base.{
  ℕ, zero, suc, ◌<◌, ◌≡◌, refl, sym, ap, ◌∙◌, Bool, false, not, ◌&&◌, List, [], ◌∷◌, ◌++◌, Option,
  none, some, if◌then◌else◌, ◌==◌, length, arith, All, Bool-cases, inl, inr, append_assoc,
  append-nil, reverse,
}
use duckdb_panduck.Text.{Bytes, codes, any_byte, starts_with}
use duckdb_panduck.TextileReader.Runs.{
  TxInline, text_run, push_text, add_text, mark_at, try_delim, try_delims, delims, follows_word,
  inline_loop, parse_inlines,
}

abbrev pub is_delim : ℕ → Bool
is_delim c = any_byte (λ d. d == c) (codes "*_?@-+^~%")

-- No link, no image, and no delimiter but directly behind a letter or a digit.
abbrev pub IsWordy : Option ℕ → Bytes → Type 0
IsWordy prev [] = Unit
IsWordy prev (c ∷ s) =
    ((c == b'"') ≡ false)
    × ((c == b'!') ≡ false)
    × ((if follows_word prev then false else is_delim c) ≡ false)
    × IsWordy (some c) s

try_delim-none :
    (prev : Option ℕ) (s : Bytes) (d : Bytes × String)
    → (starts_with d.0 s && not (follows_word prev)) ≡ false
    → try_delim prev s d ≡ none
unfolding try_delim
try_delim-none prev s (delim, type) h = rw h refl

try_delims-none :
    (prev : Option ℕ) (s : Bytes) (ds : List (Bytes × String))
    → All (λ d. (starts_with d.0 s && not (follows_word prev)) ≡ false) ds
    → try_delims prev s ds ≡ none
try_delims-none prev s [] h = refl
try_delims-none prev s (d ∷ ds) (h, hs) =
    rw (try_delim-none prev s d h, try_delims-none prev s ds hs)

-- Behind a word no delimiter opens a run, and a byte that is no delimiter opens none.
try_delims-IsWordy :
    (prev : Option ℕ) (c : ℕ) (s : Bytes)
    → (if follows_word prev then false else is_delim c) ≡ false
    → try_delims prev (c ∷ s) delims ≡ none
try_delims-IsWordy prev c s h = elim (Bool-cases (follows_word prev)) [
  | inl e ↦ try_delims-none prev (c ∷ s) delims (rw e (shut delims))
  | inr e ↦ let h' = rw e at h in try_delims-none prev (c ∷ s) delims (plain h')
]
  where
    shut : (ds : List (Bytes × String)) → All (λ d. (starts_with d.0 (c ∷ s) && false) ≡ false) ds
    shut [] = tt
    shut (d ∷ ds) = (ground arith, shut ds)

    other :
        (d : ℕ) (p : Bytes)
        → (d == c) ≡ false
        → (starts_with (d ∷ p) (c ∷ s) && not (follows_word prev)) ≡ false
    other d p e = rw e refl

    plain :
        is_delim c ≡ false
        → All (λ d. (starts_with d.0 (c ∷ s) && not (follows_word prev)) ≡ false) delims
    plain k = (
      other b'*' (codes "*") (ground arith),
      (
        other b'_' (codes "_") (ground arith),
        (
          other b'?' (codes "?") (ground arith),
          (
            other b'*' [] (ground arith),
            (
              other b'_' [] (ground arith),
              (
                other b'@' [] (ground arith),
                (
                  other b'-' [] (ground arith),
                  (
                    other b'+' [] (ground arith),
                    (
                      other b'^' [] (ground arith),
                      (other b'~' [] (ground arith), (other b'%' [] (ground arith), tt)),
                    ),
                  ),
                ),
              ),
            ),
          ),
        ),
      ),
    )

mark_at-IsWordy :
    (prev : Option ℕ) (c : ℕ) (s : Bytes) → IsWordy prev (c ∷ s) → mark_at prev c s ≡ none
unfolding mark_at
mark_at-IsWordy prev c s (quote, image, delim, rest) =
    rw (quote, image, try_delims-IsWordy prev c s delim)

inline_loop-IsWordy :
    (fuel level : ℕ) (prev : Option ℕ) (pending s : Bytes) (out : List TxInline)
    → length s < fuel
    → IsWordy prev s
    → inline_loop fuel level prev pending out s ≡ push_text (pending ++ s) level out
unfolding inline_loop
inline_loop-IsWordy zero level prev pending s out h w = absurd (omega arith)
inline_loop-IsWordy (suc fuel) level prev pending [] out h w =
    ap (λ p. push_text p level out) (sym (append-nil pending))
inline_loop-IsWordy (suc fuel) level prev pending (c ∷ s) out h w =
    rw (inline_loop, mark_at-IsWordy prev c s w)
      (inline_loop-IsWordy fuel level (some c) (pending ++ c ∷ []) s out (omega arith) w.3
        ∙ ap (λ p. push_text p level out) (append_assoc pending (c ∷ []) s))

-- A text with no quote and no exclamation mark, where every delimiter stands directly behind a letter
-- or a digit, is one text run, byte for byte, as in a text of hyphenated words.
pub parse_inlines-IsWordy :
    (c : ℕ) (s : Bytes) (level : ℕ)
    → IsWordy none (c ∷ s)
    → parse_inlines (c ∷ s) level ≡ text_run level (c ∷ s) ∷ []
unfolding parse_inlines push_text add_text
parse_inlines-IsWordy c s level w =
    ap reverse (inline_loop-IsWordy (suc (length (c ∷ s))) level none [] (c ∷ s) [] (omega arith) w)
