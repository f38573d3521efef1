-- ===== src/Registry/Quote.antt =====
-- A value in SQL (src/reader_registry.cpp, ReaderOptionForFun): a quoted text ends where it is meant
-- to.
use duckdb_panduck.Base.{
  ℕ, ◌≡◌, refl, ap, ◌∙◌, Bool, true, false, [], ◌∷◌, ◌++◌, Option, none, some, if◌then◌else◌,
  Bool-cases, inl, inr, arith, ◌==◌, append_assoc,
}
use duckdb_panduck.Registry.Calls.{doubled, quoted, render_option, rendered}
use duckdb_panduck.Registry.Names.{is_identifier}
use duckdb_panduck.Registry.{ReaderOption, arg_matches_type}
use duckdb_panduck.Text.{Bytes, codes}

abbrev pub put_byte : ℕ → Option (Bytes × Bytes) → Option (Bytes × Bytes)
put_byte c none = none
put_byte c (some (s, rest)) = some (c ∷ s, rest)

abbrev pub opens_quote : Bytes → Bool
opens_quote [] = false
opens_quote (c ∷ s) = c == b'\''

-- What SQL reads of a text behind its opening quote: up to the first quote that is not doubled, and
-- what stands behind that.
unfoldable pub read_literal : Bytes → Option (Bytes × Bytes)
read_literal [] = none
read_literal (c ∷ []) = if c == b'\'' then some ([], []) else none
read_literal (c ∷ d ∷ s) = elim (c == b'\'') [
  | true ↦ elim (d == b'\'') [ true ↦ put_byte c (read_literal s) | false ↦ some ([], d ∷ s) ]
  | false ↦ put_byte c (read_literal (d ∷ s))
]

read_literal_other :
    (c : ℕ) (s : Bytes) (r : Bytes × Bytes)
    → (c == b'\'') ≡ false
    → read_literal s ≡ some r
    → read_literal (c ∷ s) ≡ put_byte c (some r)
unfolding read_literal
read_literal_other c [] r h k = absurd (ground arith)
read_literal_other c (d ∷ s) r h k = rw (read_literal, h, k) refl

read_literal_pair :
    (c : ℕ) (s : Bytes)
    → (c == b'\'') ≡ true
    → read_literal (c ∷ (c ∷ s)) ≡ put_byte c (read_literal s)
unfolding read_literal
read_literal_pair c s h = rw (read_literal, h) (rw h refl)

read_literal-doubled :
    (s t : Bytes) → opens_quote t ≡ false → read_literal (doubled s ++ (b'\'' ∷ t)) ≡ some (s, t)
unfolding read_literal
read_literal-doubled [] [] h = refl
read_literal-doubled [] (d ∷ t) h = rw (read_literal, h) refl
read_literal-doubled (c ∷ s) t h =
    let ih = read_literal-doubled s t h in
    elim (Bool-cases (c == b'\'')) [
      | inl e ↦ rw e (read_literal_pair c (doubled s ++ (b'\'' ∷ t)) e ∙ ap (put_byte c) ih)
      | inr e ↦ rw e (read_literal_other c (doubled s ++ (b'\'' ∷ t)) (s, t) e ih)
    ]

-- What an option of type VARCHAR whose parameter is a name is rendered to: the name, the sign and a
-- quote, and behind that a text which SQL reads as the argument, whatever its bytes, and as no more,
-- where what follows does not open with a quote.
pub render_option-read_literal :
    (o : ReaderOption) (t : Bytes)
    → is_identifier o.param ≡ true
    → o.arg_type ≡ codes "VARCHAR"
    → opens_quote t ≡ false
    → (body : Bytes) × (render_option o ≡ rendered (o.param ++ (codes " := '" ++ body)))
      × (read_literal (body ++ t) ≡ some (o.arg, t))
unfolding render_option quoted arg_matches_type
render_option-read_literal o t name type h = (
  doubled o.arg ++ b'\'' ∷ [],
  rw (name, type) refl,
  ap read_literal (append_assoc (doubled o.arg) (b'\'' ∷ []) t) ∙ read_literal-doubled o.arg t h,
)
