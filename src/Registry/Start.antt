-- ===== src/Registry/Start.antt =====
-- The built-in rows of src/reader_registry.cpp, tested by computation.
use duckdb_panduck.Base.{
  ◌≡◌, ◌≢◌, refl, Bool, true, false, not, ◌&&◌, ◌||◌, List, [], ◌∷◌, All, Bool-cases, inl, inr,
  arith,
}
use duckdb_panduck.Registry.Builtin.{builtin_entries, own_entries}
use duckdb_panduck.Registry.Lookup.{has_ext, AreUnique}
use duckdb_panduck.Registry.Names.{is_identifier, is_qualified_identifier, normalize_ext}
use duckdb_panduck.Registry.Safe.{IsSafeOption, IsSafeEntry}
use duckdb_panduck.Registry.{ReaderEntry, ReaderOption, arg_matches_type}
use duckdb_panduck.Text.Same.{same_ne}
use duckdb_panduck.Text.{Bytes, empty, same, find}

and-both : (a b : Bool) → (a && b) ≡ true → (a ≡ true) × (b ≡ true)
and-both true b h = (refl, h)
and-both false b h = ground arith

abbrev are_unique : List ReaderEntry → Bool
are_unique [] = true
are_unique (e ∷ es) = not (has_ext e.ext es) && are_unique es

abbrev are_safe_options : List ReaderOption → Bool
are_safe_options [] = true
are_safe_options (o ∷ os) =
    (is_identifier o.param && arg_matches_type o.arg_type o.arg) && are_safe_options os

abbrev are_safe : List ReaderEntry → Bool
are_safe [] = true
are_safe (e ∷ es) =
    ((empty e.function || is_qualified_identifier e.function) && are_safe_options e.options)
    && are_safe es

has_ext-ne :
    (ext : Bytes) (es : List ReaderEntry) → not (has_ext ext es) ≡ true → All (λ f. f.ext ≢ ext) es
has_ext-ne ext [] h = tt
has_ext-ne ext (e ∷ es) h =
    let others = has_ext-ne ext es in
    elim (Bool-cases (same e.ext ext)) [
      | inl f ↦ ground arith
      | inr f ↦ (same_ne e.ext ext f, others (rw f at h))
    ]

are_unique-AreUnique : (es : List ReaderEntry) → are_unique es ≡ true → AreUnique es
are_unique-AreUnique [] h = tt
are_unique-AreUnique (e ∷ es) h =
    let both = and-both (not (has_ext e.ext es)) (are_unique es) h in
    (has_ext-ne e.ext es both.0, are_unique-AreUnique es both.1)

are_safe_options-All : (os : List ReaderOption) → are_safe_options os ≡ true → All IsSafeOption os
are_safe_options-All [] h = tt
are_safe_options-All (o ∷ os) h =
    let both = and-both _ (are_safe_options os) h in
    let here = and-both (is_identifier o.param) (arg_matches_type o.arg_type o.arg) both.0 in
    (record { named = here.0; literal = here.1 }, are_safe_options-All os both.1)

are_safe-All : (es : List ReaderEntry) → are_safe es ≡ true → All IsSafeEntry es
are_safe-All [] h = tt
are_safe-All (e ∷ es) h =
    let both = and-both _ (are_safe es) h in
    let here =
      and-both (empty e.function || is_qualified_identifier e.function) (are_safe_options e.options)
        both.0 in
    (
      record { function = here.0; options = are_safe_options-All e.options here.1 },
      are_safe-All es both.1,
    )

pub builtin_entries-AreUnique : AreUnique builtin_entries
unfolding builtin_entries own_entries normalize_ext
builtin_entries-AreUnique = are_unique-AreUnique builtin_entries refl

pub builtin_entries-AreSafe : All IsSafeEntry builtin_entries
unfolding builtin_entries own_entries is_identifier is_qualified_identifier find arg_matches_type
builtin_entries-AreSafe = are_safe-All builtin_entries refl
