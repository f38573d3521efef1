-- ===== src/Registry/Accept.antt =====
-- When src/reader_registry.cpp takes a registration (RegisterBind).
use duckdb_panduck.Base.{
  ◌≡◌, refl, ◌∙◌, Bool, true, false, not, ◌&&◌, List, [], ◌∷◌, Option, none, some, Bool-cases, inl,
  inr, arith,
}
use duckdb_panduck.Registry.Calls.{
  BindInput, is_disabled, no_exts, given_options, with_options, register_bind,
}
use duckdb_panduck.Registry.Names.{is_identifier, is_qualified_identifier}
use duckdb_panduck.Registry.{
  ReaderOption, OptionRow, Result, bind_options, bind_option, check_option, check_fields,
  cons_result, option_fields, is_arg_type, arg_matches_type,
}
use duckdb_panduck.Text.{Bytes, empty}

module _ {A : Type 0} where
  abbrev pub is_done : Result A → Bool
  is_done (Result.failed e) = false
  is_done (Result.done a) = true

-- What an option is to have, in no order.
abbrev pub is_good_option : Option ReaderOption → Bool
is_good_option none = false
is_good_option (some o) =
    not (empty o.intent)
    && is_identifier o.param
    && is_arg_type o.arg_type
    && arg_matches_type o.arg_type o.arg

abbrev pub is_good_row : Option OptionRow → Bool
is_good_row none = false
is_good_row (some row) = is_good_option (option_fields row)

abbrev pub are_good_rows : List (Option OptionRow) → Bool
are_good_rows [] = true
are_good_rows (row ∷ rows) = is_good_row row && are_good_rows rows

check_fields-is_good : (o : Option ReaderOption) → is_done (check_fields o) ≡ is_good_option o
unfolding check_option
check_fields-is_good none = refl
check_fields-is_good (some o) = ground arith

bind_option-is_good : (row : Option OptionRow) → is_done (bind_option row) ≡ is_good_row row
bind_option-is_good none = refl
bind_option-is_good (some row) = check_fields-is_good (option_fields row)

cons_result-is_done :
    (r : Result ReaderOption) (rs : Result (List ReaderOption))
    → is_done (cons_result r rs) ≡ is_done r && is_done rs
cons_result-is_done (Result.failed e) rs = refl
cons_result-is_done (Result.done o) (Result.failed e) = refl
cons_result-is_done (Result.done o) (Result.done os) = refl

bind_options-are_good :
    (rows : List (Option OptionRow)) → is_done (bind_options rows) ≡ are_good_rows rows
bind_options-are_good [] = refl
bind_options-are_good (row ∷ rows) =
    cons_result-is_done (bind_option row) (bind_options rows)
    ∙ rw (bind_option-is_good row, bind_options-are_good rows) refl

with_options-is_done :
    (kind : Bytes) (input : BindInput) (r : Result (List ReaderOption))
    → is_done (with_options kind input r) ≡ is_done r
with_options-is_done kind input (Result.failed e) = refl
with_options-is_done kind input (Result.done os) = refl

-- A registration is taken exactly where the setting does not forbid it, its function is a plain or a
-- qualified name, it has an extension, and every option has its fields, an intent, a name for its
-- parameter, a known type and an argument that is a literal of it; otherwise it is an error.
pub register_bind-is_done :
    (kind : Bytes) (input : BindInput)
    → is_done (register_bind kind input)
      ≡ not (is_disabled input.allow)
        && is_qualified_identifier input.function
        && not (no_exts input.exts)
        && are_good_rows (given_options input.options)
unfolding register_bind
register_bind-is_done kind input = elim (Bool-cases (is_disabled input.allow)) [
  | inl e ↦ rw e refl
  | inr e ↦ elim (Bool-cases (is_qualified_identifier input.function)) [
    | inr f ↦ rw (e, f) refl
    | inl f ↦ elim (Bool-cases (no_exts input.exts)) [
      | inl g ↦ rw (e, f, g) refl
      | inr g ↦
          let rows = given_options input.options in
          rw (e, f, g)
            (with_options-is_done kind input (bind_options rows) ∙ bind_options-are_good rows)
    ]
  ]
]
