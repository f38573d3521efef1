-- ===== src/Registry.antt =====
-- src/reader_registry.cpp: which reader takes a file, how one is registered, and how its options are
-- rendered into SQL. What the source throws is an error here; settings and arguments are values.
pub mod Names
pub mod Calls
pub mod Builtin
pub mod Fields
pub mod Start
pub mod Frozen
pub mod Reach
pub mod Safe
pub mod Lookup
pub mod Quote
pub mod Render
pub mod Accept
use duckdb_panduck.Base.{
  ℕ, zero, suc, ◌+◌, Bool, true, false, not, ◌&&◌, ◌||◌, List, [], ◌∷◌, ◌++◌, map, Option, none,
  some, if◌then◌else◌, ◌==◌, length, take, drop,
}
use duckdb_panduck.Registry.Names.{is_identifier, is_qualified_identifier, ext_of_path}
use duckdb_panduck.Text.{Bytes, codes, empty, same, is_digit, all_bytes, to_lower, trim}

-- `ReaderOption`
pub record ReaderOption : Type 0 where
  pub intent : Bytes
  pub value : Bytes
  pub param : Bytes
  pub arg : Bytes
  pub arg_type : Bytes

pub record ReaderEntry : Type 0 where
  pub ext : Bytes
  pub format : Bytes
  pub reader_ext : Bytes
  pub function : Bytes
  pub kind : Bytes
  pub source : Bytes
  pub options : List ReaderOption

abbrev pub is_policy_blank : ℕ → Bool
is_policy_blank c = c == b' ' || c == 9

-- A word of a policy list; a blank one is left out.
abbrev pub policy_word : Bytes → List Bytes → List Bytes
policy_word word more = if empty word then more else word ∷ more

-- The words between the commas, with the word so far.
unfoldable pub split_policy : Bytes → Bytes → List Bytes
split_policy cur [] = policy_word (trim is_policy_blank cur) []
split_policy cur (c ∷ s) =
    let more = split_policy (if c == b',' then [] else cur ++ to_lower c ∷ []) s in
    if c == b',' then policy_word (trim is_policy_blank cur) more else more

-- `SplitPolicyList`
abbrev pub split_policy_list : Bytes → List Bytes
split_policy_list raw = split_policy [] raw

abbrev pub contains : List Bytes → Bytes → Bool
contains [] word = false
contains (w ∷ ws) word = same w word || contains ws word

-- `ReaderFormatEnabled`, of the two settings
unfoldable pub reader_format_enabled : Bytes → Bytes → Bytes → Bool
reader_format_enabled enabled disabled format =
    let lower : Bytes = map to_lower format in
    (same enabled (codes "*") || empty enabled || contains (split_policy_list enabled) lower)
    && not (contains (split_policy_list disabled) lower)

abbrev pub is_sign : ℕ → Bool
is_sign c = c == b'-' || c == b'+'

abbrev pub behind_sign : Bytes → Bytes
behind_sign [] = []
behind_sign (c ∷ s) = if is_sign c then s else c ∷ s

unfoldable pub is_integer : Bytes → Bool
is_integer arg = not (empty (behind_sign arg)) && all_bytes is_digit (behind_sign arg)

unfoldable pub arg_matches_type : Bytes → Bytes → Bool
arg_matches_type arg_type arg =
    if same arg_type (codes "VARCHAR")
    then true
    else if same arg_type (codes "BOOLEAN")
    then same arg (codes "true") || same arg (codes "false")
    else same arg_type (codes "INTEGER") && is_integer arg

-- `ReaderRegistry::Lookup`
unfoldable pub lookup : Bytes → List ReaderEntry → Option ReaderEntry
lookup ext [] = none
lookup ext (e ∷ es) = let later = lookup ext es in if same e.ext ext then some e else later

-- `ReaderRegistry::Register`
unfoldable pub register : ReaderEntry → List ReaderEntry → List ReaderEntry
register entry [] = entry ∷ []
register entry (e ∷ es) =
    let later = e ∷ register entry es in if same e.ext entry.ext then entry ∷ es else later

-- A row of the `options` argument, each field of which may be NULL.
pub record OptionRow : Type 0 where
  pub intent : Option Bytes
  pub value : Option Bytes
  pub param : Option Bytes
  pub arg : Option Bytes
  pub arg_type : Option Bytes

-- What RegisterBind throws.
pub data BindError : Type 0 where
  registration_disabled : BindError
  invalid_function : Bytes → BindError
  no_extension : BindError
  null_option : BindError
  null_field : BindError
  invalid_param : Bytes → BindError
  unknown_arg_type : Bytes → BindError
  arg_mismatch : Bytes → Bytes → BindError
  no_intent : BindError

pub data Result (A : Type 0) : Type 0 where
  failed : BindError → Result A
  done : A → Result A

-- The fields of a row, all of which are to be there.
abbrev pub option_fields : OptionRow → Option ReaderOption
option_fields row = elim (row.intent) [
  | none ↦ none
  | some intent ↦ elim (row.value) [
    | none ↦ none
    | some value ↦ elim (row.param) [
      | none ↦ none
      | some param ↦ elim (row.arg) [
        | none ↦ none
        | some arg ↦ elim (row.arg_type) [
          | none ↦ none
          | some arg_type ↦ some (record {
            intent = intent;
            value = value;
            param = param;
            arg = arg;
            arg_type = arg_type;
          })
        ]
      ]
    ]
  ]
]

abbrev pub is_arg_type : Bytes → Bool
is_arg_type t = same t (codes "VARCHAR") || same t (codes "BOOLEAN") || same t (codes "INTEGER")

-- The tests on an option whose fields are all there, in their order.
unfoldable pub check_option : ReaderOption → Result ReaderOption
check_option o =
    if not (is_identifier o.param)
    then failed (invalid_param o.param)
    else if not (is_arg_type o.arg_type)
    then failed (unknown_arg_type o.arg_type)
    else if not (arg_matches_type o.arg_type o.arg)
    then failed (arg_mismatch o.arg o.arg_type)
    else if empty o.intent
    then failed no_intent
    else done o

abbrev pub check_fields : Option ReaderOption → Result ReaderOption
check_fields none = failed null_field
check_fields (some o) = check_option o

abbrev pub bind_option : Option OptionRow → Result ReaderOption
bind_option none = failed null_option
bind_option (some row) = check_fields (option_fields row)

abbrev pub cons_result :
    Result ReaderOption → Result (List ReaderOption) → Result (List ReaderOption)
cons_result (failed e) more = failed e
cons_result (done o) (failed e) = failed e
cons_result (done o) (done os) = done (o ∷ os)

-- The loop over the options: the first one that is refused ends it.
abbrev pub bind_options : List (Option OptionRow) → Result (List ReaderOption)
bind_options [] = done []
bind_options (row ∷ rows) = cons_result (bind_option row) (bind_options rows)
