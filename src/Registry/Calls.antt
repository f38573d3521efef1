-- ===== src/Registry/Calls.antt =====
-- src/reader_registry.cpp: the call that registers a reader, in its two phases, and the options of a
-- reader rendered into SQL.
use duckdb_panduck.Base.{
  Bool, true, false, not, ◌&&◌, ◌||◌, List, [], ◌∷◌, ◌++◌, Option, none, some, if◌then◌else◌, ◌==◌,
}
use duckdb_panduck.Registry.Names.{
  is_identifier, is_qualified_identifier, ext_of_path, ext_of_path_in,
}
use duckdb_panduck.Registry.{
  ReaderOption, ReaderEntry, OptionRow, BindError, Result, bind_options, lookup, register,
  arg_matches_type,
}
use duckdb_panduck.Text.{Bytes, codes, same}

-- The arguments of a call, with the setting that allows it.
pub record BindInput : Type 0 where
  pub allow : Option Bool
  pub reader_ext : Bytes
  pub function : Bytes
  pub exts : List Bytes
  pub options : Option (List (Option OptionRow))

pub record BindData : Type 0 where
  pub exts : List Bytes
  pub reader_ext : Bytes
  pub function : Bytes
  pub kind : Bytes
  pub options : List ReaderOption

abbrev pub is_disabled : Option Bool → Bool
is_disabled none = false
is_disabled (some allow) = not allow

abbrev pub no_exts : List Bytes → Bool
no_exts [] = true
no_exts (e ∷ es) = false

abbrev pub given_options : Option (List (Option OptionRow)) → List (Option OptionRow)
given_options none = []
given_options (some rows) = rows

abbrev pub with_options : Bytes → BindInput → Result (List ReaderOption) → Result BindData
with_options kind input (Result.failed e) = Result.failed e
with_options kind input (Result.done os) = Result.done (record {
  exts = input.exts;
  reader_ext = input.reader_ext;
  function = input.function;
  kind = kind;
  options = os;
})

-- `RegisterBind`
unfoldable pub register_bind : Bytes → BindInput → Result BindData
register_bind kind input =
    if is_disabled input.allow
    then Result.failed BindError.registration_disabled
    else if not (is_qualified_identifier input.function)
    then Result.failed (BindError.invalid_function input.function)
    else if no_exts input.exts
    then Result.failed BindError.no_extension
    else with_options kind input (bind_options (given_options input.options))

-- `raw[0]` of the empty string is its terminator.
abbrev pub dot_before : Bytes → Bytes
dot_before [] = b'.' ∷ []
dot_before (c ∷ s) = if c == b'.' then c ∷ s else b'.' ∷ c ∷ s

unfoldable pub user_entry : BindData → Bytes → ReaderEntry
user_entry data_ raw = record {
  ext = ext_of_path (b'x' ∷ dot_before raw);
  format = data_.reader_ext;
  reader_ext = data_.reader_ext;
  function = data_.function;
  kind = data_.kind;
  source = codes "user";
  options = data_.options;
}

-- The loop of `RegisterScan`
unfoldable pub register_all : BindData → List Bytes → List ReaderEntry → List ReaderEntry
register_all data_ [] entries = entries
register_all data_ (raw ∷ exts) entries =
    register_all data_ exts (register (user_entry data_ raw) entries)

-- A call whose bind fails never reaches the scan.
abbrev pub scan_bound : Result BindData → List ReaderEntry → List ReaderEntry
scan_bound (Result.failed e) entries = entries
scan_bound (Result.done data_) entries = register_all data_ data_.exts entries

-- The registry after a call.
abbrev pub register_call : Bytes → BindInput → List ReaderEntry → List ReaderEntry
register_call kind input entries = scan_bound (register_bind kind input) entries

-- What ReaderOptionForFun and RenderParamsFun throw.
pub data RenderError : Type 0 where
  no_value : RenderError
  no_mapping : RenderError
  refused : Bytes → RenderError
  invalid_key : Bytes → RenderError

-- A text, SQL's NULL, or an error.
pub data Rendered : Type 0 where
  rendered : Bytes → Rendered
  null : Rendered
  failed : RenderError → Rendered

-- A quote is doubled.
abbrev pub doubled : Bytes → Bytes
doubled [] = []
doubled (c ∷ s) = if c == b'\'' then c ∷ c ∷ doubled s else c ∷ doubled s

unfoldable pub quoted : Bytes → Bytes
quoted s = b'\'' ∷ (doubled s ++ b'\'' ∷ [])

abbrev pub argument : ReaderOption → Bytes
argument o = if same o.arg_type (codes "VARCHAR") then quoted o.arg else o.arg

unfoldable pub render_option : ReaderOption → Rendered
render_option o =
    if not (is_identifier o.param) || not (arg_matches_type o.arg_type o.arg)
    then Rendered.failed (refused o.param)
    else rendered (o.param ++ (codes " := " ++ argument o))

abbrev pub find_option : Bytes → Bytes → List ReaderOption → Option ReaderOption
find_option intent value [] = none
find_option intent value (o ∷ os) =
    if same o.intent intent && same o.value value then some o else find_option intent value os

abbrev pub options_of : Option ReaderEntry → List ReaderOption
options_of none = []
options_of (some e) = e.options

abbrev pub render_found : Option ReaderOption → Rendered
render_found none = Rendered.failed no_mapping
render_found (some o) = render_option o

abbrev pub render_for :
    (Bytes → Option Bytes) → Option Bytes → Option Bytes → Bytes → List ReaderEntry → Rendered
render_for canonicalize (some path) (some intent) value entries =
    render_found
      (find_option intent value (options_of (lookup (ext_of_path_in canonicalize path) entries)))
render_for canonicalize _ _ value entries = null

-- `ReaderOptionForFun` on one row
unfoldable pub reader_option_for :
    (Bytes → Option Bytes)
    → Option Bytes
    → Option Bytes
    → Option Bytes
    → List ReaderEntry
    → Rendered
reader_option_for canonicalize path intent none entries = Rendered.failed no_value
reader_option_for canonicalize path intent (some value) entries =
    if same value (codes "default")
    then rendered []
    else render_for canonicalize path intent value entries

abbrev pub key_of : Option Bytes → Bytes
key_of none = []
key_of (some key) = key

-- The loop over the entries of a map, with the text so far.
unfoldable pub render_loop : Bytes → List (Option Bytes × Option Bytes) → Rendered
render_loop out [] = rendered out
render_loop out ((key, value) ∷ entries) = elim (is_identifier (key_of key)) [
  | false ↦ Rendered.failed (invalid_key (key_of key))
  | true ↦ elim value [
    | none ↦ Rendered.failed no_value
    | some v ↦
        render_loop (out ++ (codes ", " ++ (key_of key ++ (codes " := " ++ quoted v)))) entries
  ]
]

-- `RenderParamsFun` on one row
unfoldable pub render_params : Option (List (Option Bytes × Option Bytes)) → Rendered
render_params none = null
render_params (some entries) = render_loop [] entries
