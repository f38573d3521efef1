-- ===== src/Blocks.antt =====
-- libpanduck/include/panduck/block.hpp: the rows that a reader gives, with `Nullable` as an option.
-- The attributes are kept in the order of their first writing; std::map sorts them by key.
pub mod Json
pub mod Reader
pub mod Table
use Prim.Native.String.{String}
use text.Mathlib.Text.{◌==◌}
use duckdb_panduck.Base.{
  ℕ, zero, suc, ◌+◌, ◌/◌, ◌%◌, Bool, List, [], ◌∷◌, ◌++◌, Option, none, some, if◌then◌else◌, ltb,
  true, false, not, ◌&&◌,
}
use duckdb_panduck.Text.{Bytes, empty}

abbrev pub Attributes : Type 0
Attributes = List (String × Bytes)

pub record Block : Type 0 where
  pub kind : String
  pub element_type : String
  pub content : Option Bytes
  pub level : ℕ
  pub encoding : String
  pub attributes : Attributes
  pub element_order : ℕ

-- `Nullable<std::string>::HasContent`
unfoldable pub has_content : Option Bytes → Bool
has_content none = false
has_content (some s) = not (empty s)

-- `attributes[key] = value`
unfoldable pub set_attribute : String → Bytes → Attributes → Attributes
set_attribute key value [] = (key, value) ∷ []
set_attribute key value ((k, v) ∷ rest) =
    let behind = set_attribute key value rest in
    if k == key then (key, value) ∷ rest else (k, v) ∷ behind

-- `if (given) row.attributes[key] = value`
abbrev pub set_if : Bool → String → Bytes → Attributes → Attributes
set_if given key value attrs = if given then set_attribute key value attrs else attrs

unfoldable pub digits : ℕ → ℕ → Bytes → Bytes
digits zero n acc = acc
digits (suc fuel) n acc =
    let more = digits fuel (n / 10) ((48 + n % 10) ∷ acc) in
    if ltb n 10 then (48 + n) ∷ acc else more

-- `std::to_string`; a number has no more digits than it counts, and one.
unfoldable pub to_string : ℕ → Bytes
to_string n = digits (suc n) n []

-- `attributes.find(key)`
unfoldable pub get_attribute : String → Attributes → Option Bytes
get_attribute key [] = none
get_attribute key ((k, v) ∷ rest) =
    let behind = get_attribute key rest in if k == key then some v else behind

-- `attributes.erase(key)`; a map has a key once.
unfoldable pub erase_attribute : String → Attributes → Attributes
erase_attribute key [] = []
erase_attribute key ((k, v) ∷ rest) =
    let behind = erase_attribute key rest in if k == key then rest else (k, v) ∷ behind
