-- ===== src/Registry/Fields.antt =====
-- src/reader_registry.cpp: what SQL asks the registry about a path, and the calls that change it.
use duckdb_panduck.Base.{Bool, true, false, [], ◌∷◌, Option, none, some}
use duckdb_panduck.Registry.Builtin.{ReaderRegistry, new_registry, format_at}
use duckdb_panduck.Registry.Calls.{BindInput, register_call}
use duckdb_panduck.Registry.Names.{ext_of_path_in}
use duckdb_panduck.Registry.{ReaderEntry, lookup, reader_format_enabled}
use duckdb_panduck.Text.{Bytes}

pub data Field : Type 0 where
  format : Field
  function : Field
  reader_ext : Field
  kind : Field
  ext : Field

-- SQL's NULL for an empty text
abbrev pub null_empty : Bytes → Option Bytes
null_empty [] = none
null_empty (c ∷ s) = some (c ∷ s)

abbrev pub field_of : Field → ReaderEntry → Bytes
field_of Field.format e = e.format
field_of Field.function e = e.function
field_of Field.reader_ext e = e.reader_ext
field_of Field.kind e = e.kind
field_of Field.ext e = e.ext

abbrev pub found_field : Field → Option ReaderEntry → Option Bytes
found_field f none = none
found_field f (some e) = null_empty (field_of f e)

abbrev is_found : Option ReaderEntry → Bool
is_found none = false
is_found (some e) = true

module _ (canonicalize : Bytes → Option Bytes) where
  -- `RegistryFieldFun` on one row
  abbrev pub registry_field : Field → Option Bytes → ReaderRegistry → Option Bytes
  registry_field f none registry = none
  registry_field f (some path) registry =
      found_field f (lookup (ext_of_path_in canonicalize path) registry.entries)

  -- `BuiltinFormatFun` on one row
  abbrev pub builtin_format_for : Option Bytes → ReaderRegistry → Option Bytes
  builtin_format_for none registry = none
  builtin_format_for (some path) registry =
      null_empty (format_at (ext_of_path_in canonicalize path) registry.builtin_format)

  -- `CanReadFun` on one row
  abbrev pub can_read : Option Bytes → ReaderRegistry → Option Bool
  can_read none registry = none
  can_read (some path) registry =
      some (is_found (lookup (ext_of_path_in canonicalize path) registry.entries))

module _ (enabled disabled : Bytes) where
  -- `ReaderEnabledFun` on one row, of the two settings
  abbrev pub reader_enabled : Option Bytes → Option Bool
  reader_enabled none = none
  reader_enabled (some name) = some (reader_format_enabled enabled disabled name)

-- A call of panduck_register_doc_reader or panduck_register_table_reader, which differ in `kind`.
unfoldable pub after_call : Bytes → BindInput → ReaderRegistry → ReaderRegistry
after_call call_kind input registry = record {
  entries = register_call call_kind input registry.entries;
  builtin_format = registry.builtin_format;
}

-- The registries of a process: the one that the constructor makes, and what calls make of it.
pub data Reachable : ReaderRegistry → Type 0 where
  start : Reachable new_registry
  later :
      {registry : ReaderRegistry} (call_kind : Bytes) (input : BindInput)
      → Reachable registry
      → Reachable (after_call call_kind input registry)
