-- ===== src/Registry/Reach.antt =====
-- Every registry that the calls of src/reader_registry.cpp can reach.
use duckdb_panduck.Base.{
  ◌≡◌, refl, ap, ◌∙◌, not, List, [], ◌∷◌, Option, none, some, All, if◌then◌else◌,
}
use duckdb_panduck.Registry.Builtin.{ReaderRegistry, new_registry, builtin_entries, format_at}
use duckdb_panduck.Registry.Calls.{
  BindInput, BindData, register_bind, register_all, register_call, scan_bound, user_entry,
}
use duckdb_panduck.Registry.Fields.{
  Field, Reachable, start, later, after_call, null_empty, builtin_format_for, registry_field,
  found_field,
}
use duckdb_panduck.Registry.Lookup.{AreUnique, register-AreUnique}
use duckdb_panduck.Registry.Names.{ext_of_path_in}
use duckdb_panduck.Registry.Safe.{IsSafeEntry, register_call-AreSafe}
use duckdb_panduck.Registry.{ReaderEntry, Result, lookup, register}
use duckdb_panduck.Text.{Bytes, empty}
use duckdb_panduck.Registry.Start.{builtin_entries-AreUnique, builtin_entries-AreSafe}
use duckdb_panduck.Registry.Frozen.{format_or, format_at-builtin}

register_all-AreUnique :
    (d : BindData) (exts : List Bytes) (es : List ReaderEntry)
    → AreUnique es
    → AreUnique (register_all d exts es)
unfolding register_all
register_all-AreUnique d [] es h = h
register_all-AreUnique d (raw ∷ exts) es h =
    let row = user_entry d raw in
    register_all-AreUnique d exts (register row es) (register-AreUnique row es h)

register_call-AreUnique :
    (kind : Bytes) (input : BindInput) (es : List ReaderEntry)
    → AreUnique es
    → AreUnique (register_call kind input es)
register_call-AreUnique kind input es h = scan (register_bind kind input)
  where
    scan : (r : Result BindData) → AreUnique (scan_bound r es)
    scan (Result.failed e) = h
    scan (Result.done d) = register_all-AreUnique d d.exts es h

-- One row for each extension, and every row of parts that may be put into SQL.
pub record AreSound (es : List ReaderEntry) : Type 0 where
  pub unique : AreUnique es
  pub safe : All IsSafeEntry es

-- Every registry of a process, whatever calls it has seen, has one row for each extension; the
-- function of every row is a plain or a qualified name or empty, the parameter of every option is a
-- name, and its argument a literal of its type.
pub entries-AreSound : (registry : ReaderRegistry) → Reachable registry → AreSound registry.entries
unfolding after_call
entries-AreSound _ start = record {
  unique = builtin_entries-AreUnique;
  safe = builtin_entries-AreSafe;
}
entries-AreSound _ (later {registry} kind input r) =
    let sound = entries-AreSound registry r in
    record {
      unique = register_call-AreUnique kind input registry.entries sound.unique;
      safe = register_call-AreSafe kind input registry.entries sound.safe;
    }

builtin_format-same :
    (registry : ReaderRegistry)
    → Reachable registry
    → registry.builtin_format ≡ new_registry.builtin_format
unfolding after_call
builtin_format-same _ start = refl
builtin_format-same _ (later {registry} kind input r) = builtin_format-same registry r

-- The format that the policies ask about is, in every registry of a process, the format of the row
-- that panduck itself begins with for the extension of the path, and NULL where it has none: no call
-- that registers a reader changes it.
pub builtin_format_for-registry_field :
    (canonicalize : Bytes → Option Bytes) (path : Option Bytes) (registry : ReaderRegistry)
    → Reachable registry
    → builtin_format_for canonicalize path registry
      ≡ registry_field canonicalize Field.format path new_registry
builtin_format_for-registry_field canonicalize none registry r = refl
builtin_format_for-registry_field canonicalize (some path) registry r =
    let ext = ext_of_path_in canonicalize path in
    ap (λ m. null_empty (format_at ext m)) (builtin_format-same registry r)
    ∙ ap null_empty (format_at-builtin ext)
    ∙ found (lookup ext builtin_entries)
  where
    found : (e : Option ReaderEntry) → null_empty (format_or [] e) ≡ found_field Field.format e
    found none = refl
    found (some e) = of_format e.format
      where
        of_format : (s : Bytes) → null_empty (if not (empty s) then s else []) ≡ null_empty s
        of_format [] = refl
        of_format (c ∷ s) = refl
