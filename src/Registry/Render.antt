-- ===== src/Registry/Render.antt =====
-- The options of a safe registry, rendered (src/reader_registry.cpp, ReaderOptionForFun).
use duckdb_panduck.Base.{◌&&◌, List, [], ◌∷◌, Option, none, some, All, Bool-cases, inl, inr}
use duckdb_panduck.Registry.Builtin.{ReaderRegistry}
use duckdb_panduck.Registry.Fields.{Reachable}
use duckdb_panduck.Registry.Reach.{entries-AreSound}
use duckdb_panduck.Registry.Calls.{
  render_option, render_found, find_option, options_of, Rendered, rendered, null, refused, no_value,
  no_mapping, invalid_key, reader_option_for, render_for,
}
use duckdb_panduck.Registry.Names.{ext_of_path_in}
use duckdb_panduck.Registry.{ReaderOption, ReaderEntry, lookup}
use duckdb_panduck.Text.{Bytes, codes, same}
use duckdb_panduck.Registry.Safe.{IsSafeOption, IsSafeEntry}

-- An option that is found may be rendered.
abbrev IsFound : Option ReaderOption → Type 0
IsFound none = Unit
IsFound (some o) = IsSafeOption o

find_option-All :
    (intent value : Bytes) (os : List ReaderOption)
    → All IsSafeOption os
    → IsFound (find_option intent value os)
find_option-All intent value [] h = tt
find_option-All intent value (o ∷ os) h =
    elim (Bool-cases (same o.intent intent && same o.value value)) [
      | inl e ↦ rw e h.0
      | inr e ↦ rw e (find_option-All intent value os h.1)
    ]

lookup-All :
    (ext : Bytes) (es : List ReaderEntry)
    → All IsSafeEntry es
    → All IsSafeOption (options_of (lookup ext es))
unfolding lookup
lookup-All ext [] h = tt
lookup-All ext (e ∷ es) h =
    let later = lookup-All ext es h.1 in
    elim (Bool-cases (same e.ext ext)) [ inl f ↦ rw f (h.0.options) | inr f ↦ rw f later ]

-- No refusal: a text, NULL, or an error of the caller.
abbrev pub IsNotRefused : Rendered → Type 0
IsNotRefused (rendered s) = Unit
IsNotRefused null = Unit
IsNotRefused (Rendered.failed no_value) = Unit
IsNotRefused (Rendered.failed no_mapping) = Unit
IsNotRefused (Rendered.failed (invalid_key key)) = Unit
IsNotRefused (Rendered.failed (refused param)) = ⊥

render_found-IsNotRefused : (o : Option ReaderOption) → IsFound o → IsNotRefused (render_found o)
unfolding render_option
render_found-IsNotRefused none h = tt
render_found-IsNotRefused (some o) h = rw (h.named, h.literal) tt

reader_option_for-IsNotRefused :
    (canonicalize : Bytes → Option Bytes) (path intent value : Option Bytes) (es : List ReaderEntry)
    → All IsSafeEntry es
    → IsNotRefused (reader_option_for canonicalize path intent value es)
unfolding reader_option_for
reader_option_for-IsNotRefused canonicalize path intent none es h = tt
reader_option_for-IsNotRefused canonicalize path intent (some value) es h =
    elim (Bool-cases (same value (codes "default"))) [
      | inl e ↦ rw e tt
      | inr e ↦ rw e (given path intent)
    ]
  where
    given : (p i : Option Bytes) → IsNotRefused (render_for canonicalize p i value es)
    given none i = tt
    given (some p) none = tt
    given (some p) (some i) =
        let os = options_of (lookup (ext_of_path_in canonicalize p) es) in
        render_found-IsNotRefused (find_option i value os)
          (find_option-All i value os (lookup-All (ext_of_path_in canonicalize p) es h))

-- Whatever calls have registered, the renderer refuses no option that they let in: what it throws is
-- the error of who asks, a value that is NULL or one that the reader of the path has no mapping for.
pub reachable-IsNotRefused :
    (canonicalize : Bytes → Option Bytes) (path intent value : Option Bytes)
    (registry : ReaderRegistry)
    → Reachable registry
    → IsNotRefused (reader_option_for canonicalize path intent value registry.entries)
reachable-IsNotRefused canonicalize path intent value registry r =
    reader_option_for-IsNotRefused canonicalize path intent value registry.entries
      (entries-AreSound registry r).safe
