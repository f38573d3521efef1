-- ===== src/Registry/Frozen.antt =====
-- The formats that the constructor of src/reader_registry.cpp keeps for itself.
use duckdb_panduck.Base.{
  ◌≡◌, ◌≢◌, refl, ap, ◌∙◌, subst, not, List, [], ◌∷◌, Option, none, some, All, if◌then◌else◌,
  Bool-cases, inl, inr,
}
use duckdb_panduck.Registry.Builtin.{
  FormatMap, new_registry, builtin_entries, frozen, freeze, assign, format_at,
}
use duckdb_panduck.Registry.Lookup.{AreUnique}
use duckdb_panduck.Registry.{ReaderEntry, lookup}
use duckdb_panduck.Text.Same.{same_eq, same_apart}
use duckdb_panduck.Text.{Bytes, empty, same}
use duckdb_panduck.Registry.Start.{builtin_entries-AreUnique}

format_at-assign :
    (ext key format : Bytes) (m : FormatMap)
    → format_at ext (assign key format m) ≡ (if same key ext then format else format_at ext m)
unfolding format_at assign
format_at-assign ext key format [] = refl
format_at-assign ext key format ((k, old) ∷ rest) =
    let later = format_at-assign ext key format rest in
    elim (Bool-cases (same k key)) [
      | inl f ↦ rw f (
          rw (same_eq k key f)
            (elim (Bool-cases (same key ext)) [ inl g ↦ rw g refl | inr g ↦ rw g refl ]))
      | inr f ↦ rw f (elim (Bool-cases (same k ext)) [
        | inl g ↦ rw g (rw (same_apart k key ext f g) refl)
        | inr g ↦ rw g later
      ])
    ]

-- The format that a map has been given for an extension, or the one it had.
abbrev pub format_or : Bytes → Option ReaderEntry → Bytes
format_or old none = old
format_or old (some e) = if not (empty e.format) then e.format else old

lookup-none :
    (ext : Bytes) (es : List ReaderEntry) → All (λ f. f.ext ≢ ext) es → lookup ext es ≡ none
unfolding lookup
lookup-none ext [] h = refl
lookup-none ext (e ∷ es) h =
    let later = lookup-none ext es h.1 in
    elim (Bool-cases (same e.ext ext)) [
      | inl f ↦ absurd (h.0 (same_eq e.ext ext f))
      | inr f ↦ rw f later
    ]

format_at-frozen :
    (ext : Bytes) (e : ReaderEntry) (m : FormatMap)
    → format_at ext (frozen e m)
      ≡ (if same e.ext ext then format_or (format_at ext m) (some e) else format_at ext m)
format_at-frozen ext e m = elim (Bool-cases (empty e.format)) [
  | inl f ↦ rw f (elim (Bool-cases (same e.ext ext)) [ inl g ↦ rw g refl | inr g ↦ rw g refl ])
  | inr f ↦ rw f (format_at-assign ext e.ext e.format m)
]

format_at-freeze :
    (ext : Bytes) (es : List ReaderEntry) (m : FormatMap)
    → AreUnique es
    → format_at ext (freeze es m) ≡ format_or (format_at ext m) (lookup ext es)
unfolding freeze lookup
format_at-freeze ext [] m h = refl
format_at-freeze ext (e ∷ es) m h =
    let later = format_at-freeze ext es (frozen e m) h.1 in
    let here = format_at-frozen ext e m in
    elim (Bool-cases (same e.ext ext)) [
      | inl f ↦
          let last =
            lookup-none ext es (subst (λ x. All (λ g. g.ext ≢ x) es) (same_eq e.ext ext f) h.0) in
          rw f (later ∙ rw last (rw f at here))
      | inr f ↦ rw f (later ∙ ap (λ x. format_or x (lookup ext es)) (rw f at here))
    ]

pub format_at-builtin :
    (ext : Bytes)
    → format_at ext new_registry.builtin_format ≡ format_or [] (lookup ext builtin_entries)
unfolding format_at
format_at-builtin ext = format_at-freeze ext builtin_entries [] builtin_entries-AreUnique
