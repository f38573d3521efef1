-- ===== src/Registry/Lookup.antt =====
-- The table of readers (src/reader_registry.cpp, ReaderRegistry): one row for each extension.
use duckdb_panduck.Base.{
  ◌≡◌, ◌≢◌, refl, ap, Bool, ◌||◌, map, ◌++◌, sym, subst, false, List, [], ◌∷◌, some, if◌then◌else◌,
  All, Bool-cases, inl, inr,
}
use duckdb_panduck.Registry.{ReaderEntry, lookup, register}
use duckdb_panduck.Text.Same.{same_ne, same_eq, same_apart}
use duckdb_panduck.Text.{Bytes, same}

-- No two rows have the same extension.
abbrev pub AreUnique : List ReaderEntry → Type 0
AreUnique [] = Unit
AreUnique (e ∷ es) = All (λ f. f.ext ≢ e.ext) es × AreUnique es

-- A registered row is the one that its extension finds, and every other extension finds what it
-- found before.
pub lookup-register :
    (ext : Bytes) (entry : ReaderEntry) (es : List ReaderEntry)
    → lookup ext (register entry es) ≡ (if same entry.ext ext then some entry else lookup ext es)
unfolding lookup register
lookup-register ext entry [] = refl
lookup-register ext entry (e ∷ es) =
    let later = lookup-register ext entry es in
    elim (Bool-cases (same e.ext entry.ext)) [
      | inl f ↦ rw f (elim (Bool-cases (same entry.ext ext)) [
        | inl g ↦ rw g refl
        | inr g ↦ rw g (rw (same_eq e.ext entry.ext f) (rw g refl))
      ])
      | inr f ↦ rw f (elim (Bool-cases (same e.ext ext)) [
        | inl g ↦ rw g (rw (same_apart e.ext entry.ext ext f g) refl)
        | inr g ↦ rw g later
      ])
    ]

-- Registering keeps one row for each extension.
pub register-AreUnique :
    (entry : ReaderEntry) (es : List ReaderEntry) → AreUnique es → AreUnique (register entry es)
unfolding register
register-AreUnique entry [] h = (tt, tt)
register-AreUnique entry (e ∷ es) h =
    let later = register-AreUnique entry es h.1 in
    elim (Bool-cases (same e.ext entry.ext)) [
      | inl f ↦ rw f (subst (λ x. All (λ g. g.ext ≢ x) es) (same_eq e.ext entry.ext f) h.0, h.1)
      | inr f ↦ rw f (others es h.0 f, later)
    ]
  where
    others :
        (fs : List ReaderEntry)
        → All (λ g. g.ext ≢ e.ext) fs
        → same e.ext entry.ext ≡ false
        → All (λ g. g.ext ≢ e.ext) (register entry fs)
    others [] h f = ((λ k. same_ne e.ext entry.ext f (sym k)), tt)
    others (g ∷ fs) h f =
        let later = others fs h.1 f in
        elim (Bool-cases (same g.ext entry.ext)) [
          | inl k ↦ rw k ((λ x. same_ne e.ext entry.ext f (sym x)), h.1)
          | inr k ↦ rw k (h.0, later)
        ]

abbrev pub has_ext : Bytes → List ReaderEntry → Bool
has_ext ext [] = false
has_ext ext (e ∷ es) = same e.ext ext || has_ext ext es

abbrev pub swapped : ReaderEntry → ReaderEntry → ReaderEntry
swapped entry e = if same e.ext entry.ext then entry else e

-- The rows with each of the extension of `entry` replaced by it in its place, or with `entry` behind
-- them where none has its extension.
abbrev pub replaced : ReaderEntry → List ReaderEntry → List ReaderEntry
replaced entry es = if has_ext entry.ext es then map (swapped entry) es else es ++ entry ∷ []

swapped-others :
    (entry : ReaderEntry) (es : List ReaderEntry)
    → All (λ f. f.ext ≢ entry.ext) es
    → map (swapped entry) es ≡ es
swapped-others entry [] h = refl
swapped-others entry (e ∷ es) (h, hs) =
    let rest = swapped-others entry es hs in
    elim (Bool-cases (same e.ext entry.ext)) [
      | inl f ↦ absurd (h (same_eq e.ext entry.ext f))
      | inr f ↦ rw f (ap (λ xs. e ∷ xs) rest)
    ]

-- Over rows of which no two have one extension, registering a row puts it in the place of the row
-- that has its extension and leaves all other rows as they are and where they are; where no row has
-- its extension it comes last.
pub register-replaced :
    (entry : ReaderEntry) (es : List ReaderEntry)
    → AreUnique es
    → register entry es ≡ replaced entry es
unfolding register
register-replaced entry [] h = refl
register-replaced entry (e ∷ es) (h, hs) =
    let rest = register-replaced entry es hs in
    elim (Bool-cases (same e.ext entry.ext)) [
      | inl f ↦
          let others = subst (λ x. All (λ g. g.ext ≢ x) es) (same_eq e.ext entry.ext f) h in
          rw f (ap (λ xs. entry ∷ xs) (sym (swapped-others entry es others)))
      | inr f ↦
          rw (f, rest)
            (elim (Bool-cases (has_ext entry.ext es)) [ inl g ↦ rw g refl | inr g ↦ rw g refl ])
    ]
