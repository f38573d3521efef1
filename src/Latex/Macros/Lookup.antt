-- ===== src/Latex/Macros/Lookup.antt =====
-- What the lookups of libpanduck/src/latex_macros.cpp find.
use duckdb_panduck.Base.{
  ℕ, ◌≡◌, ◌≢◌, refl, ap, sym, ◌∙◌, Bool, true, false, ◌&&◌, List, [], ◌∷◌, ◌++◌, Option, none, some,
  arith, ltb, Bool-cases, inl, inr, ◌==◌, ==_ne, ◌||◌, ◌↔◌, not, subst, or-true,
}
use duckdb_panduck.Latex.Macros.{
  Disposition, semantic, transparent, dropped, text, MacroEntry, macros, environments, scan,
  lookup_macro, lookup_environment,
}
use duckdb_panduck.Latex.Verbatim.{without_star}
use duckdb_panduck.Text.Same.{same_eq, same_refl}
use duckdb_panduck.Text.{Bytes, same}

abbrev is_some {ℓ} : {A : Type ℓ} → Option A → Bool
is_some none = false
is_some (some a) = true

abbrev is_none {ℓ} : {A : Type ℓ} → Option A → Bool
is_none none = true
is_none (some a) = false

-- The argument to descend into is one of those that are read.
abbrev in_args : Option ℕ → ℕ → Bool
in_args none n = true
in_args (some i) n = ltb i n

-- An element type goes with the semantic entries, and with them alone.
abbrev fits : Disposition → MacroEntry → Bool
fits semantic e = is_some e.element_type
fits transparent e = is_none e.element_type && is_none e.expansion
fits dropped e = is_none e.element_type && is_none e.content_arg && is_none e.expansion
fits text e = is_none e.element_type && e.args == 0 && is_some e.expansion

abbrev pub is_consistent : MacroEntry → Bool
is_consistent e = in_args e.content_arg e.args && fits e.disposition e

abbrev all_entries : (MacroEntry → Bool) → List MacroEntry → Bool
all_entries p [] = true
all_entries p (e ∷ es) = p e && all_entries p es

macros-is_consistent : all_entries is_consistent macros ≡ true
unfolding macros
macros-is_consistent = refl

environments-is_consistent : all_entries is_consistent environments ≡ true
unfolding environments
environments-is_consistent = refl

-- A scan finds an entry of the table under its own name.
scan_sound :
    (p : MacroEntry → Bool) (name : Bytes) (es : List MacroEntry) {e : MacroEntry}
    → all_entries p es ≡ true
    → scan name es ≡ some e
    → (e.name ≡ name) × (p e ≡ true)
unfolding scan
scan_sound p name [] h found = cc
scan_sound p name (x ∷ es) {e} h found = elim (Bool-cases (same name x.name)) [
  | inl t ↦
      let here : x ≡ e = ground arith in
      (ap (λ (y : MacroEntry). y.name) (sym here) ∙ sym (same_eq name x.name t), ground arith)
  | inr t ↦ scan_sound p name es (ground arith) (rw t at found)
]

lookup_macro_sound :
    (name : Bytes) {e : MacroEntry}
    → lookup_macro name ≡ some e
    → (e.name ≡ name) × (is_consistent e ≡ true)
unfolding lookup_macro
lookup_macro_sound name found = scan_sound is_consistent name macros macros-is_consistent found

-- An entry that is one of a list.
pub data IsAmong (e : MacroEntry) : List MacroEntry → Type 0 where
  first : {es : List MacroEntry} → IsAmong e (e ∷ es)
  later : {x : MacroEntry} {es : List MacroEntry} → IsAmong e es → IsAmong e (x ∷ es)

abbrev has_name : Bytes → List MacroEntry → Bool
has_name name [] = false
has_name name (e ∷ es) = same name e.name || has_name name es

-- No two entries have one name.
abbrev are_apart : List MacroEntry → Bool
are_apart [] = true
are_apart (e ∷ es) = not (has_name e.name es) && are_apart es

macros-are_apart : are_apart macros ≡ true
unfolding macros
macros-are_apart = refl

scan-IsAmong :
    (name : Bytes) (es : List MacroEntry) (e : MacroEntry)
    → scan name es ≡ some e
    → IsAmong e es × (e.name ≡ name)
unfolding scan
scan-IsAmong name [] e found = cc
scan-IsAmong name (x ∷ es) e found = elim (Bool-cases (same name x.name)) [
  | inl t ↦
      let here : x ≡ e = ground arith in
      (
        subst (λ y. IsAmong y (x ∷ es)) here first,
        ap (λ (y : MacroEntry). y.name) (sym here) ∙ sym (same_eq name x.name t),
      )
  | inr t ↦ let (among, named) = scan-IsAmong name es e (rw t at found) in (later among, named)
]

has_name-IsAmong :
    (e : MacroEntry) (es : List MacroEntry) → IsAmong e es → has_name e.name es ≡ true
has_name-IsAmong e _ first = rw (same_refl e.name) refl
has_name-IsAmong e _ (later {x} {es} h) =
    rw (has_name-IsAmong e es h) (or-true (same e.name x.name))

IsAmong-scan :
    (e : MacroEntry) (es : List MacroEntry)
    → are_apart es ≡ true
    → IsAmong e es
    → scan e.name es ≡ some e
unfolding scan
IsAmong-scan e _ apart first = rw (same_refl e.name) refl
IsAmong-scan e _ apart (later {x} {es} h) = elim (Bool-cases (same e.name x.name)) [
  | inl t ↦
      let there = has_name-IsAmong e es h in
      let here = rw (same_eq e.name x.name t) at there in let no = rw here at apart in absurd (cc)
  | inr t ↦ rw t (IsAmong-scan e es (ground arith) h)
]

-- A macro lookup is the table: it gives an entry for a name exactly where the entry is one of the
-- table and has that very name, so every entry is found, no two stand for one name, and a name that
-- no entry has gives nothing.
pub lookup_macro-IsAmong :
    (name : Bytes) (e : MacroEntry)
    → (lookup_macro name ≡ some e) ↔ (IsAmong e macros × (e.name ≡ name))
unfolding lookup_macro
lookup_macro-IsAmong name e = (
  λ found. scan-IsAmong name macros e found,
  λ h. ap (λ n. scan n macros) (sym h.1) ∙ IsAmong-scan e macros macros-are_apart h.0,
)

without_star-starred : (name : Bytes) → without_star (name ++ b'*' ∷ []) ≡ name
unfolding without_star
without_star-starred [] = refl
without_star-starred (c ∷ []) = refl
without_star-starred (c ∷ d ∷ name) = ap (λ s. c ∷ s) (without_star-starred (d ∷ name))

-- The name does not end in a star.
abbrev pub EndsPlain : Bytes → Type 0
EndsPlain [] = Unit
EndsPlain (c ∷ []) = c ≢ b'*'
EndsPlain (c ∷ d ∷ s) = EndsPlain (d ∷ s)

without_star-EndsPlain : (name : Bytes) → EndsPlain name → without_star name ≡ name
unfolding without_star
without_star-EndsPlain [] h = refl
without_star-EndsPlain (c ∷ []) h = rw (==_ne c b'*' h)
without_star-EndsPlain (c ∷ d ∷ name) h = ap (λ s. c ∷ s) (without_star-EndsPlain (d ∷ name) h)

-- An environment and its starred variant have one disposition: for every name that ends in no star,
-- known or not, the lookup of the starred name is that of the name; and an entry that is found has
-- that name and is consistent.
lookup_environment_starred :
    (name : Bytes)
    → EndsPlain name
    → (lookup_environment (name ++ b'*' ∷ []) ≡ lookup_environment name)
      × ((e : MacroEntry)
          → lookup_environment name ≡ some e
          → (e.name ≡ name) × (is_consistent e ≡ true))
unfolding lookup_environment
lookup_environment_starred name h = (
  ap (λ s. scan s environments) (without_star-starred name ∙ sym (without_star-EndsPlain name h)),
  λ e found.
      scan_sound is_consistent name environments environments-is_consistent
        (ap (λ s. scan s environments) (sym (without_star-EndsPlain name h)) ∙ found),
)
