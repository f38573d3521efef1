-- ===== src/Slug.antt =====
-- libpanduck/include/panduck/slugify.hpp: `HeadingSlug`, the anchor of a heading.
pub mod Shape
pub mod Repeat
use duckdb_panduck.Base.{
  ℕ, Bool, true, false, not, ◌&&◌, ◌||◌, List, [], ◌∷◌, ◌++◌, leb, ◌==◌, if◌then◌else◌,
}
use duckdb_panduck.Text.{Bytes, codes, is_alpha, is_alnum, to_lower}

-- The variables of the loop.
pub record SlugState : Type 0 where
  pub out : Bytes
  pub started : Bool
  pub pending_space : Bool

-- A byte of a multi-byte character.
abbrev pub is_non_ascii : ℕ → Bool
is_non_ascii c = leb 0x80 c

abbrev pub is_blank : ℕ → Bool
is_blank c = c == b' ' || c == 9 || c == b'\n' || c == 13

-- `if (pending_space) out += sep`
abbrev pub flushed : ℕ → SlugState → Bytes
flushed sep st = if st.pending_space then st.out ++ sep ∷ [] else st.out

abbrev pub put : ℕ → SlugState → ℕ → SlugState
put sep st c = record st { out = flushed sep st ++ c ∷ []; pending_space = false }

abbrev pub is_empty : Bytes → Bool
is_empty [] = true
is_empty (c ∷ s) = false

-- The body of the loop once the first letter is reached.
unfoldable pub slug_byte : ℕ → SlugState → ℕ → SlugState
slug_byte sep st c =
    if is_non_ascii c || is_alnum c
    then put sep st (if is_non_ascii c then c else to_lower c)
    else if is_blank c
    then record st { pending_space = not (is_empty st.out) || st.pending_space }
    else if c == b'-'
    then put sep st sep
    else if c == b'_'
    then put sep st b'_'
    else st

unfoldable pub slug_step : ℕ → SlugState → ℕ → SlugState
unfolding slug_byte
slug_step sep st c =
    if not st.started && (not (is_non_ascii c) && not (is_alpha c))
    then st
    else slug_byte sep (record st { started = true }) c

unfoldable pub slug_loop : ℕ → SlugState → Bytes → SlugState
slug_loop sep st [] = st
slug_loop sep st (c ∷ text) = slug_loop sep (slug_step sep st c) text

abbrev pub start : SlugState
start = record { out = []; started = false; pending_space = false }

abbrev pub or_section : Bytes → Bytes
or_section [] = codes "section"
or_section (c ∷ s) = c ∷ s

unfoldable pub heading_slug : Bytes → ℕ → Bytes
heading_slug text sep = or_section (slug_loop sep start text).out
