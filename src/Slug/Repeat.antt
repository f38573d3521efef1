-- ===== src/Slug/Repeat.antt =====
-- Anchors of anchors, and of titles that differ in case, in
-- libpanduck/include/panduck/slugify.hpp.
use duckdb_panduck.Base.{
  ℕ, ◌≡◌, refl, ap, ◌∙◌, ◌⊎◌, inl, inr, Bool, true, false, not, ◌&&◌, ◌||◌, [], ◌∷◌, ◌++◌, arith,
  ◌==◌, if◌then◌else◌, All, Bool-cases, append_assoc, append-nil,
}
use duckdb_panduck.Text.{Bytes, is_alnum, to_lower}
use duckdb_panduck.Slug.{
  SlugState, is_non_ascii, slug_step, slug_loop, start, or_section, heading_slug,
}
use duckdb_panduck.Slug.Shape.{IsSlugByte, IsOpening, IsSlug, heading_slug-IsSlug}

-- The two separators that the readers pass.
abbrev pub IsSeparator : ℕ → Type 0
IsSeparator sep = (sep ≡ b'-') ⊎ (sep ≡ b'_')

abbrev writing : Bytes → SlugState
writing s = record { out = s; started = true; pending_space = false }

slug_step-IsSlugByte :
    (sep c : ℕ) (s : Bytes)
    → IsSeparator sep
    → IsSlugByte sep c
    → slug_step sep (writing s) c ≡ writing (s ++ c ∷ [])
unfolding slug_step
slug_step-IsSlugByte sep c s k h = ground arith

slug_step-IsOpening : (sep c : ℕ) → IsOpening c → slug_step sep start c ≡ writing (c ∷ [])
unfolding slug_step
slug_step-IsOpening sep c h = ground arith

slug_loop-IsSlugByte :
    (sep : ℕ) (t s : Bytes)
    → IsSeparator sep
    → All (IsSlugByte sep) t
    → slug_loop sep (writing s) t ≡ writing (s ++ t)
unfolding slug_loop
slug_loop-IsSlugByte sep [] s k h = rw append-nil
slug_loop-IsSlugByte sep (c ∷ t) s k (hc, ht) =
    rw (slug_step-IsSlugByte sep c s k hc, slug_loop-IsSlugByte sep t (s ++ c ∷ []) k ht)
      (rw append_assoc)

heading_slug_id : (sep : ℕ) (s : Bytes) → IsSeparator sep → IsSlug sep s → heading_slug s sep ≡ s
unfolding heading_slug slug_loop
heading_slug_id sep [] k h = absurd (h.0 refl)
heading_slug_id sep (c ∷ s) k (ne, opens, bytes) =
    ap (λ st. or_section (slug_loop sep st s).out) (slug_step-IsOpening sep c opens)
    ∙ ap (λ (st : SlugState). or_section st.out) (slug_loop-IsSlugByte sep s (c ∷ []) k bytes.1)

-- With either separator that the readers pass, the anchor of an anchor is that anchor.
pub heading_slug_idem :
    (text : Bytes) (sep : ℕ)
    → IsSeparator sep
    → heading_slug (heading_slug text sep) sep ≡ heading_slug text sep
heading_slug_idem text sep k =
    heading_slug_id sep (heading_slug text sep) k (heading_slug-IsSlug text sep)

-- Does this byte leave the anchor as it is?
abbrev is_dropped : ℕ → Bool
is_dropped c =
    not (is_non_ascii c || is_alnum c || c == b' ' || c == 9 || c == b'\n' || c == 13)
    && not (c == b'-' || c == b'_')

-- `s` read as an anchor reads it: ASCII letters in lower case, and without punctuation.
abbrev pub fold_title : Bytes → Bytes
fold_title [] = []
fold_title (c ∷ s) = if is_dropped c then fold_title s else to_lower c ∷ fold_title s

slug_step-to_lower :
    (sep c : ℕ) (st : SlugState) → slug_step sep st (to_lower c) ≡ slug_step sep st c
unfolding slug_step
slug_step-to_lower sep c st = ground arith

slug_step-is_dropped : (sep c : ℕ) (st : SlugState) → is_dropped c ≡ true → slug_step sep st c ≡ st
unfolding slug_step
slug_step-is_dropped sep c st h = ground arith

slug_loop-fold_title :
    (sep : ℕ) (s : Bytes) (st : SlugState) → slug_loop sep st (fold_title s) ≡ slug_loop sep st s
unfolding slug_loop
slug_loop-fold_title sep [] st = refl
slug_loop-fold_title sep (c ∷ s) st = elim (Bool-cases (is_dropped c)) [
  | inl e ↦ rw (e, slug_step-is_dropped sep c st e) (slug_loop-fold_title sep s st)
  | inr e ↦ rw e (
      ap (λ q. slug_loop sep q (fold_title s)) (slug_step-to_lower sep c st)
      ∙ slug_loop-fold_title sep s (slug_step sep st c))
]

-- Case and punctuation do not matter: the anchor of a title is that of the title with its ASCII
-- letters in lower case and every punctuation byte but the hyphen and the underscore left out.
pub heading_slug-fold_title :
    (text : Bytes) (sep : ℕ) → heading_slug (fold_title text) sep ≡ heading_slug text sep
unfolding heading_slug
heading_slug-fold_title text sep = rw (slug_loop-fold_title sep text start)
