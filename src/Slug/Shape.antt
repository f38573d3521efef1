-- ===== src/Slug/Shape.antt =====
-- The shape of the anchors of libpanduck/include/panduck/slugify.hpp.
use duckdb_panduck.Base.{
  ℕ, ◌≡◌, ◌≢◌, refl, ◌⊎◌, inl, inr, Bool, true, false, ◌||◌, [], ◌∷◌, ◌++◌, arith, ◌==◌,
  if◌then◌else◌, All, All-append, Bool-cases,
}
use duckdb_panduck.Text.{Bytes, is_alpha, is_alnum, is_lower, is_digit, to_lower}
use duckdb_panduck.Slug.{
  SlugState, is_non_ascii, put, slug_byte, slug_step, slug_loop, start, or_section, heading_slug,
}

-- What an anchor may hold: a byte of a multi-byte character, a lower case letter, a digit, an
-- underscore or the separator.
abbrev pub is_slug_byte : ℕ → ℕ → Bool
is_slug_byte sep c = is_non_ascii c || is_lower c || is_digit c || c == b'_' || c == sep

abbrev pub IsSlugByte : ℕ → ℕ → Type 0
IsSlugByte sep c = is_slug_byte sep c ≡ true

-- What an anchor may open with.
abbrev pub IsOpening : ℕ → Type 0
IsOpening c = (is_non_ascii c || is_lower c) ≡ true

abbrev pub Opens : Bytes → Type 0
Opens [] = Unit
Opens (c ∷ s) = IsOpening c

abbrev pub IsSlug : ℕ → Bytes → Type 0
IsSlug sep s = (s ≢ []) × Opens s × All (IsSlugByte sep) s

IsSlug-append :
    (sep : ℕ) (s t : Bytes) → IsSlug sep s → All (IsSlugByte sep) t → IsSlug sep (s ++ t)
IsSlug-append sep [] t (ne, opens, bytes) h = absurd (ne refl)
IsSlug-append sep (c ∷ s) t (ne, opens, bytes) h =
    (cc, opens, All-append (IsSlugByte sep) (c ∷ s) t bytes h)

-- The byte that a letter or digit is written as.
abbrev written : ℕ → ℕ
written c = if is_non_ascii c then c else to_lower c

written-IsSlugByte :
    (sep c : ℕ) → (is_non_ascii c || is_alnum c) ≡ true → IsSlugByte sep (written c)
written-IsSlugByte sep c h = ground arith

written-IsOpening : (c : ℕ) → (is_non_ascii c || is_alpha c) ≡ true → IsOpening (written c)
written-IsOpening c h = ground arith

-- Before the first letter nothing is written; from then on the output is an anchor.
abbrev Inv : ℕ → SlugState → Type 0
Inv sep st = (st ≡ start) ⊎ ((st.started ≡ true) × IsSlug sep st.out)

module _ (sep : ℕ) where
  self-IsSlugByte : IsSlugByte sep sep
  self-IsSlugByte = ground arith

  put-IsSlug :
      (st : SlugState) (c : ℕ)
      → IsSlug sep st.out
      → IsSlugByte sep c
      → IsSlug sep (put sep st c).out
  put-IsSlug st c h k = elim (Bool-cases st.pending_space) [
    | inl e ↦ rw e (
        IsSlug-append sep (st.out ++ sep ∷ []) (c ∷ [])
          (IsSlug-append sep st.out (sep ∷ []) h (self-IsSlugByte, tt)) (k, tt))
    | inr e ↦ rw e (IsSlug-append sep st.out (c ∷ []) h (k, tt))
  ]

  slug_byte-IsSlug :
      (st : SlugState) (c : ℕ)
      → IsSlug sep st.out
      → ((slug_byte sep st c).started ≡ st.started) × IsSlug sep (slug_byte sep st c).out
  unfolding slug_byte
  slug_byte-IsSlug st c h = elim (Bool-cases (is_non_ascii c || is_alnum c)) [
    | inl e ↦ rw e (refl, put-IsSlug st (written c) h (written-IsSlugByte sep c e))
    | inr e ↦
        rw e
          (ground (arith, put-IsSlug st sep h self-IsSlugByte, put-IsSlug st b'_' h (ground arith)))
  ]

  -- The first letter starts the anchor; what stands before it is passed over.
  slug_step_first :
      (c : ℕ)
      → (is_non_ascii c || is_alpha c) ≡ true
      → slug_step sep start c
        ≡ record { out = written c ∷ []; started = true; pending_space = false }
  unfolding slug_step
  slug_step_first c h = ground arith

  slug_step_before :
      (c : ℕ) → (is_non_ascii c || is_alpha c) ≡ false → slug_step sep start c ≡ start
  unfolding slug_step
  slug_step_before c h = ground arith

  letter-alnum :
      (c : ℕ) → (is_non_ascii c || is_alpha c) ≡ true → (is_non_ascii c || is_alnum c) ≡ true
  letter-alnum c h = ground arith

  slug_step-Inv : (st : SlugState) (c : ℕ) → Inv sep st → Inv sep (slug_step sep st c)
  unfolding slug_step
  slug_step-Inv st c (inr (on, h)) =
      rw on (inr (slug_byte-IsSlug (record st { started = true }) c h))
  slug_step-Inv st c (inl e) = elim (Bool-cases (is_non_ascii c || is_alpha c)) [
    | inl t ↦
        rw (e, slug_step_first c t)
          (inr
            (refl, (cc, written-IsOpening c t, (written-IsSlugByte sep c (letter-alnum c t), tt))))
    | inr t ↦ inl (rw (e, slug_step_before c t))
  ]

  slug_loop-Inv : (text : Bytes) (st : SlugState) → Inv sep st → Inv sep (slug_loop sep st text)
  unfolding slug_loop
  slug_loop-Inv [] st inv = inv
  slug_loop-Inv (c ∷ text) st inv = slug_loop-Inv text (slug_step sep st c) (slug_step-Inv st c inv)

or_section-IsSlug : (sep : ℕ) (st : SlugState) → Inv sep st → IsSlug sep (or_section st.out)
or_section-IsSlug sep st (inl e) = rw e (cc, refl, ground arith)
or_section-IsSlug sep st (inr (on, h)) = nonempty st.out h
  where
    nonempty : (s : Bytes) → IsSlug sep s → IsSlug sep (or_section s)
    nonempty [] h = absurd (h.0 refl)
    nonempty (c ∷ s) h = h

-- For every title and separator the anchor is not empty, opens with a lower case letter or a byte of
-- a multi-byte character, and holds only such bytes, digits, underscores and the separator.
pub heading_slug-IsSlug : (text : Bytes) (sep : ℕ) → IsSlug sep (heading_slug text sep)
unfolding heading_slug
heading_slug-IsSlug text sep =
    or_section-IsSlug sep (slug_loop sep start text) (slug_loop-Inv sep text start (inl refl))
