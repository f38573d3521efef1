-- ===== src/Text/Trim.antt =====
-- Blanks cut off at the ends of a text.
use duckdb_panduck.Base.{ℕ, ◌≡◌, refl, Bool, false, [], ◌∷◌, inl, inr, Bool-cases}
use duckdb_panduck.Text.{Bytes, trim, trim_right, cons_right, drop_while}

module _ (p : ℕ → Bool) where
  -- The first byte is no blank.
  abbrev pub OpensSolid : Bytes → Type 0
  OpensSolid [] = Unit
  OpensSolid (c ∷ s) = p c ≡ false

  -- The last byte is no blank.
  abbrev pub EndsSolid : Bytes → Type 0
  EndsSolid [] = Unit
  EndsSolid (c ∷ []) = p c ≡ false
  EndsSolid (c ∷ d ∷ s) = EndsSolid (d ∷ s)

module _ (p : ℕ → Bool) where
  cons_right-EndsSolid : (c : ℕ) (s : Bytes) → EndsSolid p s → EndsSolid p (cons_right (p c) c s)
  cons_right-EndsSolid c [] h = elim (Bool-cases (p c)) [ inl e ↦ rw e tt | inr e ↦ rw e e ]
  cons_right-EndsSolid c (d ∷ s) h = h

  pub trim_right-EndsSolid : (s : Bytes) → EndsSolid p (trim_right p s)
  unfolding trim_right
  trim_right-EndsSolid [] = tt
  trim_right-EndsSolid (c ∷ s) = cons_right-EndsSolid c (trim_right p s) (trim_right-EndsSolid s)

  pub trim_right_id : (s : Bytes) → EndsSolid p s → trim_right p s ≡ s
  unfolding trim_right
  trim_right_id [] h = refl
  trim_right_id (c ∷ []) h = rw h
  trim_right_id (c ∷ d ∷ s) h = rw (trim_right_id (d ∷ s) h)

  pub drop_while-OpensSolid : (s : Bytes) → OpensSolid p (drop_while p s)
  unfolding drop_while
  drop_while-OpensSolid [] = tt
  drop_while-OpensSolid (c ∷ s) = elim (Bool-cases (p c)) [
    | inl e ↦ rw e (drop_while-OpensSolid s)
    | inr e ↦ rw e e
  ]

  pub drop_while_id : (s : Bytes) → OpensSolid p s → drop_while p s ≡ s
  unfolding drop_while
  drop_while_id [] h = refl
  drop_while_id (c ∷ s) h = rw h

  cons_right-OpensSolid : (c : ℕ) (s : Bytes) → p c ≡ false → OpensSolid p (cons_right (p c) c s)
  cons_right-OpensSolid c [] h = rw h h
  cons_right-OpensSolid c (d ∷ s) h = h

  trim_right-OpensSolid : (s : Bytes) → OpensSolid p s → OpensSolid p (trim_right p s)
  unfolding trim_right
  trim_right-OpensSolid [] h = tt
  trim_right-OpensSolid (c ∷ s) h = cons_right-OpensSolid c (trim_right p s) h

  pub trim-OpensSolid : (s : Bytes) → OpensSolid p (trim p s)
  unfolding trim
  trim-OpensSolid s = trim_right-OpensSolid (drop_while p s) (drop_while-OpensSolid s)

  pub trim-EndsSolid : (s : Bytes) → EndsSolid p (trim p s)
  unfolding trim
  trim-EndsSolid s = trim_right-EndsSolid (drop_while p s)

  pub trim_id : (s : Bytes) → OpensSolid p s → EndsSolid p s → trim p s ≡ s
  unfolding trim
  trim_id s h k = rw (drop_while_id s h) (trim_right_id s k)
