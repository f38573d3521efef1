-- ===== src/Text/While.antt =====
-- Runs of bytes that satisfy a test.
use duckdb_panduck.Base.{ℕ, ◌≡◌, refl, ap, Bool, true, false, [], ◌∷◌, ◌++◌, All}
use duckdb_panduck.Text.{Bytes, take_while, drop_while}

module _ (p : ℕ → Bool) where
  pub take_while-All :
      (s : Bytes) (c : ℕ) (t : Bytes)
      → All (λ d. p d ≡ true) s
      → p c ≡ false
      → take_while p (s ++ (c ∷ t)) ≡ s
  unfolding take_while
  take_while-All [] c t h k = rw k refl
  take_while-All (d ∷ s) c t h k = rw h.0 (ap (λ x. d ∷ x) (take_while-All s c t h.1 k))

  pub drop_while-All :
      (s : Bytes) (c : ℕ) (t : Bytes)
      → All (λ d. p d ≡ true) s
      → p c ≡ false
      → drop_while p (s ++ (c ∷ t)) ≡ c ∷ t
  unfolding drop_while
  drop_while-All [] c t h k = rw k refl
  drop_while-All (d ∷ s) c t h k = rw h.0 (drop_while-All s c t h.1 k)
