-- ===== src/Text/Same.antt =====
-- `==` on strings decides equality.
use duckdb_panduck.Base.{
  ◌≡◌, ◌≢◌, refl, sym, ◌∙◌, true, false, [], ◌∷◌, Bool-cases, inl, inr, arith,
}
use duckdb_panduck.Text.{Bytes, same}

pub same_refl : (s : Bytes) → same s s ≡ true
same_refl [] = refl
same_refl (c ∷ s) = ground (arith, same_refl s)

pub same_ne : (s t : Bytes) → same s t ≡ false → s ≢ t
same_ne s t h e = let h' = rw (e, same_refl t) at h in cc

pub same_eq : (s t : Bytes) → same s t ≡ true → s ≡ t
same_eq [] [] h = refl
same_eq [] (d ∷ t) h = cc
same_eq (c ∷ s) [] h = cc
same_eq (c ∷ s) (d ∷ t) h = ground (arith, same_eq s t)

-- What one text is the same as and another is not tells the two apart.
pub same_apart : (a b c : Bytes) → same a b ≡ false → same a c ≡ true → same b c ≡ false
same_apart a b c f g = elim (Bool-cases (same b c)) [
  | inl h ↦ absurd (same_ne a b f (same_eq a c g ∙ sym (same_eq b c h)))
  | inr h ↦ h
]
