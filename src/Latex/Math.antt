-- ===== src/Latex/Math.antt =====
-- `LexMathBody` of libpanduck/src/latex_tokenizer.cpp: the body of a formula, byte for byte.
use duckdb_panduck.Base.{
  ℕ, ◌≡◌, refl, sym, ap, ◌∙◌, ◌⊎◌, inl, inr, true, false, [], ◌∷◌, ◌++◌, arith, length, drop, ◌==◌,
  if◌then◌else◌, Bool-cases,
}
use duckdb_panduck.Text.{Bytes, starts_with}

-- The body, and the text behind the closer.
pub record MathBody : Type 0 where
  pub body : Bytes
  pub rest : Bytes

abbrev put : ℕ → MathBody → MathBody
put c m = record m { body = c ∷ m.body }

-- The closer is tested before the escape.
unfoldable pub lex_math_body : Bytes → Bytes → MathBody
lex_math_body closer [] = record { body = []; rest = [] }
lex_math_body closer (c ∷ []) =
    if starts_with closer (c ∷ [])
    then record { body = []; rest = drop (length closer) (c ∷ []) }
    else record { body = c ∷ []; rest = [] }
lex_math_body closer (c ∷ d ∷ s) =
    let escaped = put c (put d (lex_math_body closer s)) in
    let plain = put c (lex_math_body closer (d ∷ s)) in
    if starts_with closer (c ∷ d ∷ s)
    then record { body = []; rest = drop (length closer) (c ∷ d ∷ s) }
    else if c == b'\\'
    then escaped
    else plain

-- No closer stands in a body where the text is looked at, which is behind a backslash and a byte as
-- one and else behind each byte; `t` is the text behind the body.
abbrev pub IsOpen : Bytes → Bytes → Bytes → Type 0
IsOpen closer [] t = Unit
IsOpen closer (c ∷ []) t =
    (starts_with closer (c ∷ t) ≡ false) × (((c == b'\\') ≡ false) ⊎ (t ≡ []))
IsOpen closer (c ∷ d ∷ s) t =
    (starts_with closer (c ∷ d ∷ (s ++ t)) ≡ false)
    × (if c == b'\\' then IsOpen closer s t else IsOpen closer (d ∷ s) t)

-- The body and a tail are the text; the body has no closer, and the tail is the closer and the rest,
-- or the text ran out.
pub record IsCut (closer s : Bytes) (m : MathBody) : Type 0 where
  pub tail : Bytes
  pub parts : s ≡ m.body ++ tail
  pub body_open : IsOpen closer m.body tail
  pub ends : (tail ≡ closer ++ m.rest) ⊎ ((tail ≡ []) × (m.rest ≡ []))

pub append-drop-starts_with : (p s : Bytes) → starts_with p s ≡ true → s ≡ p ++ drop (length p) s
append-drop-starts_with [] s h = refl
append-drop-starts_with (c ∷ p) [] h = cc
append-drop-starts_with (c ∷ p) (d ∷ s) h = ground (arith, append-drop-starts_with p s)

IsOpen-plain :
    (closer : Bytes) (c : ℕ) (s t : Bytes)
    → starts_with closer (c ∷ (s ++ t)) ≡ false
    → (c == b'\\') ≡ false
    → IsOpen closer s t
    → IsOpen closer (c ∷ s) t
IsOpen-plain closer c [] t h p k = (h, inl p)
IsOpen-plain closer c (d ∷ s) t h p k = (h, rw p k)

put_plain-IsCut :
    (closer s : Bytes) (m : MathBody) (c : ℕ)
    → starts_with closer (c ∷ s) ≡ false
    → (c == b'\\') ≡ false
    → IsCut closer s m
    → IsCut closer (c ∷ s) (put c m)
put_plain-IsCut closer s m c h p k = record {
  tail = k.tail;
  parts = ap (λ x. c ∷ x) k.parts;
  body_open =
      IsOpen-plain closer c m.body k.tail (ap (λ x. starts_with closer (c ∷ x)) (sym k.parts) ∙ h) p
        k.body_open;
  ends = k.ends;
}

put_pair-IsCut :
    (closer s : Bytes) (m : MathBody) (c d : ℕ)
    → starts_with closer (c ∷ d ∷ s) ≡ false
    → (c == b'\\') ≡ true
    → IsCut closer s m
    → IsCut closer (c ∷ d ∷ s) (put c (put d m))
put_pair-IsCut closer s m c d h p k = record {
  tail = k.tail;
  parts = ap (λ x. c ∷ (d ∷ x)) k.parts;
  body_open = (ap (λ x. starts_with closer (c ∷ (d ∷ x))) (sym k.parts) ∙ h, rw p k.body_open);
  ends = k.ends;
}

closed-IsCut :
    (closer s : Bytes)
    → starts_with closer s ≡ true
    → IsCut closer s (record { body = []; rest = drop (length closer) s })
closed-IsCut closer s h = record {
  tail = s;
  parts = refl;
  body_open = tt;
  ends = inl (append-drop-starts_with closer s h);
}

-- For every text and closer, the body is cut out of the text byte for byte and at the first closer:
-- at no place in the body where the text is looked at does the closer stand, where a backslash and
-- the byte behind it are passed over together; and behind the body stand the closer and the rest, or
-- the text is all body.
pub lex_math_body-IsCut : (closer s : Bytes) → IsCut closer s (lex_math_body closer s)
unfolding lex_math_body
lex_math_body-IsCut closer [] = record {
  tail = [];
  parts = refl;
  body_open = tt;
  ends = inr (refl, refl);
}
lex_math_body-IsCut closer (c ∷ []) = elim (Bool-cases (starts_with closer (c ∷ []))) [
  | inl e ↦ rw e (closed-IsCut closer (c ∷ []) e)
  | inr e ↦
      rw e (record { tail = []; parts = refl; body_open = (e, inr refl); ends = inr (refl, refl) })
]
lex_math_body-IsCut closer (c ∷ d ∷ s) = elim (Bool-cases (starts_with closer (c ∷ d ∷ s))) [
  | inl e ↦ rw e (closed-IsCut closer (c ∷ d ∷ s) e)
  | inr e ↦ rw e (elim (Bool-cases (c == b'\\')) [
    | inl t ↦ rw t (put_pair-IsCut closer s _ c d e t (lex_math_body-IsCut closer s))
    | inr t ↦ rw t (put_plain-IsCut closer (d ∷ s) _ c e t (lex_math_body-IsCut closer (d ∷ s)))
  ])
]
