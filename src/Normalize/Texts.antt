-- ===== src/Normalize/Texts.antt =====
-- The texts that the pass over lone plains keeps (src/include/duck_block_normalize.hpp).
use Prim.Native.String.{String}
use text.Mathlib.Text.{◌==◌}
use duckdb_panduck.Base.{
  ℕ, zero, suc, ◌≡◌, refl, ◌∙◌, Bool, true, ◌&&◌, not, List, [], ◌∷◌, Option, none, some,
  if◌then◌else◌, length, Bool-cases, inl, inr, arith,
}
use duckdb_panduck.Base.Int.{ℤ, pos, ◌+ℤ◌, ltb_ℤ, eqb_ℤ}
use duckdb_panduck.Normalize.{
  level_of, is_block, no_attributes, sibling, is_lone, adopt, lift_inner, collapse_at,
  normalize_loop, normalize,
}
use duckdb_panduck.Normalize.Fixpoint.{
  IsRound, collapses, collapse_at-IsRound, loop_stay, loop_collapse,
}
use duckdb_panduck.Repair.{Value, field}
use duckdb_panduck.Vocabulary.{type_plain}

-- The contents of the blocks in order, but for those that are NULL or empty.
abbrev pub texts : List Value → List String
texts [] = []
texts (v ∷ vs) =
    let rest = texts vs in if field v.content == "" then rest else field v.content ∷ rest

texts-lift_inner : (level : ℤ) (vs : List Value) → texts (lift_inner level vs) ≡ texts vs
unfolding lift_inner
texts-lift_inner level [] = refl
texts-lift_inner level (v ∷ vs) = elim (Bool-cases (ltb_ℤ level (level_of v))) [
  | inl e ↦ rw e (rw (texts-lift_inner level vs) refl)
  | inr e ↦ rw e refl
]

texts-collapse :
    (parent plain : Value) (rest : List Value)
    → is_lone parent plain rest ≡ true
    → texts (adopt parent plain ∷ lift_inner (level_of parent +ℤ pos 1) rest)
      ≡ texts (parent ∷ plain ∷ rest)
unfolding is_lone
texts-collapse parent plain rest h = rw (texts-lift_inner (level_of parent +ℤ pos 1) rest) (
    rw
      (second (is_block parent) (field parent.content == "") (not (ltb_ℤ (level_of parent) (pos 1)))
        (is_block plain) (eqb_ℤ (level_of plain) (level_of parent +ℤ pos 1))
        (field plain.element_type == type_plain) (not (sibling (level_of parent +ℤ pos 1) rest))
        (no_attributes plain.attributes) h)
      refl)
  where
    second : (a b c d e f g i : Bool) → (a && b && c && d && e && f && g && i) ≡ true → b ≡ true
    second a b c d e f g i h = ground arith

IsRound-texts :
    (parent : Value) (vs ws : List Value)
    → IsRound parent vs (some ws)
    → texts ws ≡ texts (parent ∷ vs)
IsRound-texts parent vs ws (collapses {plain} {rest} e) = texts-collapse parent plain rest e

texts-normalize_loop : (fuel : ℕ) (vs : List Value) → texts (normalize_loop fuel vs) ≡ texts vs
unfolding normalize_loop
texts-normalize_loop zero vs = refl
texts-normalize_loop (suc fuel) [] = refl
texts-normalize_loop (suc fuel) (v ∷ vs) =
    round (texts-normalize_loop fuel) (collapse_at v vs) refl (collapse_at-IsRound v vs)
  where
    round :
        ((ws : List Value) → texts (normalize_loop fuel ws) ≡ texts ws)
        → (o : Option (List Value)) → collapse_at v vs ≡ o
        → IsRound v vs o
        → texts (normalize_loop (suc fuel) (v ∷ vs)) ≡ texts (v ∷ vs)
    round ih none e h = rw (loop_stay fuel v vs e) (rw (ih vs) refl)
    round ih (some ws) e h = rw (loop_collapse fuel v vs ws e) (ih ws ∙ IsRound-texts v vs ws h)

-- No text is lost, added or moved past another one: the contents of the blocks, read in order and
-- without the empty ones, are the same before and after.
pub texts-normalize : (vs : List Value) → texts (normalize vs) ≡ texts vs
unfolding normalize
texts-normalize vs = texts-normalize_loop (length vs) vs
