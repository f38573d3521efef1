-- ===== src/Normalize/Fixpoint.antt =====
-- What the pass over lone plains leaves behind (src/include/duck_block_normalize.hpp).
use duckdb_panduck.Base.{
  ℕ, zero, suc, ◌≤◌, ◌≡◌, refl, ap, true, List, [], ◌∷◌, Option, none, some, length, arith,
  Bool-cases, inl, inr,
}
use duckdb_panduck.Base.Int.{pos, ◌+ℤ◌}
use duckdb_panduck.Normalize.{
  level_of, is_lone, adopt, lift_inner, collapse_at, normalize_loop, normalize,
}
use duckdb_panduck.Normalize.Alike.{
  SameShape-refl, Alike, alike_nil, alike_cons, Alike-refl, Alike-trans, sibling-Alike,
  length-lift_inner, collapse-Alike, is_lone-deeper, collapse_at-Alike,
}
use duckdb_panduck.Repair.{Value}

-- No round finds a lone plain, at any block.
abbrev pub IsNormal : List Value → Type 0
IsNormal [] = Unit
IsNormal (v ∷ vs) = (collapse_at v vs ≡ none) × IsNormal vs

-- What a round comes to: nothing, or the collapse of a lone plain.
pub data IsRound (parent : Value) : List Value → Option (List Value) → Type 0 where
  stays : {rest : List Value} → IsRound parent rest none
  collapses :
      {plain : Value} {rest : List Value}
      → is_lone parent plain rest ≡ true
      → IsRound parent
          (plain ∷ rest)
          (some (adopt parent plain ∷ lift_inner (level_of parent +ℤ pos 1) rest))

pub collapse_at-IsRound :
    (parent : Value) (vs : List Value) → IsRound parent vs (collapse_at parent vs)
unfolding collapse_at
collapse_at-IsRound parent [] = stays
collapse_at-IsRound parent (plain ∷ rest) = elim (Bool-cases (is_lone parent plain rest)) [
  | inl e ↦ rw e (collapses e)
  | inr e ↦ rw e stays
]

-- A collapse gives a list that looks alike and is shorter by one.
IsRound-Alike :
    (parent : Value) (vs ws : List Value) → IsRound parent vs (some ws) → Alike (parent ∷ vs) ws
IsRound-Alike parent vs ws (collapses {plain} {rest} e) =
    collapse-Alike parent plain rest (is_lone-deeper parent plain rest e)

IsRound-length :
    (parent : Value) (vs ws : List Value) → IsRound parent vs (some ws) → length ws ≡ length vs
IsRound-length parent vs ws (collapses {plain} {rest} e) =
    ap suc (length-lift_inner (level_of parent +ℤ pos 1) rest)

pub loop_stay :
    (fuel : ℕ) (v : Value) (vs : List Value)
    → collapse_at v vs ≡ none
    → normalize_loop (suc fuel) (v ∷ vs) ≡ v ∷ normalize_loop fuel vs
unfolding normalize_loop
loop_stay fuel v vs e = rw (normalize_loop, e) refl

pub loop_collapse :
    (fuel : ℕ) (v : Value) (vs ws : List Value)
    → collapse_at v vs ≡ some ws
    → normalize_loop (suc fuel) (v ∷ vs) ≡ normalize_loop fuel ws
unfolding normalize_loop
loop_collapse fuel v vs ws e = rw (normalize_loop, e) refl

loop-Alike : (fuel : ℕ) (vs : List Value) → Alike vs (normalize_loop fuel vs)
unfolding normalize_loop
loop-Alike zero vs = Alike-refl vs
loop-Alike (suc fuel) [] = alike_nil
loop-Alike (suc fuel) (v ∷ vs) =
    round (loop-Alike fuel) (collapse_at v vs) refl (collapse_at-IsRound v vs)
  where
    round :
        ((ws : List Value) → Alike ws (normalize_loop fuel ws))
        → (o : Option (List Value)) → collapse_at v vs ≡ o
        → IsRound v vs o
        → Alike (v ∷ vs) (normalize_loop (suc fuel) (v ∷ vs))
    round ih none e h =
        rw (loop_stay fuel v vs e) (alike_cons (SameShape-refl v) (λ q k. sibling-Alike q (ih vs)))
    round ih (some ws) e h =
        rw (loop_collapse fuel v vs ws e) (Alike-trans (IsRound-Alike v vs ws h) (ih ws))

loop-IsNormal : (fuel : ℕ) (vs : List Value) → length vs ≤ fuel → IsNormal (normalize_loop fuel vs)
unfolding normalize_loop
loop-IsNormal zero [] h = tt
loop-IsNormal zero (v ∷ vs) h = absurd (omega arith)
loop-IsNormal (suc fuel) [] h = tt
loop-IsNormal (suc fuel) (v ∷ vs) h =
    round (loop-IsNormal fuel) (collapse_at v vs) refl (collapse_at-IsRound v vs)
  where
    round :
        ((ws : List Value) → length ws ≤ fuel → IsNormal (normalize_loop fuel ws))
        → (o : Option (List Value)) → collapse_at v vs ≡ o
        → IsRound v vs o
        → IsNormal (normalize_loop (suc fuel) (v ∷ vs))
    round ih none e k = rw (loop_stay fuel v vs e) (
      collapse_at-Alike v vs (normalize_loop fuel vs) (loop-Alike fuel vs) e,
      ih vs (omega arith),
    )
    round ih (some ws) e k =
        let shorter = IsRound-length v vs ws k in
        rw (loop_collapse fuel v vs ws e) (ih ws (omega arith))

pub normalize-IsNormal : (vs : List Value) → IsNormal (normalize vs)
unfolding normalize
normalize-IsNormal vs = loop-IsNormal (length vs) vs (omega arith)

loop_id : (fuel : ℕ) (vs : List Value) → IsNormal vs → normalize_loop fuel vs ≡ vs
unfolding normalize_loop
loop_id zero vs h = refl
loop_id (suc fuel) [] h = refl
loop_id (suc fuel) (v ∷ vs) h =
    rw (loop_stay fuel v vs h.0) (ap (λ ws. v ∷ ws) (loop_id fuel vs h.1))

normalize_id : (vs : List Value) → IsNormal vs → normalize vs ≡ vs
unfolding normalize
normalize_id vs h = loop_id (length vs) vs h

-- A second call changes nothing.
pub normalize_idem : (vs : List Value) → normalize (normalize vs) ≡ normalize vs
normalize_idem vs = normalize_id (normalize vs) (normalize-IsNormal vs)
