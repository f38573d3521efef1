-- ===== src/Normalize/Alike.antt =====
-- What a round of the pass over lone plains leaves of the list in front of it (src/include/duck_block_normalize.hpp).
use text.Mathlib.Text.{◌==◌}
use duckdb_panduck.Base.{
  suc, ◌≡◌, refl, ap, ◌∙◌, Bool, true, false, ◌&&◌, not, List, [], ◌∷◌, none, some, if◌then◌else◌,
  length, arith, Bool-cases, inl, inr,
}
use duckdb_panduck.Base.Int.{
  ℤ, pos, ◌+ℤ◌, ◌-ℤ◌, ◌≤ℤ◌, ◌<ℤ◌, ltb_ℤ, eqb_ℤ, eqb_ℤ→eq, ltb_ℤ→lt, int_laws,
}
use duckdb_panduck.Normalize.{
  level_of, is_block, no_attributes, sibling, is_lone, adopt, lift_inner, collapse_at,
}
use duckdb_panduck.Repair.{Value, field}
use duckdb_panduck.Vocabulary.{kind_block, type_plain}

-- The two blocks differ in what they hold alone.
pub record SameShape (v w : Value) : Type 0 where
  pub kinds : w.kind ≡ v.kind
  pub types : w.element_type ≡ v.element_type
  pub levels : w.level ≡ v.level
  pub attributes : w.attributes ≡ v.attributes

pub SameShape-refl : (v : Value) → SameShape v v
SameShape-refl v = record { kinds = refl; types = refl; levels = refl; attributes = refl }

-- What a parent in front of the list sees of it is the same.
pub data Alike : List Value → List Value → Type 0 where
  alike_nil : Alike [] []
  alike_cons :
      {v w : Value} {vs ws : List Value}
      → SameShape v w
      → ((q : ℤ) → q ≤ℤ level_of v → sibling q ws ≡ sibling q vs)
      → Alike (v ∷ vs) (w ∷ ws)

level_of-SameShape : (v w : Value) → SameShape v w → level_of w ≡ level_of v
unfolding level_of
level_of-SameShape v w h = rw (h.levels) refl

pub Alike-refl : (vs : List Value) → Alike vs vs
Alike-refl [] = alike_nil
Alike-refl (v ∷ vs) = alike_cons (SameShape-refl v) (λ q h. refl)

SameShape-trans : (u v w : Value) → SameShape u v → SameShape v w → SameShape u w
SameShape-trans u v w a b = record {
  kinds = b.kinds ∙ a.kinds;
  types = b.types ∙ a.types;
  levels = b.levels ∙ a.levels;
  attributes = b.attributes ∙ a.attributes;
}

pub Alike-trans : {us vs ws : List Value} → Alike us vs → Alike vs ws → Alike us ws
Alike-trans alike_nil alike_nil = alike_nil
Alike-trans (alike_cons {v = u} {w = v} a f) (alike_cons {w = w} b g) =
    alike_cons (SameShape-trans u v w a b)
      (λ q h. let e = level_of-SameShape u v a in g q (rw e h) ∙ f q h)

pub sibling-Alike : {vs ws : List Value} (q : ℤ) → Alike vs ws → sibling q ws ≡ sibling q vs
unfolding sibling
sibling-Alike q alike_nil = refl
sibling-Alike q (alike_cons {v} {w} {vs} {ws} a f) =
    let e = level_of-SameShape v w a in
    elim (Bool-cases (ltb_ℤ q (level_of v))) [
      | inl k ↦ let lt = ltb_ℤ→lt q (level_of v) k in rw e (rw k (f q (omega int_laws)))
      | inr k ↦ rw e (rw k refl)
    ]

lt→ltb_ℤ : (a b : ℤ) → a <ℤ b → ltb_ℤ a b ≡ true
lt→ltb_ℤ a b h = ground arith

-- The blocks inside the lone plain stay deeper than its parent.
sibling-lift_inner :
    (q level : ℤ) (vs : List Value)
    → q ≤ℤ level
    → sibling q (lift_inner (level +ℤ pos 1) vs) ≡ sibling q vs
unfolding sibling lift_inner level_of
sibling-lift_inner q level [] h = refl
sibling-lift_inner q level (v ∷ vs) h =
    let rest = sibling-lift_inner q level vs h in
    elim (Bool-cases (ltb_ℤ (level +ℤ pos 1) (level_of v))) [
      | inl k ↦
          let lt = ltb_ℤ→lt (level +ℤ pos 1) (level_of v) k in
          let shallow = lt→ltb_ℤ q (level_of v -ℤ pos 1) (omega int_laws) in
          let deep = lt→ltb_ℤ q (level_of v) (omega int_laws) in rw k (rw shallow (rw deep rest))
      | inr k ↦ rw k refl
    ]

pub length-lift_inner : (level : ℤ) (vs : List Value) → length (lift_inner level vs) ≡ length vs
unfolding lift_inner
length-lift_inner level [] = refl
length-lift_inner level (v ∷ vs) =
    let rest = length-lift_inner level vs in
    elim (Bool-cases (ltb_ℤ level (level_of v))) [ inl e ↦ rw e (ap suc rest) | inr e ↦ rw e refl ]

-- A collapse leaves what the parent's own parent sees of the list.
pub collapse-Alike :
    (parent plain : Value) (rest : List Value)
    → level_of plain ≡ level_of parent +ℤ pos 1
    → Alike
        (parent ∷ plain ∷ rest)
        (adopt parent plain ∷ lift_inner (level_of parent +ℤ pos 1) rest)
unfolding sibling
collapse-Alike parent plain rest e =
    alike_cons (record { kinds = refl; types = refl; levels = refl; attributes = refl }) inside
  where
    inside :
        (q : ℤ)
        → q ≤ℤ level_of parent
        → sibling q (lift_inner (level_of parent +ℤ pos 1) rest) ≡ sibling q (plain ∷ rest)
    inside q h =
        let deep = lt→ltb_ℤ q (level_of parent +ℤ pos 1) (omega int_laws) in
        rw e (rw deep (sibling-lift_inner q (level_of parent) rest h))

pub is_lone-deeper :
    (parent plain : Value) (rest : List Value)
    → is_lone parent plain rest ≡ true
    → level_of plain ≡ level_of parent +ℤ pos 1
unfolding is_lone
is_lone-deeper parent plain rest h = eqb_ℤ→eq (level_of plain) (level_of parent +ℤ pos 1) (
    fifth (is_block parent) (field parent.content == "") (not (ltb_ℤ (level_of parent) (pos 1)))
      (is_block plain) (eqb_ℤ (level_of plain) (level_of parent +ℤ pos 1))
      (field plain.element_type == type_plain) (not (sibling (level_of parent +ℤ pos 1) rest))
      (no_attributes plain.attributes) h)
  where
    fifth : (a b c d e f g i : Bool) → (a && b && c && d && e && f && g && i) ≡ true → e ≡ true
    fifth a b c d e f g i h = ground arith

is_block-SameShape : (v w : Value) → SameShape v w → is_block w ≡ is_block v
is_block-SameShape v w h = ap (λ k. field k == kind_block) h.kinds

-- Tests that agree, but for one that counts only where another holds.
same_tests :
    (a b c d d' e e' f f' g g' i i' : Bool)
    → d' ≡ d
    → e' ≡ e
    → f' ≡ f
    → i' ≡ i
    → (e ≡ true → g' ≡ g)
    → (a && b && c && d' && e' && f' && not g' && i') ≡ (a && b && c && d && e && f && not g && i)
same_tests a b c d d' e e' f f' g g' i i' hd he hf hi hg = ground arith

-- The test reads no more of the list than its shape.
is_lone-Alike :
    (parent v w : Value) (vs ws : List Value)
    → SameShape v w
    → ((q : ℤ) → q ≤ℤ level_of v → sibling q ws ≡ sibling q vs)
    → is_lone parent w ws ≡ is_lone parent v vs
unfolding is_lone
is_lone-Alike parent v w vs ws h f =
    let level = level_of parent +ℤ pos 1 in
    same_tests (is_block parent) (field parent.content == "")
      (not (ltb_ℤ (level_of parent) (pos 1))) (is_block v) (is_block w) (eqb_ℤ (level_of v) level)
      (eqb_ℤ (level_of w) level) (field v.element_type == type_plain)
      (field w.element_type == type_plain) (sibling level vs) (sibling level ws)
      (no_attributes v.attributes) (no_attributes w.attributes) (is_block-SameShape v w h)
      (ap (λ n. eqb_ℤ n level) (level_of-SameShape v w h)) (ap (λ k. field k == type_plain) h.types)
      (ap no_attributes h.attributes) (λ k. f level (level-le (level_of v) level k))
  where
    level-le : (a b : ℤ) → eqb_ℤ a b ≡ true → b ≤ℤ a
    level-le a b k = ground arith

-- The test of a parent has one answer on lists that look alike to it.
pub collapse_at-Alike :
    (parent : Value) (vs ws : List Value)
    → Alike vs ws
    → collapse_at parent vs ≡ none
    → collapse_at parent ws ≡ none
unfolding collapse_at
collapse_at-Alike parent vs ws alike_nil e = refl
collapse_at-Alike parent vs ws (alike_cons {v} {w} {vs = us} {ws = xs} h f) e =
    let same = is_lone-Alike parent v w us xs h f in
    rw same (rw (if-none (is_lone parent v us) _ e) refl)
  where
    if-none : (b : Bool) (x : List Value) → (if b then some x else none) ≡ none → b ≡ false
    if-none true x e = absurd (cc)
    if-none false x e = refl
