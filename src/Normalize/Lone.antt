-- ===== src/Normalize/Lone.antt =====
-- Lone plains, described apart from the pass that removes them (src/include/duck_block_normalize.hpp).
use text.Mathlib.Text.{◌==◌}
use duckdb_panduck.Base.{◌≡◌, refl, Bool, true, false, ◌&&◌, not, List, [], ◌∷◌, arith, ap}
use duckdb_panduck.Base.Int.{ℤ, pos, ◌+ℤ◌, ◌≤ℤ◌, ◌<ℤ◌, ltb_ℤ, eqb_ℤ}
use duckdb_panduck.Normalize.{
  level_of, is_block, no_attributes, sibling, is_lone, collapse_at, normalize,
}
use duckdb_panduck.Normalize.Fixpoint.{IsNormal, normalize-IsNormal}
use duckdb_panduck.Repair.{Value, field}
use duckdb_panduck.Vocabulary.{kind_block, type_plain}

-- Behind the entries deeper than `level`, blocks and inline runs, there is nothing, or an entry that
-- is shallower: none on `level` itself.
pub data Alone (level : ℤ) : List Value → Type 0 where
  at_end : Alone level []
  inside :
      {v : Value} {vs : List Value} → level <ℤ level_of v → Alone level vs → Alone level (v ∷ vs)
  outside : {v : Value} {vs : List Value} → level_of v <ℤ level → Alone level (v ∷ vs)

-- A block without content, on level 1 at least, and right behind it one level deeper a plain without
-- attributes, with no other entry on the level of the plain, block or inline run, under that block.
pub record LonePlain (parent plain : Value) (rest : List Value) : Type 0 where
  pub parent_block : field parent.kind ≡ kind_block
  pub parent_content : field parent.content ≡ ""
  pub parent_level : pos 1 ≤ℤ level_of parent
  pub plain_block : field plain.kind ≡ kind_block
  pub plain_type : field plain.element_type ≡ type_plain
  pub plain_level : level_of plain ≡ level_of parent +ℤ pos 1
  pub plain_attributes : no_attributes plain.attributes ≡ true
  pub alone : Alone (level_of parent +ℤ pos 1) rest

pub data HasLonePlain : List Value → Type 0 where
  here :
      {parent plain : Value} {rest : List Value}
      → LonePlain parent plain rest
      → HasLonePlain (parent ∷ plain ∷ rest)
  there : {v : Value} {vs : List Value} → HasLonePlain vs → HasLonePlain (v ∷ vs)

sibling-Alone : (level : ℤ) (vs : List Value) → Alone level vs → sibling level vs ≡ false
unfolding sibling
sibling-Alone level vs at_end = refl
sibling-Alone level vs (inside {v} {vs = ws} h k) =
    let rest = sibling-Alone level ws k in rw (deeper level (level_of v) h) rest
  where
    deeper : (a b : ℤ) → a <ℤ b → ltb_ℤ a b ≡ true
    deeper a b h = ground arith
sibling-Alone level vs (outside {v} h) =
    rw (shallower level (level_of v) h) (unequal level (level_of v) h)
  where
    shallower : (a b : ℤ) → b <ℤ a → ltb_ℤ a b ≡ false
    shallower a b h = ground arith

    unequal : (a b : ℤ) → b <ℤ a → eqb_ℤ b a ≡ false
    unequal a b h = ground arith

all_tests :
    (a b c d e f g i : Bool)
    → a ≡ true
    → b ≡ true
    → c ≡ false
    → d ≡ true
    → e ≡ true
    → f ≡ true
    → g ≡ false
    → i ≡ true
    → (a && b && not c && d && e && f && not g && i) ≡ true
all_tests a b c d e f g i ha hb hc hd he hf hg hi = ground arith

is_lone-LonePlain :
    (parent plain : Value) (rest : List Value)
    → LonePlain parent plain rest
    → is_lone parent plain rest ≡ true
unfolding is_lone
is_lone-LonePlain parent plain rest h =
    let level = level_of parent +ℤ pos 1 in
    all_tests (is_block parent) (field parent.content == "") (ltb_ℤ (level_of parent) (pos 1))
      (is_block plain) (eqb_ℤ (level_of plain) level) (field plain.element_type == type_plain)
      (sibling level rest) (no_attributes plain.attributes)
      (ap (λ k. k == kind_block) h.parent_block) (ap (λ k. k == "") h.parent_content)
      (not_above (level_of parent) h.parent_level) (ap (λ k. k == kind_block) h.plain_block)
      (equal (level_of plain) level h.plain_level) (ap (λ k. k == type_plain) h.plain_type)
      (sibling-Alone level rest h.alone) h.plain_attributes
  where
    not_above : (a : ℤ) → pos 1 ≤ℤ a → ltb_ℤ a (pos 1) ≡ false
    not_above a h = ground arith

    equal : (a b : ℤ) → a ≡ b → eqb_ℤ a b ≡ true
    equal a b h = rw h (ground arith)

IsNormal-¬HasLonePlain : (vs : List Value) → IsNormal vs → ¬ HasLonePlain vs
unfolding collapse_at
IsNormal-¬HasLonePlain vs h (here {parent} {plain} {rest} lone) =
    let e = rw (is_lone-LonePlain parent plain rest lone) at h.0 in absurd (cc)
IsNormal-¬HasLonePlain vs h (there {v} {vs = ws} lone) = IsNormal-¬HasLonePlain ws h.1 lone

-- After one call no lone plain is left, also none that a collapse made: nowhere does a plain block
-- without attributes stand right behind a block without content of level 1 or more, one level deeper
-- than that block, with no other entry, block or inline run, on the level of the plain before the
-- next entry that is shallower. A parent below level 1, and a plain with an inline run beside it, are
-- no such case.
pub normalize-¬HasLonePlain : (vs : List Value) → ¬ HasLonePlain (normalize vs)
normalize-¬HasLonePlain vs = IsNormal-¬HasLonePlain (normalize vs) (normalize-IsNormal vs)
