-- ===== src/Normalize.antt =====
-- src/include/duck_block_normalize.hpp: CollapseLonePlainIntoParent. The list is what the loop has
-- from its index on, since no round looks at the blocks before it; the parent is examined again
-- after a collapse, so its round goes on with the changed list.
pub mod Alike
pub mod Fixpoint
pub mod Lone
pub mod Texts
use Prim.Native.String.{String}
use text.Mathlib.Text.{◌==◌}
use duckdb_panduck.Base.{
  ℕ, zero, suc, Bool, true, false, ◌&&◌, not, List, [], ◌∷◌, Option, none, some, if◌then◌else◌,
  length,
}
use duckdb_panduck.Base.Int.{ℤ, pos, negsuc, ◌+ℤ◌, ◌-ℤ◌, ltb_ℤ, eqb_ℤ}
use duckdb_panduck.Repair.{Value, field, int_field}
use duckdb_panduck.Vocabulary.{kind_block, type_plain}

unfoldable pub level_of : Value → ℤ
level_of v = int_field v.level (negsuc 0)

abbrev pub is_block : Value → Bool
is_block v = field v.kind == kind_block

abbrev pub no_attributes : Option (List (String × String)) → Bool
no_attributes none = true
no_attributes (some []) = true
no_attributes (some (a ∷ more)) = false

-- Whether the first block that is no deeper than `level` stands at it: a sibling behind the plain.
unfoldable pub sibling : ℤ → List Value → Bool
sibling level [] = false
sibling level (v ∷ vs) =
    let deeper = sibling level vs in
    if ltb_ℤ level (level_of v) then deeper else eqb_ℤ (level_of v) level

-- Whether `plain` is a lone plain that `parent` may adopt.
unfoldable pub is_lone : Value → Value → List Value → Bool
is_lone parent plain rest =
    let level = level_of parent +ℤ pos 1 in
    is_block parent
    && field parent.content == ""
    && not (ltb_ℤ (level_of parent) (pos 1))
    && is_block plain
    && eqb_ℤ (level_of plain) level
    && field plain.element_type == type_plain
    && not (sibling level rest)
    && no_attributes plain.attributes

abbrev pub adopt : Value → Value → Value
adopt parent plain = record parent { content = plain.content; encoding = plain.encoding }

abbrev pub lifted : Value → Value
lifted v = record v { level = some (level_of v -ℤ pos 1) }

-- The blocks deeper than `level`, up to the first that is not, one level shallower.
unfoldable pub lift_inner : ℤ → List Value → List Value
lift_inner level [] = []
lift_inner level (v ∷ vs) =
    let rest = lift_inner level vs in if ltb_ℤ level (level_of v) then lifted v ∷ rest else v ∷ vs

-- One round at `parent`.
unfoldable pub collapse_at : Value → List Value → Option (List Value)
collapse_at parent [] = none
collapse_at parent (plain ∷ rest) =
    if is_lone parent plain rest
    then some (adopt parent plain ∷ lift_inner (level_of parent +ℤ pos 1) rest)
    else none

unfoldable pub normalize_loop : ℕ → List Value → List Value
normalize_loop zero vs = vs
normalize_loop (suc fuel) [] = []
normalize_loop (suc fuel) (v ∷ vs) = elim (collapse_at v vs) [
  | none ↦ v ∷ normalize_loop fuel vs
  | some ws ↦ normalize_loop fuel ws
]

unfoldable pub normalize : List Value → List Value
normalize vs = normalize_loop (length vs) vs
