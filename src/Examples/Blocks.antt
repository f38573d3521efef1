-- ===== src/Examples/Blocks.antt =====
-- Small documents of duck_blocks for src/duck_block_repair.cpp and
-- src/include/duck_block_normalize.hpp.
use Prim.Native.String.{String}
use duckdb_panduck.Base.{ℕ, ◌≡◌, refl, List, [], ◌∷◌, map, Option, none, some, arith}
use duckdb_panduck.Base.Int.{ℤ, pos, ◌+ℤ◌, ◌-ℤ◌}
use duckdb_panduck.Normalize.Fixpoint.{normalize_idem}
use duckdb_panduck.Normalize.Lone.{HasLonePlain, normalize-¬HasLonePlain}
use duckdb_panduck.Normalize.Texts.{texts, texts-normalize}
use duckdb_panduck.Normalize.{
  normalize, normalize_loop, collapse_at, is_lone, sibling, lift_inner, level_of,
}
use duckdb_panduck.Repair.Content.{Woven, non_null, repair_blocks-Woven}
use duckdb_panduck.Repair.Fragment.{under_wrapper, repair_blocks_fragment}
use duckdb_panduck.Repair.Levels.{IsRepaired, repair_blocks-IsRepaired}
use duckdb_panduck.Repair.Whole.{IsPlaced, repair_blocks_whole}
use duckdb_panduck.Repair.{Value, el, satisfied, pop_to, repair_blocks}
use duckdb_panduck.Vocabulary.{implicit_parent_of, requires_ancestor}

abbrev block : String → String → ℤ → ℕ → Value
block type content level order = record {
  kind = some "block";
  element_type = some type;
  content = some content;
  level = some level;
  encoding = some "text";
  attributes = some [];
  element_order = some (pos order);
}

-- Two items without a list, and a paragraph far too deep, between NULL entries.
abbrev fragment : List (Option Value)
fragment =
    some (block "list_item" "a" (pos 1) 7)
    ∷ none
    ∷ some (block "list_item" "b" (pos 1) 7)
    ∷ some (block "paragraph" "c" (pos 5) 0)
    ∷ none
    ∷ []

abbrev document : List Value
document =
    block "list" "" (pos 1) 0
    ∷ block "list_item" "a" (pos 2) 1
    ∷ block "paragraph" "b" (pos 1) 2
    ∷ []

-- A chain of plains, and one beside a heading.
abbrev plains : List Value
plains =
    block "paragraph" "" (pos 1) 0
    ∷ block "plain" "" (pos 2) 1
    ∷ block "plain" "foo" (pos 3) 2
    ∷ block "section" "" (pos 1) 3
    ∷ block "plain" "lead" (pos 2) 4
    ∷ block "heading" "h" (pos 2) 5
    ∷ []

normalize_chain :
    normalize plains
    ≡ block "paragraph" "foo" (pos 1) 0
      ∷ block "section" "" (pos 1) 3
      ∷ block "plain" "lead" (pos 2) 4
      ∷ block "heading" "h" (pos 2) 5
      ∷ []
unfolding normalize normalize_loop collapse_at is_lone sibling lift_inner level_of ◌+ℤ◌ ◌-ℤ◌
normalize_chain = refl

repair_blocks-IsRepaired_example : IsRepaired 0 (pos 0) (repair_blocks fragment)
repair_blocks-IsRepaired_example = repair_blocks-IsRepaired fragment

repair_blocks-Woven_example : Woven (non_null fragment) (repair_blocks fragment)
repair_blocks-Woven_example = repair_blocks-Woven fragment

document-IsRepaired : IsRepaired 0 (pos 0) document
unfolding ◌+ℤ◌
document-IsRepaired = (
  pos 1,
  refl,
  refl,
  omega arith,
  ground arith,
  (
    pos 2,
    refl,
    refl,
    omega arith,
    ground arith,
    (pos 1, refl, refl, omega arith, ground arith, tt),
  ),
)

document-IsPlaced : IsPlaced [] (map el document)
unfolding satisfied pop_to implicit_parent_of requires_ancestor
document-IsPlaced = (refl, (refl, (refl, tt)))

repair_blocks_whole_example : repair_blocks (map some document) ≡ document
repair_blocks_whole_example = repair_blocks_whole document document-IsRepaired document-IsPlaced

repair_blocks_fragment_example :
    repair_blocks
      (map some (block "list_item" "a" (pos 1) 7 ∷ block "list_item" "b" (pos 1) 7 ∷ []))
    ≡ under_wrapper
        (implicit_parent_of "list_item" "block")
        (block "list_item" "a" (pos 1) 7 ∷ block "list_item" "b" (pos 1) 7 ∷ [])
unfolding implicit_parent_of
repair_blocks_fragment_example =
    repair_blocks_fragment "block" "list_item" (block "list_item" "a" (pos 1) 7)
      (block "list_item" "b" (pos 1) 7 ∷ []) refl (refl, refl, refl) ((refl, refl, refl), tt)

normalize-¬HasLonePlain_example : ¬ HasLonePlain (normalize plains)
normalize-¬HasLonePlain_example = normalize-¬HasLonePlain plains

normalize_idem_example : normalize (normalize plains) ≡ normalize plains
normalize_idem_example = normalize_idem plains

texts-normalize_example : texts (normalize plains) ≡ texts plains
texts-normalize_example = texts-normalize plains
