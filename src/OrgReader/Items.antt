-- ===== src/OrgReader/Items.antt =====
-- The lists and items of Builder (libpanduck/src/org.cpp): a list that opens is among the blocks.
use Prim.Native.String.{String}
use duckdb_panduck.Base.{
  ℕ, suc, ◌≡◌, refl, inl, inr, true, false, List, [], ◌∷◌, ltb, arith, Bool-cases,
}
use duckdb_panduck.Org.{Line}
use duckdb_panduck.OrgReader.Builder.{
  State, depth, push, text_block, close_lists, list_block, open_list, opens_list, push_list,
  item_rows, item,
}
use duckdb_panduck.OrgReader.Nesting.{
  IsNested, IsOf, text_block-IsOf, push_free-IsNested, push_item-IsNested,
}
use duckdb_panduck.OrgReader.Outline.{Above, below, opened, AreOpen}
use duckdb_panduck.Text.{Bytes}
use duckdb_panduck.Vocabulary.{
  type_list, type_list_item, implicit_parent_of, role_term, role_definition,
}

close_lists-AreOpen :
    (indent : ℕ) (fs : List Above) (ls : List (ℕ × ℕ))
    → AreOpen fs ls
    → AreOpen fs (close_lists indent ls)
unfolding close_lists
close_lists-AreOpen indent fs [] h = tt
close_lists-AreOpen indent fs (l ∷ ls) h =
    let rest = close_lists-AreOpen indent fs ls h.3 in
    elim (Bool-cases (ltb indent l.0)) [ inl e ↦ rw e rest | inr e ↦ rw e h ]

list_block-IsOf : (line : Line) (level : ℕ) → IsOf type_list level (list_block line level)
unfolding list_block
list_block-IsOf line level = elim (Bool-cases line.ordered) [
  | inl e ↦ rw e (record { of_block = refl; of_type = refl; at_level = refl; runs = tt })
  | inr e ↦ rw e (record { of_block = refl; of_type = refl; at_level = refl; runs = tt })
]

-- A list that is open after a line, as an item needs it.
abbrev HasLists : State → Type 0
HasLists st = (l : ℕ × ℕ) × (ls : List (ℕ × ℕ)) × (st.lists ≡ l ∷ ls)

push_list-IsNested :
    (line : Line) (st : State) → IsNested st → IsNested (push_list line (depth st.lists) st)
unfolding opened below implicit_parent_of
push_list-IsNested line st h =
    let b = list_block line (depth st.lists) in
    let shape = list_block-IsOf line (depth st.lists) in
    let pushed = push_free-IsNested type_list b st shape refl h in
    let shut : ltb b.level (suc (depth st.lists)) ≡ true = ground (arith, shape.at_level) in
    record {
      nested = pushed.nested;
      lists = (
        refl,
        omega (arith, shape.at_level),
        rw shut (inl (shape.of_block, shape.of_type)),
        pushed.lists,
      );
    }

open_list-IsNested :
    (line : Line) (st : State)
    → IsNested st
    → IsNested (open_list line st) × HasLists (open_list line st)
unfolding open_list
open_list-IsNested line st h = elim (Bool-cases (opens_list line.level st.lists)) [
  | inl e ↦ rw e (push_list-IsNested line st h, ((line.level, depth st.lists), st.lists, refl))
  | inr e ↦ rw e (h, has_lists st.lists e)
]
  where
    has_lists :
        (ls : List (ℕ × ℕ))
        → opens_list line.level ls ≡ false
        → (l : ℕ × ℕ) × (ks : List (ℕ × ℕ)) × (ls ≡ l ∷ ks)
    has_lists [] e = absurd (ground arith)
    has_lists (l ∷ ls) e = (l, ls, refl)

item_rows-IsNested :
    (line : Line) (st : State) → HasLists st → IsNested st → IsNested (item_rows line st)
unfolding item_rows
item_rows-IsNested line st (l, ls, e) h =
    let row =
      λ (text : Bytes) (role : String) (s : State) (same : s.lists ≡ l ∷ ls) (k : IsNested s).
        push_item-IsNested (text_block type_list_item text (depth s.lists) role) s l ls same
          (text_block-IsOf type_list_item text (depth s.lists) role) k in
    elim (Bool-cases line.definition) [
      | inl f ↦
          let term = text_block type_list_item line.term (depth st.lists) role_term in
          rw f (row line.text role_definition (push term st) e (row line.term role_term st e h))
      | inr f ↦ rw f (row line.text "" st e h)
    ]

pub item-IsNested : (line : Line) (st : State) → IsNested st → IsNested (item line st)
item-IsNested line st h =
    let closed = record st { lists = close_lists line.level st.lists } in
    let (nested, lists) = open_list-IsNested line closed (record {
      nested = h.nested;
      lists = close_lists-AreOpen line.level (opened st.blocks) st.lists h.lists;
    }) in
    item_rows-IsNested line (open_list line closed) lists nested
