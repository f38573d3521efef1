-- ===== src/OrgReader/Rounds.antt =====
-- What each operation of Builder (libpanduck/src/org.cpp) leaves of blocks that fit and lists that
-- are open among them.
use Prim.Native.String.{String}
use duckdb_panduck.Base.{suc, ◌≡◌, refl, inl, inr, List, [], ◌∷◌, arith, Bool-cases}
use duckdb_panduck.Org.{Line}
use duckdb_panduck.OrgReader.Builder.{
  OrgBlock, State, org_block, depth, simple, emit, text_block, joined, continue_item, is_open_item,
  flush_text, flush_lines, no_lists, flush_paragraph, heading_block, heading, close_all,
}
use duckdb_panduck.OrgReader.Nesting.{
  IsNested, text_block-IsOf, heading_block-IsOf, push_free-IsNested, push-IsNested,
}
use duckdb_panduck.OrgReader.Outline.{opened}
use duckdb_panduck.OrgReader.{body_blocks, push_table, table_block, code_block, TableRow}
use duckdb_panduck.Text.{Bytes, codes, same}
use duckdb_panduck.Vocabulary.{
  kind_block, type_paragraph, type_heading, type_hr, type_blockquote, type_table, type_code,
  implicit_parent_of,
}

emit_free-IsNested :
    (type : String) (text : Bytes) (role : String) (st : State)
    → implicit_parent_of type kind_block ≡ ""
    → IsNested st
    → IsNested (emit type text (depth st.lists) role st)
emit_free-IsNested type text role st free h =
    push_free-IsNested type (text_block type text (depth st.lists) role) st
      (text_block-IsOf type text (depth st.lists) role) free h

paragraph-IsNested :
    (text : Bytes) (st : State)
    → IsNested st
    → IsNested (emit type_paragraph text (depth st.lists) "" st)
unfolding implicit_parent_of
paragraph-IsNested text st h = emit_free-IsNested type_paragraph text "" st refl h

-- The text of an item may still be set: the block stays where it is.
with_content-IsNested :
    (text : Bytes) (b : OrgBlock) (bs : List OrgBlock) (st : State)
    → IsNested (record st { blocks = b ∷ bs })
    → IsNested (record st { blocks = record b { content = text } ∷ bs })
unfolding opened
with_content-IsNested text b bs st h =
    let fits = h.nested.0 in
    record {
      nested = (
        record {
          deep = fits.deep;
          step = fits.step;
          outer = fits.outer;
          placed = fits.placed;
          inner = fits.inner;
        },
        h.nested.1,
      );
      lists = h.lists;
    }

continue_item-IsNested :
    (text : Bytes) (bs : List OrgBlock) (st : State)
    → IsNested (record st { blocks = bs })
    → IsNested (record st { blocks = continue_item text (depth st.lists) bs })
unfolding continue_item
continue_item-IsNested text [] st h = paragraph-IsNested text (record st { blocks = [] }) h
continue_item-IsNested text (b ∷ bs) st h = elim (Bool-cases (is_open_item b)) [
  | inl e ↦ rw e (with_content-IsNested text b bs st h)
  | inr e ↦ rw e (paragraph-IsNested text (record st { blocks = b ∷ bs }) h)
]

flush_text-IsNested : (text : Bytes) (st : State) → IsNested st → IsNested (flush_text text st)
unfolding flush_text
flush_text-IsNested text st h = elim (Bool-cases (no_lists st.lists)) [
  | inl e ↦ rw e (paragraph-IsNested text st h)
  | inr e ↦ rw e (continue_item-IsNested text st.blocks st h)
]

pub flush_paragraph-IsNested : (st : State) → IsNested st → IsNested (flush_paragraph st)
unfolding flush_paragraph
flush_paragraph-IsNested st h = go st.para
  where
    go : (ls : List Bytes) → IsNested (flush_lines ls st)
    go [] = h
    go (l ∷ ls) =
        flush_text-IsNested (joined (l ∷ ls)) (record st { para = [] })
          (record { nested = h.nested; lists = h.lists })

pub close_all-IsNested : (st : State) → IsNested st → IsNested (close_all st)
close_all-IsNested st h = record { nested = h.nested; lists = tt }

-- Most rounds start so.
pub close_flushed-IsNested : (st : State) → IsNested st → IsNested (close_all (flush_paragraph st))
close_flushed-IsNested st h =
    close_all-IsNested (flush_paragraph st) (flush_paragraph-IsNested st h)

pub heading-IsNested :
    (line : Line) (st : State) → IsNested st → IsNested (heading line (close_all st))
unfolding implicit_parent_of
heading-IsNested line st h =
    push_free-IsNested type_heading (heading_block line.level line.text) (close_all st)
      (heading_block-IsOf line.level line.text) refl (close_all-IsNested st h)

-- The paragraph of a quote stands one level deeper than the next block would.
quote-IsNested :
    (body : Bytes) (st : State)
    → IsNested st
    → IsNested (emit type_paragraph body (suc (depth st.lists)) "" (simple type_blockquote st))
unfolding implicit_parent_of opened
quote-IsNested body st h =
    let quote =
      push_free-IsNested type_blockquote (org_block type_blockquote (depth st.lists)) st
        (record { of_block = refl; of_type = refl; at_level = refl; runs = tt }) refl h in
    let shape = text_block-IsOf type_paragraph body (suc (depth st.lists)) "" in
    push-IsNested (text_block type_paragraph body (suc (depth st.lists)) "")
      (simple type_blockquote st) (omega (arith, shape.at_level))
      (record {
        deep = omega (arith, shape.at_level);
        step = omega (arith, shape.at_level);
        outer = rw shape.of_block refl;
        placed = inl (rw (shape.of_block, shape.of_type) refl);
        inner = rw shape.at_level shape.runs;
      })
      quote

pub body_blocks-IsNested :
    (line : Line) (body : Bytes) (st : State) → IsNested st → IsNested (body_blocks line body st)
unfolding body_blocks implicit_parent_of
body_blocks-IsNested line body st h = elim (Bool-cases (same line.key (codes "QUOTE"))) [
  | inl e ↦ rw e (quote-IsNested body st h)
  | inr e ↦ rw e (
      push_free-IsNested type_code (code_block line.key line.text body (depth st.lists)) st
        (record { of_block = refl; of_type = refl; at_level = refl; runs = tt }) refl h)
]

pub push_table-IsNested :
    (rows : List TableRow) (st : State) → IsNested st → IsNested (push_table rows st)
unfolding implicit_parent_of
push_table-IsNested [] st h = h
push_table-IsNested (r ∷ rows) st h =
    push_free-IsNested type_table (table_block (r ∷ rows) (depth st.lists)) st
      (record { of_block = refl; of_type = refl; at_level = refl; runs = tt }) refl h

pub simple_hr-IsNested : (st : State) → IsNested st → IsNested (simple type_hr st)
unfolding implicit_parent_of
simple_hr-IsNested st h =
    push_free-IsNested type_hr (org_block type_hr (depth st.lists)) st
      (record { of_block = refl; of_type = refl; at_level = refl; runs = tt }) refl h
