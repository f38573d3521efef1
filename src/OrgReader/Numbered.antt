-- ===== src/OrgReader/Numbered.antt =====
-- The rows of a document (libpanduck/src/org.cpp, ReadOrg): their order and their levels.
use Prim.Native.String.{String}
use duckdb_panduck.Base.{
  ℕ, suc, ◌+◌, ◌≤◌, ◌≡◌, refl, subst, inl, List, [], ◌∷◌, ◌++◌, Option, none, some, arith, All,
  length, reverse_aux, reverse_aux-eq,
}
use duckdb_panduck.Blocks.{Block}
use duckdb_panduck.Org.{scan_org}
use duckdb_panduck.OrgReader.Builder.{
  OrgBlock, State, Metadata, no_state, close_all, flush_paragraph, metadata_blocks, value_blocks,
  value_block, value_runs,
}
use duckdb_panduck.OrgReader.Nesting.{IsNested, AreAt}
use duckdb_panduck.OrgReader.Outline.{Above, above, below, top, Fits, opened, AreNested}
use duckdb_panduck.OrgReader.Rounds.{close_flushed-IsNested}
use duckdb_panduck.OrgReader.Rows.{
  block_row, inline_row, inline_rows, row_level, rows_from, read_org,
}
use duckdb_panduck.OrgReader.Runs.{Inline}
use duckdb_panduck.OrgReader.Steps.{HasField, build_loop-IsNested}
use duckdb_panduck.OrgReader.{build_loop, finish, parse_org_string}
use duckdb_panduck.Text.{Bytes}
use duckdb_panduck.Vocabulary.{implicit_parent_of}

-- Blocks that fit one behind the other, behind blocks of which `fs` are open.
abbrev pub AreOutlined : List Above → List OrgBlock → Type 0
AreOutlined fs [] = Unit
AreOutlined fs (b ∷ bs) = Fits fs b × AreOutlined (above b ∷ below b.level fs) bs

reverse_aux-AreOutlined :
    (bs ys : List OrgBlock)
    → AreNested bs
    → AreOutlined (opened bs) ys
    → AreOutlined [] (reverse_aux bs ys)
unfolding opened
reverse_aux-AreOutlined [] ys h k = k
reverse_aux-AreOutlined (b ∷ bs) ys h k = reverse_aux-AreOutlined bs (b ∷ ys) h.1 (h.0, k)

value_block-Fits : (fs : List Above) (key : String) (v : Bytes) → Fits fs (value_block key v)
unfolding implicit_parent_of
value_block-Fits fs key v = record {
  deep = omega arith;
  step = omega arith;
  outer = refl;
  placed = inl refl;
  inner = runs v;
}
  where
    runs : (s : Bytes) → AreAt 2 (value_runs s)
    runs [] = tt
    runs (c ∷ s) = (refl, tt)

value_blocks-AreOutlined :
    (fs : List Above) (key : String) (o : Option Bytes) (bs : List OrgBlock)
    → ((gs : List Above) → AreOutlined gs bs)
    → AreOutlined fs (value_blocks key o ++ bs)
value_blocks-AreOutlined fs key none bs h = h fs
value_blocks-AreOutlined fs key (some v) bs h =
    (value_block-Fits fs key v, h (above (value_block key v) ∷ below 1 fs))

metadata_blocks-AreOutlined : (fs : List Above) (m : Metadata) → AreOutlined fs (metadata_blocks m)
unfolding metadata_blocks
metadata_blocks-AreOutlined fs m =
    value_blocks-AreOutlined fs "author" m.author
      (value_blocks "date" m.date ++ value_blocks "title" m.title)
      (λ gs.
        value_blocks-AreOutlined gs "date" m.date (value_blocks "title" m.title) (title m.title))
  where
    title : (o : Option Bytes) (gs : List Above) → AreOutlined gs (value_blocks "title" o)
    title none gs = tt
    title (some v) gs = (value_block-Fits gs "title" v, tt)

finish-AreOutlined : (st : State) → IsNested st → AreOutlined [] (finish st)
unfolding finish
finish-AreOutlined st h =
    let last = close_all (flush_paragraph st) in
    let nested = close_flushed-IsNested st h in
    subst (AreOutlined []) (reverse_aux-eq last.blocks (metadata_blocks last.metadata)) (
      reverse_aux-AreOutlined last.blocks (metadata_blocks last.metadata) nested.nested
        (metadata_blocks-AreOutlined (opened last.blocks) last.metadata))

pub parse_org_string-AreOutlined :
    (src : Bytes) → All HasField (scan_org src) → AreOutlined [] (parse_org_string src)
unfolding parse_org_string opened
parse_org_string-AreOutlined src fields =
    finish-AreOutlined (build_loop (length (scan_org src)) no_state (scan_org src)) (
      build_loop-IsNested (length (scan_org src)) no_state (scan_org src) fields
        (record { nested = tt; lists = tt }))

-- Orders count up from `order`, levels are at least 1, and none is more than one below the last.
abbrev pub AreNumbered : ℕ → ℕ → List Block → Type 0
AreNumbered order prev [] = Unit
AreNumbered order prev (r ∷ rs) =
    (r.element_order ≡ order)
    × (1 ≤ r.level)
    × (r.level ≤ suc prev)
    × AreNumbered (suc order) r.level rs

inline_rows-AreNumbered :
    (order level prev : ℕ) (runs : List Inline) (tail : List Block)
    → AreAt (suc level) runs
    → level ≤ prev
    → ((n p : ℕ) → n ≡ order + length runs → level ≤ p → AreNumbered n p tail)
    → AreNumbered order prev (inline_rows order level runs ++ tail)
unfolding inline_row
inline_rows-AreNumbered order level prev [] tail at h k = k order prev (omega arith) h
inline_rows-AreNumbered order level prev (r ∷ runs) tail (at, ats) h k =
    let e : (inline_row order level r).level ≡ suc level = ground arith in
    (
      refl,
      omega arith,
      omega arith,
      inline_rows-AreNumbered (suc order) level (inline_row order level r).level runs tail ats
          (omega arith) (λ n p m q. k n p (omega arith) q),
    )

pub row_level-Fits : (fs : List Above) (b : OrgBlock) → Fits fs b → row_level b ≡ b.level
row_level-Fits fs b h = let d = h.deep in ground arith

rows_from-AreNumbered :
    (order prev : ℕ) (fs : List Above) (bs : List OrgBlock)
    → AreOutlined fs bs
    → top fs ≤ prev
    → AreNumbered order prev (rows_from order bs)
unfolding rows_from block_row
rows_from-AreNumbered order prev fs [] h k = tt
rows_from-AreNumbered order prev fs (b ∷ bs) (fits, rest) k =
    let e = row_level-Fits fs b fits in
    (
      refl,
      omega (arith, fits.deep),
      omega (arith, fits.step),
      inline_rows-AreNumbered (suc order) (row_level b) (row_level b) b.inlines
          (rows_from (suc order + length b.inlines) bs) (rw e fits.inner) (omega arith)
          (λ n p m q. rw m (
            rows_from-AreNumbered (suc order + length b.inlines) p (above b ∷ below b.level fs) bs
              rest (omega arith))),
    )

-- Where every keyword of a document is a title, an author or a date, the rows of ReadOrg are
-- numbered densely from 0, their levels are at least 1 and start at 1, and no level is more than one
-- deeper than the one before it.
pub read_org-AreNumbered :
    (src : Bytes) → All HasField (scan_org src) → AreNumbered 0 0 (read_org src)
unfolding read_org
read_org-AreNumbered src fields =
    rows_from-AreNumbered 0 0 [] (parse_org_string src) (parse_org_string-AreOutlined src fields)
      (omega arith)
