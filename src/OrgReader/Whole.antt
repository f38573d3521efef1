-- ===== src/OrgReader/Whole.antt =====
-- The reader of Org (libpanduck/src/org.cpp, src/org_reader.cpp) under the repair of fragments
-- (src/duck_block_repair.cpp): its rows are whole.
use Prim.Native.String.{String}
use text.Mathlib.Text.{◌==◌}
use duckdb_panduck.Base.{
  ℕ, suc, ◌+◌, ◌≤◌, ◌≡◌, refl, ap, ◌∙◌, inl, inr, true, false, List, [], ◌∷◌, ◌++◌, map, some, ltb,
  arith, All, Bool-cases, or-true, length,
}
use duckdb_panduck.Base.Int.{pos, ltb_ℤ, int_laws}
use duckdb_panduck.Blocks.{Block}
use duckdb_panduck.Org.{scan_org}
use duckdb_panduck.OrgReader.Builder.{OrgBlock}
use duckdb_panduck.OrgReader.Nesting.{AreAt}
use duckdb_panduck.OrgReader.Numbered.{
  AreOutlined, AreNumbered, read_org-AreNumbered, parse_org_string-AreOutlined, row_level-Fits,
}
use duckdb_panduck.OrgReader.Outline.{Above, above, below, top, Fits, HasList, kind_of}
use duckdb_panduck.OrgReader.Outline
use duckdb_panduck.OrgReader.Rows.{
  block_row, inline_row, inline_rows, row_level, rows_from, read_org,
}
use duckdb_panduck.OrgReader.Runs.{Inline}
use duckdb_panduck.OrgReader.Steps.{HasField}
use duckdb_panduck.OrgReader.Values.{org_value, org_values}
use duckdb_panduck.OrgReader.{parse_org_string}
use duckdb_panduck.Repair.Levels.{IsRepaired}
use duckdb_panduck.Repair.Whole.{IsPlaced, repair_blocks_whole}
use duckdb_panduck.Repair.{El, Frame, el, frame, pop_to, satisfied, any_ancestor, repair_blocks}
use duckdb_panduck.Text.{Bytes}
use duckdb_panduck.Vocabulary.{kind_block, kind_inline, type_list_item, requires_ancestor}

abbrev to_frame : Above → Frame
to_frame f = record { level = pos f.level; kind = f.kind; type = f.type }

abbrev frames : List Above → List Frame
frames fs = map to_frame fs

ltb_ℤ-pos : (a b : ℕ) → ltb_ℤ (pos a) (pos b) ≡ ltb a b
ltb_ℤ-pos a b = ground arith

pop_to-frames : (k : ℕ) (fs : List Above) → pop_to (pos k) (frames fs) ≡ frames (below k fs)
unfolding pop_to below
pop_to-frames k [] = refl
pop_to-frames k (f ∷ fs) = elim (Bool-cases (ltb f.level k)) [
  | inl e ↦ rw (ltb_ℤ-pos f.level k, e) refl
  | inr e ↦ rw (ltb_ℤ-pos f.level k, e) (pop_to-frames k fs)
]

any_list :
    (e : El) (fs : List Above)
    → e.kind ≡ kind_block
    → e.type ≡ type_list_item
    → HasList fs
    → any_ancestor e (frames fs) ≡ true
unfolding any_ancestor requires_ancestor
any_list e [] k t h = absurd h
any_list e (f ∷ fs) k t (inl (list, type)) = rw (k, t, list, type) refl
any_list e (f ∷ fs) k t (inr rest) = rw (any_list e fs k t rest) (or-true _)

module _ (text : Bytes → String) where
  abbrev row_el : Block → El
  row_el r = el (org_value text r)

  numbered-IsRepaired :
      (order prev : ℕ) (rs : List Block)
      → AreNumbered order prev rs
      → IsRepaired order (pos prev) (org_values text rs)
  unfolding org_value
  numbered-IsRepaired order prev [] h = tt
  numbered-IsRepaired order prev (r ∷ rs) (rank, deep, step, rest) = (
    pos r.level,
    refl,
    ap (λ n. some (pos n)) rank,
    omega arith,
    omega int_laws,
    numbered-IsRepaired (suc order) r.level rs rest,
  )

  block-satisfied :
      (order : ℕ) (fs : List Above) (b : OrgBlock)
      → Outline.IsPlaced b fs
      → satisfied (row_el (block_row order b)) (frames fs) ≡ true
  unfolding org_value block_row satisfied
  block-satisfied order fs b (inl free) = rw free refl
  block-satisfied order fs b (inr (kind, type, list)) =
      rw (any_list (row_el (block_row order b)) fs kind type list) (or-true _)

  inline-satisfied :
      (order level : ℕ) (r : Inline) (f : Above) (fs : List Above)
      → (f.kind == kind_inline) ≡ false
      → satisfied (row_el (inline_row order level r)) (frames (f ∷ fs)) ≡ true
  unfolding org_value inline_row satisfied any_ancestor
  inline-satisfied order level r f fs outer = rw outer (or-true _)

  -- A stack on which the open blocks are `fs`, for every block that fits.
  Matches : List Frame → List Above → Type 0
  Matches stack fs = (k : ℕ) → k ≤ suc (top fs) → pop_to (pos k) stack ≡ frames (below k fs)

  below_self : (f : Above) (fs : List Above) → below (suc f.level) (f ∷ fs) ≡ f ∷ fs
  unfolding below
  below_self f fs = let e : ltb f.level (suc f.level) ≡ true = ground arith in rw e refl

  -- An inline row closes nothing for a block that fits behind it.
  inline-Matches :
      (g : Frame) (n : ℕ) (fs : List Above)
      → g.level ≡ pos n
      → suc (top fs) ≤ n
      → Matches (g ∷ frames fs) fs
  unfolding Matches pop_to
  inline-Matches g n fs level deep k h =
      let e : ltb n k ≡ false = ground arith in rw (level, ltb_ℤ-pos n k, e) (pop_to-frames k fs)

  inline_row-level :
      (order level : ℕ) (r : Inline)
      → r.level ≡ suc level
      → (inline_row order level r).level ≡ suc level
  unfolding inline_row
  inline_row-level order level r h = ground arith

  IsPlaced-cons :
      (e : El) (stack rest : List Frame) (es : List El)
      → pop_to e.level stack ≡ rest
      → satisfied e rest ≡ true
      → IsPlaced (frame e ∷ rest) es
      → IsPlaced stack (e ∷ es)
  IsPlaced-cons e stack rest es popped sat more = rw popped (sat, more)

  inline_rows-IsPlaced :
      (order : ℕ) (f : Above) (fs : List Above) (stack : List Frame) (runs : List Inline)
      (tail : List Block)
      → (f.kind == kind_inline) ≡ false
      → AreAt (suc f.level) runs
      → Matches stack (f ∷ fs)
      → ((s : List Frame) → Matches s (f ∷ fs) → IsPlaced s (map el (org_values text tail)))
      → IsPlaced stack (map el (org_values text (inline_rows order f.level runs ++ tail)))
  unfolding Matches org_value
  inline_rows-IsPlaced order f fs stack [] tail outer at m k = k stack m
  inline_rows-IsPlaced order f fs stack (r ∷ runs) tail outer (at, ats) m k =
      let level = inline_row-level order f.level r at in
      let e = row_el (inline_row order f.level r) in
      IsPlaced-cons e stack (frames (f ∷ fs))
        (map el (org_values text (inline_rows (suc order) f.level runs ++ tail)))
        (ap (λ n. pop_to (pos n) stack) level
          ∙ m (suc f.level) (omega arith)
          ∙ ap frames (below_self f fs))
        (inline-satisfied order f.level r f fs outer)
        (inline_rows-IsPlaced (suc order) f fs (frame e ∷ frames (f ∷ fs)) runs tail outer ats
          (inline-Matches (frame e) (suc f.level) (f ∷ fs) (ap pos level) (omega arith)) k)

  rows_from-IsPlaced :
      (order : ℕ) (fs : List Above) (stack : List Frame) (bs : List OrgBlock)
      → AreOutlined fs bs
      → Matches stack fs
      → IsPlaced stack (map el (org_values text (rows_from order bs)))
  unfolding rows_from Matches org_value block_row
  rows_from-IsPlaced order fs stack [] h m = tt
  rows_from-IsPlaced order fs stack (b ∷ bs) (fits, rest) m =
      let level = row_level-Fits fs b fits in
      let e = row_el (block_row order b) in
      let next = above b ∷ below b.level fs in
      let tail = rows_from (suc order + length b.inlines) bs in
      let same : frame e ∷ frames (below b.level fs) ≡ frames next =
        ap
          (λ n.
            record { level = pos n; kind = kind_of b; type = b.element_type }
            ∷ frames (below b.level fs))
          level in
      IsPlaced-cons e stack (frames (below b.level fs))
        (map el (org_values text (inline_rows (suc order) (row_level b) b.inlines ++ tail)))
        (ap (λ n. pop_to (pos n) stack) level ∙ m b.level fits.step)
        (block-satisfied order (below b.level fs) b fits.placed)
        (rw same (
          rw level (
            inline_rows-IsPlaced (suc order) (above b) (below b.level fs) (frames next) b.inlines
              tail fits.outer fits.inner (λ k h. pop_to-frames k next)
              (λ s k. rows_from-IsPlaced (suc order + length b.inlines) next s bs rest k))))

-- Where every keyword of a document is a title, an author or a date, repairing the rows that ReadOrg
-- gives changes none of them, whatever std::string looks like in DuckDB.
pub repair_blocks-read_org :
    (text : Bytes → String) (src : Bytes)
    → All HasField (scan_org src)
    → repair_blocks (map some (org_values text (read_org src))) ≡ org_values text (read_org src)
unfolding read_org Matches pop_to below
repair_blocks-read_org text src fields =
    repair_blocks_whole (org_values text (read_org src))
      (numbered-IsRepaired text 0 0 (read_org src) (read_org-AreNumbered src fields))
      (rows_from-IsPlaced text 0 [] [] (parse_org_string src)
        (parse_org_string-AreOutlined src fields) (λ k h. refl))
