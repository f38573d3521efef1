-- ===== src/WikiReader/Lists.antt =====
-- The lists and the rows of the MediaWiki reader (libpanduck/src/mediawiki.cpp).
use duckdb_panduck.Base.{
  ℕ, suc, ◌+◌, ◌≤◌, ◌≡◌, refl, sym, ap, ◌∙◌, List, [], ◌∷◌, ◌++◌, map, length, take, drop, arith,
  append_assoc, append-nil, Bool-cases, inl, inr, ◌==◌,
}
use duckdb_panduck.Blocks.{Block}
use duckdb_panduck.MediaWiki.Markup.{Line}
use duckdb_panduck.Text.{Bytes}
use duckdb_panduck.WikiReader.Builder.{
  MwBlock, State, norm, common, open_from, open_lists_for, list_item,
}
use duckdb_panduck.WikiReader.Runs.{MwInline}
use duckdb_panduck.WikiReader.{
  block_row, block_level, inline_row, inline_rows, rows_from, read_mediawiki,
  parse_mediawiki_string,
}

open_from-open_lists :
    (k : ℕ) (m : Bytes) (st : State) → (open_from k m st).open_lists ≡ st.open_lists ++ map norm m
unfolding open_from
open_from-open_lists k [] st = sym (append-nil st.open_lists)
open_from-open_lists k (c ∷ m) st =
    open_from-open_lists (suc k) m _ ∙ append_assoc st.open_lists (norm c ∷ []) (map norm m)

common-norm :
    (m open_lists : Bytes)
    → take (common m open_lists) open_lists ++ map norm (drop (common m open_lists) m) ≡ map norm m
unfolding common
common-norm [] open_lists = refl
common-norm (c ∷ m) [] = refl
common-norm (c ∷ m) (d ∷ open_lists) =
    let more = common-norm m open_lists in
    elim (Bool-cases (norm c == d)) [
      | inl e ↦ let same : d ≡ norm c = ground arith in rw (e, same) (ap (λ x. norm c ∷ x) more)
      | inr e ↦ rw e refl
    ]

-- Behind an item the lists of its markers are open and no others, whatever was open before it; a
-- term and its definition are in the same list.
pub list_item-open_lists :
    (line : Line) (st : State) → (list_item line st).open_lists ≡ map norm line.markers
unfolding open_lists_for
list_item-open_lists line st =
    let k = common line.markers st.open_lists in
    open_from-open_lists k (drop k line.markers) _ ∙ common-norm line.markers st.open_lists

-- Orders count up from `order`, and levels are at least 1.
abbrev pub AreOrdered : ℕ → List Block → Type 0
AreOrdered order [] = Unit
AreOrdered order (r ∷ rs) = (r.element_order ≡ order) × (1 ≤ r.level) × AreOrdered (suc order) rs

inline_rows-AreOrdered :
    (order level : ℕ) (runs : List MwInline) (tail : List Block)
    → AreOrdered (order + length runs) tail
    → AreOrdered order (inline_rows order level runs ++ tail)
unfolding inline_row
inline_rows-AreOrdered order level [] tail h = let e : order + 0 ≡ order = omega arith in rw e at h
inline_rows-AreOrdered order level (r ∷ runs) tail h = (
  refl,
  ground arith,
  inline_rows-AreOrdered (suc order) level runs tail
      (let e : order + suc (length runs) ≡ suc order + length runs = omega arith in rw e at h),
)

rows_from-AreOrdered : (order : ℕ) (bs : List MwBlock) → AreOrdered order (rows_from order bs)
unfolding rows_from block_row
rows_from-AreOrdered order [] = tt
rows_from-AreOrdered order (b ∷ bs) = (
  refl,
  ground arith,
  inline_rows-AreOrdered (suc order) (block_level b) b.inlines
      (rows_from (suc order + length b.inlines) bs)
      (rows_from-AreOrdered (suc order + length b.inlines) bs),
)

-- The rows of ReadMediaWiki are numbered densely from 0, and their levels are at least 1, for every
-- document.
pub read_mediawiki-AreOrdered : (src : Bytes) → AreOrdered 0 (read_mediawiki src)
unfolding read_mediawiki
read_mediawiki-AreOrdered src = rows_from-AreOrdered 0 (parse_mediawiki_string src)
