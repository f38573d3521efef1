-- ===== src/OrgReader/Rows.antt =====
-- libpanduck/src/org.cpp: the blocks of a document flattened to rows (ReadOrg).
use Prim.Native.String.{String}
use text.Mathlib.Text.{◌==◌}
use duckdb_panduck.Base.{
  ℕ, suc, ◌+◌, Bool, not, List, [], ◌∷◌, ◌++◌, some, if◌then◌else◌, ltb, length,
}
use duckdb_panduck.Blocks.{Block, Attributes, set_attribute, set_if, to_string}
use duckdb_panduck.OrgReader.Builder.{OrgBlock}
use duckdb_panduck.OrgReader.Runs.{Inline}
use duckdb_panduck.OrgReader.{parse_org_string}
use duckdb_panduck.Text.{Bytes, codes, empty}
use duckdb_panduck.Vocabulary.{
  kind_block, kind_inline, encoding_text, attr_heading_level, attr_key, attr_role,
  attr_ordered_legacy, attr_list_type, list_type_ordered,
}

-- A std::string that is set: not empty.
abbrev pub is_set : String → Bool
is_set s = not (s == "")

-- The entries of one map written into another.
abbrev pub set_all : Attributes → Attributes → Attributes
set_all [] attrs = attrs
set_all ((k, v) ∷ more) attrs = set_all more (set_attribute k v attrs)

abbrev pub list_numbers : OrgBlock → Attributes → Attributes
list_numbers b attrs =
    if empty b.list_start
    then attrs
    else set_attribute "number_delim" (codes b.number_delim) (
        set_attribute "number_style" (codes b.number_style)
          (set_attribute "start" b.list_start attrs))

abbrev pub list_attributes : OrgBlock → Attributes → Attributes
list_attributes b attrs =
    if is_set b.list_type
    then list_numbers b (
        set_attribute attr_list_type (codes b.list_type) (
          set_attribute attr_ordered_legacy
            (codes (if b.list_type == list_type_ordered then "true" else "false")) attrs))
    else attrs

unfoldable pub row_attributes : OrgBlock → Attributes
row_attributes b = list_attributes b (
    set_if (not (empty b.language)) "language" b.language (
      set_if (is_set b.role) attr_role (codes b.role) (
        set_if (is_set b.key) attr_key (codes b.key) (
          set_if (ltb 0 b.heading_level) attr_heading_level (to_string b.heading_level)
            (set_all b.attributes [])))))

abbrev pub row_level : OrgBlock → ℕ
row_level b = if ltb 0 b.level then b.level else 1

unfoldable pub block_row : ℕ → OrgBlock → Block
block_row order b = record {
  kind = if is_set b.kind then b.kind else kind_block;
  element_type = b.element_type;
  content = some b.content;
  level = row_level b;
  encoding = if is_set b.encoding then b.encoding else encoding_text;
  attributes = row_attributes b;
  element_order = order;
}

unfoldable pub inline_row : ℕ → ℕ → Inline → Block
inline_row order block_level r = record {
  kind = kind_inline;
  element_type = r.element_type;
  content = some r.content;
  level = if ltb 0 r.level then r.level else suc block_level;
  encoding = encoding_text;
  attributes = set_if (not (empty r.href)) "href" r.href [];
  element_order = order;
}

abbrev pub inline_rows : ℕ → ℕ → List Inline → List Block
inline_rows order block_level [] = []
inline_rows order block_level (r ∷ rs) =
    inline_row order block_level r ∷ inline_rows (suc order) block_level rs

-- The rows of the blocks, numbered from `order`.
unfoldable pub rows_from : ℕ → List OrgBlock → List Block
rows_from order [] = []
rows_from order (b ∷ bs) =
    block_row order b
    ∷ (inline_rows (suc order) (row_level b) b.inlines
        ++ rows_from (suc order + length b.inlines) bs)

-- `ReadOrg`
unfoldable pub read_org : Bytes → List Block
read_org src = rows_from 0 (parse_org_string src)
