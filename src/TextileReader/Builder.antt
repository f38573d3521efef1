-- ===== src/TextileReader/Builder.antt =====
-- libpanduck/src/textile.cpp: the state of Builder and what it does with one line. The blocks stand
-- newest first, the markers of the open lists outermost first.
use Prim.Native.String.{String}
use duckdb_panduck.Base.{
  ℕ, suc, ◌*◌, not, List, [], ◌∷◌, ◌++◌, Option, none, some, if◌then◌else◌, ◌==◌, length, take,
  drop,
}
use duckdb_panduck.Blocks.{
  Attributes, set_attribute, set_if, get_attribute, erase_attribute, to_string,
}
use duckdb_panduck.Slug.{heading_slug}
use duckdb_panduck.Text.{Bytes, codes, empty}
use duckdb_panduck.TextileReader.Runs.{TxInline, parse_inlines, lone_text}
use duckdb_panduck.Textile.{Line}
use duckdb_panduck.Vocabulary.{
  type_heading, type_paragraph, type_blockquote, type_code, type_raw, type_list, type_list_item,
  attr_heading_level, attr_list_type, attr_ordered_legacy, attr_role, attr_source_type,
  list_type_bullet, list_type_ordered, list_type_definition, role_term, role_definition,
}

-- `TxBlock`
pub record TxBlock : Type 0 where
  pub kind : String
  pub element_type : String
  pub content : Bytes
  pub encoding : String
  pub attributes : Attributes
  pub level : ℕ
  pub inlines : List TxInline

-- `TxBlock b;` with the type, the level and the attributes set
abbrev pub tx_block : String → ℕ → Attributes → TxBlock
tx_block type level attrs = record {
  kind = "";
  element_type = type;
  content = [];
  encoding = "";
  attributes = attrs;
  level = level;
  inlines = [];
}

pub record State : Type 0 where
  pub blocks : List TxBlock
  pub para : Bytes
  pub pending_style : Bytes
  pub pending_class : Bytes
  pub open_lists : Bytes

abbrev pub no_state : State
no_state = record {
  blocks = [];
  para = [];
  pending_style = [];
  pending_class = [];
  open_lists = [];
}

abbrev pub push : TxBlock → State → State
push b st = record st { blocks = b ∷ st.blocks }

abbrev pub with_runs : TxBlock → List TxInline → Option Bytes → TxBlock
with_runs b runs (some text) = record b { content = text }
with_runs b runs none = record b { inlines = runs }

-- `AttachInlines`
unfoldable pub attach_inlines : TxBlock → Bytes → TxBlock
attach_inlines b text =
    let runs : List TxInline = parse_inlines text (suc b.level) in with_runs b runs (lone_text runs)

-- `AddBlockAttrs`, and what FlushParagraph does with the pending ones
abbrev pub block_attributes : Bytes → Bytes → Attributes → Attributes
block_attributes style css_class attrs =
    set_if (not (empty css_class)) "class" css_class
      (set_if (not (empty style)) "style" style attrs)

abbrev pub paragraph : State → TxBlock
paragraph st =
    attach_inlines
      (tx_block type_paragraph 1 (block_attributes st.pending_style st.pending_class [])) st.para

-- `FlushParagraph`; a style that is pending without a paragraph stays so.
unfoldable pub flush_paragraph : State → State
flush_paragraph st =
    if empty st.para
    then st
    else record (push (paragraph st) st) { para = []; pending_style = []; pending_class = [] }

-- `CloseLists`
abbrev pub close_lists : State → State
close_lists st = record st { open_lists = [] }

-- What most lines do first.
abbrev pub close_all : State → State
close_all st = close_lists (flush_paragraph st)

abbrev pub anchor : Line → Bytes
anchor line = if empty line.id then heading_slug line.text b'-' else line.id

unfoldable pub heading_block : Line → TxBlock
heading_block line =
    attach_inlines
      (tx_block type_heading 1 (
        block_attributes line.style line.css_class (
          set_if (not (empty (anchor line))) "id" (anchor line)
            (set_attribute attr_heading_level (to_string line.level) []))))
      line.text

abbrev pub blockquote : Line → State → State
blockquote line st =
    push (attach_inlines (tx_block type_paragraph 2 []) line.text)
      (push (tx_block type_blockquote 1 (block_attributes line.style line.css_class [])) st)

-- The class of a code block is its language.
abbrev pub class_to_language : Attributes → Option Bytes → Attributes
class_to_language attrs none = attrs
class_to_language attrs (some css_class) =
    erase_attribute "class" (set_attribute "language" css_class attrs)

abbrev pub code_attributes : Attributes → Attributes
code_attributes attrs = class_to_language attrs (get_attribute "class" attrs)

abbrev pub code_block : Line → Bytes → TxBlock
code_block line content =
    record (tx_block type_code 1
      (code_attributes (block_attributes line.style line.css_class []))) { content = content }

abbrev pub raw_block : Bytes → Bytes → TxBlock
raw_block content source =
    record (tx_block type_raw 1 (("format", codes "html") ∷ (attr_source_type, source) ∷ [])) {
      content = content;
    }

-- The markers that two runs have in common at their start.
unfoldable pub common : Bytes → Bytes → ℕ
common [] open_lists = 0
common (c ∷ m) [] = 0
common (c ∷ m) (d ∷ open_lists) = let more = common m open_lists in if c == d then suc more else 0

abbrev pub list_attributes : ℕ → Attributes
list_attributes c =
    if c == b'#'
    then (attr_list_type, codes list_type_ordered)
      ∷ (attr_ordered_legacy, codes "true")
      ∷ ("start", codes "1")
      ∷ ("number_style", codes "Decimal")
      ∷ ("number_delim", codes "Period")
      ∷ []
    else (attr_list_type, codes (if c == b'-' then list_type_definition else list_type_bullet))
      ∷ (attr_ordered_legacy, codes "false")
      ∷ []

-- The lists for the markers from position `k` on.
unfoldable pub open_from : ℕ → Bytes → State → State
open_from k [] st = st
open_from k (c ∷ m) st = open_from (suc k) m (record st {
  blocks = tx_block type_list (suc (2 * k)) (list_attributes c) ∷ st.blocks;
  open_lists = st.open_lists ++ c ∷ [];
})

unfoldable pub open_lists_for : Bytes → State → State
open_lists_for m st =
    let k = common m st.open_lists in
    open_from k (drop k m) (record st { open_lists = take k st.open_lists })

abbrev pub item_block : ℕ → Attributes → Bytes → TxBlock
item_block depth attrs text = attach_inlines (tx_block type_list_item (2 * depth) attrs) text

unfoldable pub item_rows : Line → State → State
item_rows line st =
    if line.definition
    then push (item_block (length line.markers) ((attr_role, codes role_definition) ∷ []) line.text)
        (push (item_block (length line.markers) ((attr_role, codes role_term) ∷ []) line.term) st)
    else push (item_block (length line.markers) [] line.text) st

-- `ListItem`
abbrev pub list_item : Line → State → State
list_item line st = item_rows line (open_lists_for line.markers st)
