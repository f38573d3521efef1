-- ===== src/OrgReader/Builder.antt =====
-- libpanduck/src/org.cpp: the state of Builder and what it does with one line. The blocks stand
-- newest first, the open lists innermost first, each with its indent and its level.
use Prim.Native.String.{String}
use text.Mathlib.Text.{◌==◌}
use duckdb_panduck.Base.{
  ℕ, suc, Bool, true, false, ◌&&◌, ◌||◌, List, [], ◌∷◌, ◌++◌, Option, none, some, if◌then◌else◌,
  ltb,
}
use duckdb_panduck.Blocks.{Attributes, to_string}
use duckdb_panduck.Org.{Line}
use duckdb_panduck.OrgReader.Runs.{Inline, text_run, parse_inlines}
use duckdb_panduck.Text.{Bytes, codes, empty, same}
use duckdb_panduck.Vocabulary.{
  kind_value, value_inlines, type_heading, type_paragraph, type_list, type_list_item, type_raw,
  inline_text, list_type_bullet, list_type_ordered, list_type_definition, role_term,
  role_definition,
}

-- `OrgBlock`
pub record OrgBlock : Type 0 where
  pub kind : String
  pub key : String
  pub element_type : String
  pub content : Bytes
  pub list_type : String
  pub role : String
  pub language : Bytes
  pub encoding : String
  pub list_start : Bytes
  pub number_style : String
  pub number_delim : String
  pub attributes : Attributes
  pub heading_level : ℕ
  pub level : ℕ
  pub inlines : List Inline

-- `OrgBlock b;` with the type and the level set
abbrev pub org_block : String → ℕ → OrgBlock
org_block type level = record {
  kind = "";
  key = "";
  element_type = type;
  content = [];
  list_type = "";
  role = "";
  language = [];
  encoding = "";
  list_start = [];
  number_style = "";
  number_delim = "";
  attributes = [];
  heading_level = 0;
  level = level;
  inlines = [];
}

-- The map of the three fields that a keyword sets.
pub record Metadata : Type 0 where
  pub author : Option Bytes
  pub date : Option Bytes
  pub title : Option Bytes

pub record State : Type 0 where
  pub blocks : List OrgBlock
  pub para : List Bytes
  pub lists : List (ℕ × ℕ)
  pub metadata : Metadata

abbrev pub no_state : State
no_state = record {
  blocks = [];
  para = [];
  lists = [];
  metadata = record { author = none; date = none; title = none };
}

abbrev pub depth : List (ℕ × ℕ) → ℕ
depth [] = 1
depth (l ∷ ls) = suc l.1

abbrev pub push : OrgBlock → State → State
push b st = record st { blocks = b ∷ st.blocks }

-- `Simple`
abbrev pub simple : String → State → State
simple type st = push (org_block type (depth st.lists)) st

-- `runs.size() == 1 && runs[0].element_type == INLINE_TEXT`, and its content
unfoldable pub lone_text : List Inline → Option Bytes
lone_text [] = none
lone_text (r ∷ []) = if r.element_type == inline_text then some r.content else none
lone_text (r ∷ s ∷ rs) = none

abbrev pub with_runs : OrgBlock → List Inline → Option Bytes → OrgBlock
with_runs b runs (some text) = record b { content = text }
with_runs b runs none = record b { inlines = runs }

-- The block of `Emit`.
unfoldable pub text_block : String → Bytes → ℕ → String → OrgBlock
text_block type text level role =
    let runs : List Inline = parse_inlines text (suc level) in
    with_runs (record (org_block type level) { role = role }) runs (lone_text runs)

abbrev pub emit : String → Bytes → ℕ → String → State → State
emit type text level role st = push (text_block type text level role) st

abbrev pub joined_behind : List Bytes → Bytes
joined_behind [] = []
joined_behind (l ∷ ls) = b' ' ∷ (l ++ joined_behind ls)

-- The lines of a paragraph, with a space between two of them.
abbrev pub joined : List Bytes → Bytes
joined [] = []
joined (l ∷ ls) = l ++ joined_behind ls

abbrev pub no_inlines : List Inline → Bool
no_inlines [] = true
no_inlines (r ∷ rs) = false

abbrev pub is_open_item : OrgBlock → Bool
is_open_item b = b.element_type == type_list_item && no_inlines b.inlines && empty b.content

-- Inside a list; `blocks_` has the list then, and is not empty.
unfoldable pub continue_item : Bytes → ℕ → List OrgBlock → List OrgBlock
continue_item text level [] = text_block type_paragraph text level "" ∷ []
continue_item text level (b ∷ bs) =
    if is_open_item b
    then record b { content = text } ∷ bs
    else text_block type_paragraph text level "" ∷ b ∷ bs

abbrev pub no_lists : List (ℕ × ℕ) → Bool
no_lists [] = true
no_lists (l ∷ ls) = false

unfoldable pub flush_text : Bytes → State → State
flush_text text st =
    if no_lists st.lists
    then emit type_paragraph text (depth st.lists) "" st
    else record st { blocks = continue_item text (depth st.lists) st.blocks }

abbrev pub flush_lines : List Bytes → State → State
flush_lines [] st = st
flush_lines (l ∷ ls) st = flush_text (joined (l ∷ ls)) (record st { para = [] })

-- `FlushParagraph`
unfoldable pub flush_paragraph : State → State
flush_paragraph st = flush_lines st.para st

abbrev pub contents : List Inline → Bytes
contents [] = []
contents (r ∷ rs) = r.content ++ contents rs

abbrev pub with_title : OrgBlock → List Inline → Option Bytes → OrgBlock
with_title b runs (some text) = record b { content = text }
with_title b runs none = record b { content = contents runs; inlines = runs }

unfoldable pub heading_block : ℕ → Bytes → OrgBlock
heading_block level text =
    let runs : List Inline = parse_inlines text 2 in
    with_title (record (org_block type_heading 1) { heading_level = level }) runs (lone_text runs)

abbrev pub heading : Line → State → State
heading line st = push (heading_block line.level line.text) st

-- `CloseLists(-1)`
abbrev pub close_all : State → State
close_all st = record st { lists = [] }

-- `CloseLists`
unfoldable pub close_lists : ℕ → List (ℕ × ℕ) → List (ℕ × ℕ)
close_lists indent [] = []
close_lists indent (l ∷ ls) =
    let rest = close_lists indent ls in if ltb indent l.0 then rest else l ∷ ls

unfoldable pub wanted_type : Line → String
wanted_type line =
    if line.definition
    then list_type_definition
    else if line.ordered
    then list_type_ordered
    else list_type_bullet

unfoldable pub list_block : Line → ℕ → OrgBlock
list_block line level =
    let list : OrgBlock = record (org_block type_list level) { list_type = wanted_type line } in
    if line.ordered
    then record list {
      list_start = to_string line.start;
      number_style = "Decimal";
      number_delim = "Period";
    }
    else list

abbrev pub push_list : Line → ℕ → State → State
push_list line level st = record st {
  blocks = list_block line level ∷ st.blocks;
  lists = (line.level, level) ∷ st.lists;
}

abbrev pub opens_list : ℕ → List (ℕ × ℕ) → Bool
opens_list indent [] = true
opens_list indent (l ∷ ls) = ltb l.0 indent

unfoldable pub open_list : Line → State → State
open_list line st =
    if opens_list line.level st.lists then push_list line (depth st.lists) st else st

-- The rows of an item; its level is that of the innermost list, and one.
unfoldable pub item_rows : Line → State → State
item_rows line st =
    if line.definition
    then emit type_list_item line.text (depth st.lists) role_definition
        (emit type_list_item line.term (depth st.lists) role_term st)
    else emit type_list_item line.text (depth st.lists) "" st

-- `Item`
abbrev pub item : Line → State → State
item line st =
    item_rows line (open_list line (record st { lists = close_lists line.level st.lists }))

abbrev pub is_field : Bytes → Bool
is_field key = same key (codes "TITLE") || same key (codes "AUTHOR") || same key (codes "DATE")

unfoldable pub raw_block : Line → OrgBlock
raw_block line = record (org_block type_raw 1) {
  content =
      if empty line.raw then codes "#+" ++ (line.key ++ (codes ": " ++ line.text)) else line.raw;
  attributes = ("format", codes "org") ∷ [];
}

-- A repeated field is joined with a space.
abbrev pub add_value : Bytes → Option Bytes → Option Bytes
add_value text none = some text
add_value text (some v) = some (v ++ (b' ' ∷ text))

unfoldable pub add_field : Bytes → Bytes → Metadata → Metadata
add_field key text m =
    if same key (codes "TITLE")
    then record m { title = add_value text m.title }
    else if same key (codes "AUTHOR")
    then record m { author = add_value text m.author }
    else record m { date = add_value text m.date }

-- `Keyword`
unfoldable pub keyword : Line → State → State
keyword line st =
    if is_field line.key
    then record st { metadata = add_field line.key line.text st.metadata }
    else push (raw_block line) st

abbrev pub value_runs : Bytes → List Inline
value_runs v = if empty v then [] else text_run 2 v ∷ []

abbrev pub value_block : String → Bytes → OrgBlock
value_block key v = record (org_block value_inlines 1) {
  kind = kind_value;
  key = key;
  inlines = value_runs v;
}

abbrev pub value_blocks : String → Option Bytes → List OrgBlock
value_blocks key none = []
value_blocks key (some v) = value_block key v ∷ []

-- `EmitMetadata`: the blocks in the order of the keys
unfoldable pub metadata_blocks : Metadata → List OrgBlock
metadata_blocks m =
    value_blocks "author" m.author ++ (value_blocks "date" m.date ++ value_blocks "title" m.title)
