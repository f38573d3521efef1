-- ===== src/WikiReader/Builder.antt =====
-- libpanduck/src/mediawiki.cpp: the state of Builder and what it does with one line. The blocks stand
-- newest first, the markers of the open lists outermost first.
use Prim.Native.String.{String}
use duckdb_panduck.Base.{
  ℕ, suc, ◌-◌, ◌*◌, Bool, true, false, not, ◌&&◌, ◌||◌, List, [], ◌∷◌, ◌++◌, map, Option, none,
  some, if◌then◌else◌, ◌==◌, length, take, drop, leb,
}
use duckdb_panduck.Blocks.{Attributes, set_attribute, set_if, to_string}
use duckdb_panduck.MediaWiki.Markup.{Line, trimmed, any_same}
use duckdb_panduck.Slug.{heading_slug}
use duckdb_panduck.Text.{Bytes, codes, empty, same, starts_with, find, find_text, to_lower, back}
use duckdb_panduck.Vocabulary.{
  type_heading, type_paragraph, type_blockquote, type_code, type_raw, type_list, type_list_item,
  type_figure, type_caption, type_image, attr_heading_level, attr_list_type, attr_ordered_legacy,
  attr_role, attr_source_type, list_type_bullet, list_type_ordered, list_type_definition, role_term,
  role_definition,
}
use duckdb_panduck.WikiReader.Runs.{MwInline, parse_inlines, lone_text, plain_text, quoted_value}

-- `MwBlock`
pub record MwBlock : Type 0 where
  pub kind : String
  pub element_type : String
  pub content : Bytes
  pub encoding : String
  pub attributes : Attributes
  pub level : ℕ
  pub inlines : List MwInline

-- `MwBlock b;` with the type, the level, the content and the attributes set
abbrev pub mw_block : String → ℕ → Bytes → Attributes → MwBlock
mw_block type level content attrs = record {
  kind = "";
  element_type = type;
  content = content;
  encoding = "";
  attributes = attrs;
  level = level;
  inlines = [];
}

pub record State : Type 0 where
  pub blocks : List MwBlock
  pub para : Bytes
  pub pre : Bytes
  pub open_lists : Bytes

abbrev pub no_state : State
no_state = record { blocks = []; para = []; pre = []; open_lists = [] }

abbrev pub push : MwBlock → State → State
push b st = record st { blocks = b ∷ st.blocks }

abbrev pub with_runs : MwBlock → List MwInline → Option Bytes → MwBlock
with_runs b runs (some text) = record b { content = text }
with_runs b runs none = record b { inlines = runs }

-- `AttachInlines`
unfoldable pub attach_inlines : MwBlock → Bytes → MwBlock
attach_inlines b text =
    let runs : List MwInline = parse_inlines text (suc b.level) in with_runs b runs (lone_text runs)

abbrev pub cons_part : ℕ → List Bytes → List Bytes
cons_part c [] = (c ∷ []) ∷ []
cons_part c (p ∷ ps) = (c ∷ p) ∷ ps

-- The parts between the bars.
unfoldable pub bar_parts : Bytes → List Bytes
bar_parts [] = [] ∷ []
bar_parts (c ∷ s) = let parts = bar_parts s in if c == b'|' then [] ∷ parts else cons_part c parts

abbrev pub file_options : List Bytes
file_options =
    codes "thumb"
    ∷ codes "thumbnail"
    ∷ codes "frame"
    ∷ codes "frameless"
    ∷ codes "border"
    ∷ codes "right"
    ∷ codes "left"
    ∷ codes "none"
    ∷ codes "center"
    ∷ []

abbrev pub names_pixels : Bytes → Bool
names_pixels v = elim (find_text (codes "px") v) [ none ↦ false | some i ↦ true ]

abbrev pub is_file_option : Bytes → Bool
is_file_option v = empty v || names_pixels v || any_same v file_options

-- The last part that is no option.
unfoldable pub caption_of : Bytes → List Bytes → Bytes
caption_of caption [] = caption
caption_of caption (p ∷ ps) =
    caption_of (if is_file_option (trimmed p) then caption else trimmed p) ps

abbrev pub is_file_target : Bytes → Bool
is_file_target inner =
    starts_with (codes "file:") (map to_lower (take 6 inner))
    || starts_with (codes "image:") (map to_lower (take 6 inner))

abbrev pub behind_colon : Bytes → Bytes
behind_colon s = elim (find b':' s) [ none ↦ s | some i ↦ drop (suc i) s ]

abbrev pub caption_block : Bytes → List MwBlock
caption_block caption =
    if empty caption then [] else attach_inlines (mw_block type_caption 2 [] []) caption ∷ []

abbrev pub image_block : Bytes → Bytes → MwBlock
image_block src caption =
    mw_block type_image 2 [] (set_if (not (empty caption)) "alt" caption (("src", src) ∷ []))

-- The blocks of a figure, newest first.
abbrev pub figure : Bytes → Bytes → List MwBlock
figure src caption =
    image_block src caption ∷ (caption_block caption ++ mw_block type_figure 1 [] [] ∷ [])

abbrev pub figure_of : List Bytes → List MwBlock
figure_of [] = []
figure_of (p ∷ ps) = figure (behind_colon p) (caption_of [] ps)

abbrev pub is_bracketed : Bytes → Bool
is_bracketed t =
    starts_with (codes "[[") t && leb 4 (length t) && same (drop (length t - 2) t) (codes "]]")

abbrev pub inside_brackets : Bytes → Bytes
inside_brackets t = take (length t - 4) (drop 2 t)

-- `FileLink`: the blocks that it adds, newest first, where it holds
unfoldable pub file_link : Bytes → Option (List MwBlock)
file_link t =
    if is_bracketed t && is_file_target (inside_brackets t)
    then some (figure_of (bar_parts (inside_brackets t)))
    else none

-- `FlushParagraph`
unfoldable pub flush_paragraph : State → State
flush_paragraph st =
    if empty st.para
    then st
    else record (push (attach_inlines (mw_block type_paragraph 1 [] []) st.para) st) { para = [] }

-- `FlushPre`
unfoldable pub flush_pre : State → State
flush_pre st =
    if empty st.pre then st else record (push (mw_block type_code 1 st.pre []) st) { pre = [] }

-- `Flush`
abbrev pub flush : State → State
flush st = flush_pre (flush_paragraph st)

-- `CloseLists`
abbrev pub close_lists : State → State
close_lists st = record st { open_lists = [] }

-- What most lines do first.
abbrev pub close_all : State → State
close_all st = close_lists (flush st)

abbrev pub anchor : Line → Bytes
anchor line = heading_slug (plain_text line.text) b'_'

unfoldable pub heading_block : Line → MwBlock
heading_block line =
    attach_inlines
      (mw_block type_heading 1 [] (
        set_if (not (empty (anchor line))) "id" (anchor line)
          (set_attribute attr_heading_level (to_string line.level) [])))
      line.text

unfoldable pub template_block : Line → MwBlock
template_block line = mw_block type_raw 1 line.text (
    set_if (not (empty line.name)) "template_name" line.name
      (("format", codes "mediawiki") ∷ (attr_source_type, codes "template") ∷ []))

unfoldable pub behavior_block : Line → MwBlock
behavior_block line =
    mw_block type_raw 1 line.text
      (("format", codes "mediawiki") ∷ (attr_source_type, codes "behavior_switch") ∷ [])

abbrev pub is_code_tag : Bytes → Bool
is_code_tag name = any_same name (codes "syntaxhighlight" ∷ codes "source" ∷ codes "pre" ∷ [])

abbrev pub language_attributes : Option Bytes → Attributes
language_attributes none = []
language_attributes (some lang) = ("language", lang) ∷ []

-- A tag written again.
abbrev pub written_tag : Line → Bytes
written_tag line =
    if empty line.text
    then codes "<"
      ++ line.name
      ++ (if empty line.attrs then [] else codes " " ++ line.attrs)
      ++ codes "/>"
    else codes "<" ++ line.name ++ codes ">" ++ line.text ++ codes "</" ++ line.name ++ codes ">"

abbrev pub verbatim_block : Line → MwBlock
verbatim_block line =
    mw_block type_raw 1 line.text
      (set_if (not (empty line.name)) attr_source_type line.name (("format", codes "html") ∷ []))

abbrev pub quote_paragraph : Line → MwBlock
quote_paragraph line = attach_inlines (mw_block type_paragraph 2 [] []) line.text

-- `HtmlBlock`
unfoldable pub html_block : Line → State → State
html_block line st =
    if line.verbatim
    then push (verbatim_block line) st
    else if same line.name (codes "blockquote")
    then push (quote_paragraph line) (push (mw_block type_blockquote 1 [] []) st)
    else if is_code_tag line.name
    then push
        (mw_block type_code 1 line.text
          (language_attributes (quoted_value (codes "lang") line.attrs)))
        st
    else push
        (mw_block type_raw 1 (written_tag line)
          (("format", codes "html") ∷ (attr_source_type, line.name) ∷ []))
        st

-- `norm`
abbrev pub norm : ℕ → ℕ
norm c = if c == b':' then b';' else c

-- How many markers of a line continue open lists.
unfoldable pub common : Bytes → Bytes → ℕ
common [] open_lists = 0
common (c ∷ m) [] = 0
common (c ∷ m) (d ∷ open_lists) =
    let more = common m open_lists in if norm c == d then suc more else 0

abbrev pub list_attributes : ℕ → Attributes
list_attributes c =
    if c == b'#'
    then (attr_list_type, codes list_type_ordered)
      ∷ (attr_ordered_legacy, codes "true")
      ∷ ("start", codes "1")
      ∷ ("number_style", codes "Decimal")
      ∷ ("number_delim", codes "Period")
      ∷ []
    else (
      attr_list_type,
      codes (if c == b';' || c == b':' then list_type_definition else list_type_bullet),
    )
      ∷ (attr_ordered_legacy, codes "false")
      ∷ []

-- The lists for the markers from position `k` on.
unfoldable pub open_from : ℕ → Bytes → State → State
open_from k [] st = st
open_from k (c ∷ m) st = open_from (suc k) m (record st {
  blocks = mw_block type_list (suc (2 * k)) [] (list_attributes c) ∷ st.blocks;
  open_lists = st.open_lists ++ norm c ∷ [];
})

unfoldable pub open_lists_for : Bytes → State → State
open_lists_for m st =
    let k = common m st.open_lists in
    open_from k (drop k m) (record st { open_lists = take k st.open_lists })

abbrev pub role_of : ℕ → Attributes
role_of c =
    if c == b';'
    then (attr_role, codes role_term) ∷ []
    else if c == b':'
    then (attr_role, codes role_definition) ∷ []
    else []

unfoldable pub item_block : Line → MwBlock
item_block line =
    attach_inlines
      (mw_block type_list_item (2 * length line.markers) [] (role_of (back line.markers))) line.text

-- `ListItem`
abbrev pub list_item : Line → State → State
list_item line st = push (item_block line) (open_lists_for line.markers st)
