-- ===== src/Vocabulary.antt =====
-- src/include/duck_block_vocabulary.hpp: the element kinds and types that the passes over blocks
-- name, and the predicates on them. Names are native strings; `SameName` is their equality.
use Prim.Native.String.{String}
use text.Mathlib.Text.{◌==◌}
use duckdb_panduck.Base.{Bool, true, false, not, ◌&&◌, ◌||◌, if◌then◌else◌}

abbrev pub kind_block : String
kind_block = "block"

abbrev pub kind_inline : String
kind_inline = "inline"

abbrev pub kind_value : String
kind_value = "value"

abbrev pub type_plain : String
type_plain = "plain"

abbrev pub type_list : String
type_list = "list"

abbrev pub type_list_item : String
type_list_item = "list_item"

abbrev pub type_deflist : String
type_deflist = "deflist"

abbrev pub type_figure : String
type_figure = "figure"

abbrev pub type_table : String
type_table = "table"

abbrev pub type_caption : String
type_caption = "caption"

abbrev pub type_metadata : String
type_metadata = "metadata"

abbrev pub value_inlines : String
value_inlines = "inlines"

abbrev pub type_heading : String
type_heading = "heading"

abbrev pub type_paragraph : String
type_paragraph = "paragraph"

abbrev pub type_code : String
type_code = "code"

abbrev pub type_blockquote : String
type_blockquote = "blockquote"

abbrev pub type_hr : String
type_hr = "hr"

abbrev pub type_raw : String
type_raw = "raw"

abbrev pub inline_text : String
inline_text = "text"

abbrev pub inline_bold : String
inline_bold = "bold"

abbrev pub inline_italic : String
inline_italic = "italic"

abbrev pub inline_strikethrough : String
inline_strikethrough = "strikethrough"

abbrev pub inline_underline : String
inline_underline = "underline"

abbrev pub inline_code : String
inline_code = "code"

abbrev pub inline_link : String
inline_link = "link"

abbrev pub encoding_text : String
encoding_text = "text"

abbrev pub encoding_json : String
encoding_json = "json"

abbrev pub attr_role : String
attr_role = "role"

abbrev pub attr_key : String
attr_key = "key"

abbrev pub attr_heading_level : String
attr_heading_level = "heading_level"

abbrev pub attr_list_type : String
attr_list_type = "list_type"

abbrev pub list_type_bullet : String
list_type_bullet = "bullet"

abbrev pub list_type_ordered : String
list_type_ordered = "ordered"

abbrev pub list_type_definition : String
list_type_definition = "definition"

abbrev pub attr_ordered_legacy : String
attr_ordered_legacy = "ordered"

abbrev pub role_term : String
role_term = "term"

abbrev pub role_definition : String
role_definition = "definition"

abbrev pub inline_superscript : String
inline_superscript = "superscript"

abbrev pub inline_subscript : String
inline_subscript = "subscript"

abbrev pub inline_image : String
inline_image = "image"

abbrev pub inline_cite : String
inline_cite = "cite"

abbrev pub inline_span : String
inline_span = "span"

abbrev pub inline_note : String
inline_note = "note"

abbrev pub inline_raw : String
inline_raw = "raw"

abbrev pub type_image : String
type_image = "image"

abbrev pub attr_source_type : String
attr_source_type = "source_type"

-- `SameName` walks two C strings to their terminators.
abbrev pub same_name : String → String → Bool
same_name a b = a == b

-- The wrapper that an orphan gets; the empty string where no ancestor is required.
unfoldable pub implicit_parent_of : String → String → String
implicit_parent_of element_type kind =
    if same_name kind kind_inline
    then type_plain
    else if same_name kind kind_block && same_name element_type type_list_item
    then type_list
    else if same_name kind kind_block && same_name element_type type_caption
    then type_figure
    else ""

unfoldable pub requires_ancestor : String → String → String → Bool
requires_ancestor element_type kind ancestor_type =
    if same_name kind kind_inline
    then true
    else if same_name element_type type_list_item
    then same_name ancestor_type type_list || same_name ancestor_type type_deflist
    else if same_name element_type type_caption
    then same_name ancestor_type type_figure || same_name ancestor_type type_table
    else false

unfoldable pub is_body : String → String → Bool
is_body kind element_type =
    (same_name kind kind_block || same_name kind kind_inline)
    && not (same_name element_type type_metadata)
