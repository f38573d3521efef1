-- ===== src/WikiReader/Runs.antt =====
-- libpanduck/src/mediawiki.cpp: a text split into inline runs, on the rest of the text from each
-- position. The runs stand newest first.
use Prim.Native.String.{String}
use duckdb_panduck.Base.{
  ℕ, zero, suc, ◌+◌, Bool, true, false, not, ◌&&◌, ◌||◌, List, [], ◌∷◌, ◌++◌, Option, none, some,
  if◌then◌else◌, ◌==◌, length, take, drop, reverse,
}
use duckdb_panduck.Blocks.{Attributes, set_if}
use duckdb_panduck.MediaWiki.Markup.{template_name, trimmed}
use duckdb_panduck.Text.{
  Bytes, codes, empty, starts_with, find, find_text, drop_while, any_byte, back,
}
use duckdb_panduck.Vocabulary.{
  same_name, inline_text, inline_bold, inline_italic, inline_code, inline_link, inline_note,
  inline_raw, attr_source_type,
}

-- `MwInline`
pub record MwInline : Type 0 where
  pub element_type : String
  pub content : Bytes
  pub encoding : String
  pub attributes : Attributes
  pub level : ℕ

abbrev pub mw_inline : String → Bytes → Attributes → ℕ → MwInline
mw_inline type content attrs level = record {
  element_type = type;
  content = content;
  encoding = "";
  attributes = attrs;
  level = level;
}

abbrev pub is_quote : ℕ → Bool
is_quote c = c == b'\''

abbrev pub is_bar : ℕ → Bool
is_bar c = c == b'|'

-- What stands behind the last bar.
unfoldable pub last_part : Bytes → Bytes
last_part [] = []
last_part (c ∷ s) =
    let later = last_part s in if any_byte is_bar s then later else if is_bar c then s else c ∷ s

abbrev pub plain_link : Bytes → Option (Bytes × Bytes)
plain_link s = elim (find_text (codes "]]") s) [
  | none ↦ none
  | some close ↦ some (last_part (take close s), drop (close + 2) s)
]

-- What PlainText writes of a construct at the start of a text, and the text behind it.
abbrev pub plain_mark : Bytes → Option (Bytes × Bytes)
plain_mark s =
    if starts_with (codes "''") s
    then some ([], drop_while is_quote s)
    else if starts_with (codes "[[") s
    then plain_link (drop 2 s)
    else none

unfoldable pub plain_loop : ℕ → Bytes → Bytes
plain_loop zero s = []
plain_loop (suc fuel) [] = []
plain_loop (suc fuel) (c ∷ s) = elim (plain_mark (c ∷ s)) [
  | none ↦ c ∷ plain_loop fuel s
  | some (text, rest) ↦ text ++ plain_loop fuel rest
]

-- `PlainText`
abbrev pub plain_text : Bytes → Bytes
plain_text s = plain_loop (length s) s

abbrev pub no_attributes : Attributes → Bool
no_attributes [] = true
no_attributes (a ∷ attrs) = false

-- A text run that another text is added to.
abbrev pub is_plain : MwInline → Bool
is_plain r = same_name r.element_type inline_text && no_attributes r.attributes

unfoldable pub add_text : Bytes → ℕ → List MwInline → List MwInline
add_text text level [] = mw_inline inline_text text [] level ∷ []
add_text text level (r ∷ rs) =
    if is_plain r
    then record r { content = r.content ++ text } ∷ rs
    else mw_inline inline_text text [] level ∷ r ∷ rs

-- `PushText`
unfoldable pub push_text : Bytes → ℕ → List MwInline → List MwInline
push_text text level out = if empty text then out else add_text text level out

-- The text of runs that are one plain text, in their order.
unfoldable pub lone_text : List MwInline → Option Bytes
lone_text [] = none
lone_text (r ∷ []) = if is_plain r then some r.content else none
lone_text (r ∷ s ∷ rs) = none

abbrev pub wrapped_runs : MwInline → List MwInline → Option Bytes → List MwInline → List MwInline
wrapped_runs node children (some text) out = record node { content = text } ∷ out
wrapped_runs node children none out = reverse children ++ (node ∷ out)

-- `PushWrapped`, with the children that it parses
unfoldable pub push_wrapped : MwInline → List MwInline → List MwInline → List MwInline
push_wrapped node children out = wrapped_runs node children (lone_text children) out

-- A construct that is found, with the text behind it: a text, a node, or what wraps a text.
pub data Found : Type 0 where
  literal : Bytes → Bytes → Found
  node : String → Bytes → Attributes → Bytes → Found
  wrapped : String → Bytes → Bytes → Found
  bold_italic : Bytes → Bytes → Found

abbrev pub counted : ℕ → Option ℕ → Option ℕ
counted k none = none
counted k (some n) = some (k + n)

-- How many bytes the template takes that has `depth` open braces.
unfoldable pub balance : ℕ → Bytes → Option ℕ
balance zero s = some 0
balance (suc depth) [] = none
balance (suc depth) (c ∷ []) = none
balance (suc depth) (c ∷ d ∷ s) = elim (c == b'{' && d == b'{') [
  | true ↦ counted 2 (balance (suc (suc depth)) s)
  | false ↦ elim (c == b'}' && d == b'}') [
    | true ↦ counted 2 (balance depth s)
    | false ↦ counted 1 (balance (suc depth) (d ∷ s))
  ]
]

abbrev pub template_attributes : Bytes → Attributes
template_attributes name =
    set_if (not (empty name)) "template_name" name
      (("format", codes "mediawiki") ∷ (attr_source_type, codes "template") ∷ [])

abbrev pub template_raw : ℕ → Bytes → Bytes
template_raw n s = codes "{{" ++ take n s

-- Behind two opening braces.
unfoldable pub find_template : Bytes → Option Found
find_template s = elim (balance 1 s) [
  | none ↦ none
  | some n ↦ some (
      node inline_raw (template_raw n s) (template_attributes (template_name (template_raw n s)))
        (drop n s))
]

unfoldable pub find_nowiki : Bytes → Option Found
find_nowiki s = elim (find_text (codes "</nowiki>") s) [
  | none ↦ none
  | some close ↦ some (literal (take close s) (drop (close + 9) s))
]

unfoldable pub find_code : Bytes → Option Found
find_code s = elim (find_text (codes "</code>") s) [
  | none ↦ none
  | some close ↦ some (node inline_code (take close s) [] (drop (close + 7) s))
]

abbrev pub no_value_quote : ℕ → Bool
no_value_quote c = not (c == b'"' || c == b'\'')

-- Up to the quote that opened it.
abbrev pub until_quote : Bytes → Option Bytes
until_quote [] = none
until_quote (q ∷ s) = elim (find q s) [ none ↦ none | some close ↦ some (take close s) ]

-- The first quoted text behind `key`.
unfoldable pub quoted_value : Bytes → Bytes → Option Bytes
quoted_value key tag = elim (find_text key tag) [
  | none ↦ none
  | some at_key ↦ until_quote (drop_while no_value_quote (drop at_key tag))
]

abbrev pub or_empty : Option Bytes → Bytes
or_empty none = []
or_empty (some s) = s

abbrev pub ref_attributes : Bytes → Attributes
ref_attributes name = set_if (not (empty name)) "name" name []

unfoldable pub ref_body : Attributes → Bytes → Found
ref_body attrs s = elim (find_text (codes "</ref>") s) [
  | none ↦ node inline_note (plain_text s) attrs []
  | some close ↦ node inline_note (plain_text (take close s)) attrs (drop (close + 6) s)
]

-- A tag, without its name and its last byte, and the text behind it.
abbrev pub ref_at : Bytes → Bytes → Found
ref_at tag s =
    let attrs : Attributes = ref_attributes (or_empty (quoted_value (codes "name=") tag)) in
    if back tag == b'/' then node inline_note [] attrs s else ref_body attrs s

-- Behind `<ref`.
unfoldable pub find_ref : Bytes → Option Found
find_ref s = elim (find b'>' s) [
  | none ↦ none
  | some gt ↦ some (ref_at (take gt s) (drop (suc gt) s))
]

abbrev pub wiki_link : Bytes → Option ℕ → Bytes → Found
wiki_link inner none rest =
    node inline_link inner (("href", inner) ∷ ("link_type", codes "wikilink") ∷ []) rest
wiki_link inner (some bar) rest =
    node inline_link (drop (suc bar) inner)
      (("href", take bar inner) ∷ ("link_type", codes "wikilink") ∷ []) rest

-- Behind two opening brackets.
unfoldable pub find_wiki_link : Bytes → Option Found
find_wiki_link s = elim (find_text (codes "]]") s) [
  | none ↦ none
  | some close ↦ some (wiki_link (take close s) (find b'|' (take close s)) (drop (close + 2) s))
]

abbrev pub is_external : Bytes → Bool
is_external target = starts_with (codes "http") target || starts_with (codes "//") target

abbrev pub external_link : Bytes → Option ℕ → Bytes → Option Found
external_link inner none rest =
    if is_external inner then some (node inline_link inner (("href", inner) ∷ []) rest) else none
external_link inner (some sp) rest =
    if is_external (take sp inner)
    then some (node inline_link (trimmed (drop (suc sp) inner)) (("href", take sp inner) ∷ []) rest)
    else none

-- Behind one opening bracket.
unfoldable pub find_external_link : Bytes → Option Found
find_external_link s = elim (find b']' s) [
  | none ↦ none
  | some close ↦ external_link (take close s) (find b' ' (take close s)) (drop (suc close) s)
]

unfoldable pub find_bold_italic : Bytes → Option Found
find_bold_italic s = elim (find_text (codes "'''''") s) [
  | none ↦ none
  | some close ↦ some (bold_italic (take close s) (drop (close + 5) s))
]

unfoldable pub find_wrapped : String → Bytes → Bytes → Option Found
find_wrapped type delim s = elim (find_text delim s) [
  | none ↦ none
  | some close ↦ some (wrapped type (take close s) (drop (close + length delim) s))
]

abbrev pub first_found : Option Found → Option Found → Option Found
first_found none later = later
first_found (some f) later = some f

-- What `find` gives behind `opener`, where the text starts with it.
abbrev pub behind : Bytes → (Bytes → Option Found) → Bytes → Option Found
behind opener find s = if starts_with opener s then find (drop (length opener) s) else none

abbrev pub not_double : Bytes → (Bytes → Option Found) → Bytes → Option Found
not_double opener find s = if starts_with opener s then none else behind (codes "[") find s

abbrev pub all_found : Bytes → List (Bytes → Option Found) → Option Found
all_found s [] = none
all_found s (f ∷ fs) = first_found (f s) (all_found s fs)

-- The constructs, in the order of the tests.
abbrev pub finders : List (Bytes → Option Found)
finders =
    behind (codes "{{") find_template
    ∷ behind (codes "<nowiki>") find_nowiki
    ∷ behind (codes "<code>") find_code
    ∷ behind (codes "<ref") find_ref
    ∷ behind (codes "[[") find_wiki_link
    ∷ not_double (codes "[[") find_external_link
    ∷ behind (codes "'''''") find_bold_italic
    ∷ behind (codes "'''") (find_wrapped inline_bold (codes "'''"))
    ∷ behind (codes "''") (find_wrapped inline_italic (codes "''"))
    ∷ []

unfoldable pub found_at : Bytes → Option Found
found_at s = all_found s finders

-- The loop, with the text that is pending and the runs so far.
unfoldable pub inline_loop : ℕ → ℕ → Bytes → List MwInline → Bytes → List MwInline
inline_loop zero level pending out s = out
inline_loop (suc fuel) level pending out [] = push_text pending level out
inline_loop (suc fuel) level pending out (c ∷ s) = elim (found_at (c ∷ s)) [
  | none ↦ inline_loop fuel level (pending ++ c ∷ []) out s
  | some found ↦ elim found [
    | literal text rest ↦ inline_loop fuel level (pending ++ text) out rest
    | node type content attrs rest ↦
        inline_loop fuel level [] (mw_inline type content attrs level ∷ push_text pending level out)
          rest
    | wrapped type inner rest ↦
        inline_loop fuel level []
          (push_wrapped (mw_inline type [] [] level)
            (reverse (inline_loop fuel (suc level) [] [] inner)) (push_text pending level out))
          rest
    | bold_italic inner rest ↦
        inline_loop fuel level []
          (push_wrapped (mw_inline inline_italic [] [] (suc level))
            (reverse (inline_loop fuel (suc (suc level)) [] [] inner))
            (mw_inline inline_bold [] [] level ∷ push_text pending level out))
          rest
  ]
]

-- `ParseInlines`
unfoldable pub parse_inlines : Bytes → ℕ → List MwInline
parse_inlines s level = reverse (inline_loop (suc (length s)) level [] [] s)
