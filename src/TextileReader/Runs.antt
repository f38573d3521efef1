-- ===== src/TextileReader/Runs.antt =====
-- libpanduck/src/textile.cpp: a text split into inline runs, on the rest of the text from each
-- position with the byte before it. The runs stand newest first.
use Prim.Native.String.{String}
use duckdb_panduck.Base.{
  ℕ, zero, suc, ◌+◌, Bool, true, false, not, ◌&&◌, ◌||◌, List, [], ◌∷◌, ◌++◌, Option, none, some,
  if◌then◌else◌, ◌==◌, length, take, drop, reverse,
}
use duckdb_panduck.Blocks.{Attributes}
use duckdb_panduck.Text.{
  Bytes, codes, empty, is_alnum, starts_with, find, find_text, take_while, trim_right, any_byte,
  back,
}
use duckdb_panduck.Vocabulary.{
  same_name, inline_text, inline_bold, inline_italic, inline_strikethrough, inline_underline,
  inline_code, inline_link, inline_superscript, inline_subscript, inline_image, inline_cite,
  inline_span,
}

-- `TxInline`
pub record TxInline : Type 0 where
  pub element_type : String
  pub content : Bytes
  pub attributes : Attributes
  pub level : ℕ

abbrev pub text_run : ℕ → Bytes → TxInline
text_run level text = record {
  element_type = inline_text;
  content = text;
  attributes = [];
  level = level;
}

abbrev pub no_attributes : Attributes → Bool
no_attributes [] = true
no_attributes (a ∷ attrs) = false

-- A text run that another text is added to.
abbrev pub is_plain : TxInline → Bool
is_plain r = same_name r.element_type inline_text && no_attributes r.attributes

unfoldable pub add_text : Bytes → ℕ → List TxInline → List TxInline
add_text text level [] = text_run level text ∷ []
add_text text level (r ∷ rs) =
    if is_plain r
    then record r { content = r.content ++ text } ∷ rs
    else text_run level text ∷ r ∷ rs

-- `PushText`
unfoldable pub push_text : Bytes → ℕ → List TxInline → List TxInline
push_text text level out = if empty text then out else add_text text level out

-- The text of runs that are one plain text, in their order.
unfoldable pub lone_text : List TxInline → Option Bytes
lone_text [] = none
lone_text (r ∷ []) = if is_plain r then some r.content else none
lone_text (r ∷ s ∷ rs) = none

abbrev pub wrapped : TxInline → List TxInline → Option Bytes → List TxInline → List TxInline
wrapped node children (some text) out = record node { content = text } ∷ out
wrapped node children none out = reverse children ++ (node ∷ out)

-- `PushWrapped`, with the children that it parses
unfoldable pub push_wrapped : TxInline → List TxInline → List TxInline → List TxInline
push_wrapped node children out = wrapped node children (lone_text children) out

-- A construct that is found: its node, the text that it wraps if it does, the last byte of it and
-- what stands behind it.
pub record Mark : Type 0 where
  pub element_type : String
  pub content : Bytes
  pub attributes : Attributes
  pub inner : Option Bytes
  pub last : ℕ
  pub rest : Bytes

-- `strchr(".,;:!?", c)`, which finds the terminator of the literal too
abbrev pub is_url_end : ℕ → Bool
is_url_end c = c == 0 || any_byte (λ d. d == c) (codes ".,;:!?")

abbrev pub not_space : ℕ → Bool
not_space c = not (c == b' ' || c == 9)

unfoldable pub link_mark : Bytes → Bytes → Mark
link_mark label behind =
    let href : Bytes = trim_right is_url_end (take_while not_space behind) in
    record {
      element_type = inline_link;
      content = label;
      attributes = ("href", href) ∷ [];
      inner = none;
      last = if empty href then b':' else back href;
      rest = drop (length href) behind;
    }

-- `s` stands behind the quote.
unfoldable pub find_link : Bytes → Option Mark
find_link s = elim (find_text (codes "\":") s) [
  | none ↦ none
  | some close ↦ some (link_mark (take close s) (drop (close + 2) s))
]

abbrev pub image_mark : Bytes → Bytes → Mark
image_mark src rest = record {
  element_type = inline_image;
  content = [];
  attributes = ("src", src) ∷ [];
  inner = none;
  last = b'!';
  rest = rest;
}

-- `s` stands behind the exclamation mark.
unfoldable pub find_image : Bytes → Option Mark
find_image s = elim (find b'!' s) [
  | none ↦ none
  | some close ↦
      if close == 0 || any_byte (λ c. c == b' ') (take close s)
      then none
      else some (image_mark (take close s) (drop (suc close) s))
]

abbrev pub follows_word : Option ℕ → Bool
follows_word none = false
follows_word (some c) = is_alnum c

abbrev pub opens_word : Bytes → Bool
opens_word [] = false
opens_word (c ∷ s) = is_alnum c

abbrev pub wrap_mark : Bytes → String → Bytes → Bytes → Mark
wrap_mark delim type inner rest = record {
  element_type = type;
  content = [];
  attributes = [];
  inner = some inner;
  last = back delim;
  rest = rest;
}

-- `s` stands behind the opening delimiter.
unfoldable pub close_delim : Bytes → String → Bytes → Option Mark
close_delim delim type s = elim (find_text delim s) [
  | none ↦ none
  | some close ↦
      if opens_word (drop (close + length delim) s)
      then none
      else some (wrap_mark delim type (take close s) (drop (close + length delim) s))
]

-- `TryDelim`
unfoldable pub try_delim : Option ℕ → Bytes → Bytes × String → Option Mark
try_delim prev s (delim, type) =
    if starts_with delim s && not (follows_word prev)
    then close_delim delim type (drop (length delim) s)
    else none

abbrev pub first_found : Option Mark → Option Mark → Option Mark
first_found none later = later
first_found (some m) later = some m

abbrev pub try_delims : Option ℕ → Bytes → List (Bytes × String) → Option Mark
try_delims prev s [] = none
try_delims prev s (d ∷ ds) = first_found (try_delim prev s d) (try_delims prev s ds)

-- The double markers first.
abbrev pub delims : List (Bytes × String)
delims =
    (codes "**", inline_bold)
    ∷ (codes "__", inline_italic)
    ∷ (codes "??", inline_cite)
    ∷ (codes "*", inline_bold)
    ∷ (codes "_", inline_italic)
    ∷ (codes "@", inline_code)
    ∷ (codes "-", inline_strikethrough)
    ∷ (codes "+", inline_underline)
    ∷ (codes "^", inline_superscript)
    ∷ (codes "~", inline_subscript)
    ∷ (codes "%", inline_span)
    ∷ []

-- What starts at a byte, in the order of the tests.
unfoldable pub mark_at : Option ℕ → ℕ → Bytes → Option Mark
mark_at prev c s =
    first_found (if c == b'"' then find_link s else none)
      (first_found (if c == b'!' then find_image s else none) (try_delims prev (c ∷ s) delims))

abbrev pub node_of : ℕ → Mark → TxInline
node_of level m = record {
  element_type = m.element_type;
  content = m.content;
  attributes = m.attributes;
  level = level;
}

-- The loop, with the text that is pending and the runs so far.
unfoldable pub inline_loop : ℕ → ℕ → Option ℕ → Bytes → List TxInline → Bytes → List TxInline
inline_loop zero level prev pending out s = out
inline_loop (suc fuel) level prev pending out [] = push_text pending level out
inline_loop (suc fuel) level prev pending out (c ∷ s) = elim (mark_at prev c s) [
  | none ↦ inline_loop fuel level (some c) (pending ++ c ∷ []) out s
  | some m ↦ elim (m.inner) [
    | none ↦
        inline_loop fuel level (some m.last) [] (node_of level m ∷ push_text pending level out)
          m.rest
    | some inner ↦
        inline_loop fuel level (some m.last) []
          (push_wrapped (node_of level m) (reverse (inline_loop fuel (suc level) none [] [] inner))
            (push_text pending level out))
          m.rest
  ]
]

-- `ParseInlines`
unfoldable pub parse_inlines : Bytes → ℕ → List TxInline
parse_inlines s level = reverse (inline_loop (suc (length s)) level none [] [] s)
