-- ===== src/OrgReader/Runs.antt =====
-- libpanduck/src/org.cpp: a text split into inline runs (ParseInlines), on the rest of the text
-- from each position, with the byte before it.
use Prim.Native.String.{String}
use duckdb_panduck.Base.{
  ℕ, zero, suc, ◌+◌, Bool, true, false, not, ◌&&◌, ◌||◌, List, [], ◌∷◌, ◌++◌, Option, none, some,
  if◌then◌else◌, ◌==◌, length, take, drop,
}
use duckdb_panduck.Text.{Bytes, codes, empty, is_space, starts_with, find_text}
use duckdb_panduck.Vocabulary.{
  inline_text, inline_bold, inline_italic, inline_strikethrough, inline_underline, inline_code,
  inline_link,
}

-- `OrgInline`
pub record Inline : Type 0 where
  pub element_type : String
  pub content : Bytes
  pub href : Bytes
  pub level : ℕ

unfoldable pub marker_type : ℕ → Option String
marker_type c =
    if c == b'*'
    then some inline_bold
    else if c == b'/'
    then some inline_italic
    else if c == b'_'
    then some inline_underline
    else if c == b'='
    then some inline_code
    else if c == b'~'
    then some inline_code
    else if c == b'+'
    then some inline_strikethrough
    else none

abbrev pub opens_after : Option ℕ → Bool
opens_after none = true
opens_after (some c) = is_space c || c == b'(' || c == b'['

abbrev pub opens_before : Bytes → Bool
opens_before [] = false
opens_before (c ∷ s) = not (is_space c)

-- `s` stands behind the marker.
unfoldable pub opens_here : Option ℕ → Bytes → Bool
opens_here prev s = opens_after prev && opens_before s

abbrev pub text_run : ℕ → Bytes → Inline
text_run level text = record {
  element_type = inline_text;
  content = text;
  href = [];
  level = level;
}

-- `PushText`: what it adds to the runs
unfoldable pub push_text : ℕ → Bytes → List Inline
push_text level text = if empty text then [] else text_run level text ∷ []

-- The body of the link, and what stands behind it.
unfoldable pub link_at : Bytes → Option (Bytes × Bytes)
link_at s =
    if starts_with (codes "[[") s
    then elim (find_text (codes "]]") (drop 2 s)) [
      | none ↦ none
      | some close ↦ some (take close (drop 2 s), drop (close + 2) (drop 2 s))
    ]
    else none

abbrev pub link_split : ℕ → Bytes → Option ℕ → Inline
link_split level body none = record {
  element_type = inline_link;
  content = body;
  href = body;
  level = level;
}
link_split level body (some sep) = record {
  element_type = inline_link;
  content = drop (sep + 2) body;
  href = take sep body;
  level = level;
}

unfoldable pub link_run : ℕ → Bytes → Inline
link_run level body = link_split level body (find_text (codes "][") body)

abbrev pub cons_first : ℕ → Option (Bytes × Bytes) → Option (Bytes × Bytes)
cons_first c none = none
cons_first c (some (content, rest)) = some (c ∷ content, rest)

-- The search for a closing marker `m` behind the byte `prev`, past those behind a blank.
unfoldable pub close_behind : ℕ → ℕ → Bytes → Option (Bytes × Bytes)
close_behind m prev [] = none
close_behind m prev (c ∷ s) =
    let later = cons_first c (close_behind m c s) in
    if c == m && not (is_space prev) then some ([], s) else later

-- The content of the run and what stands behind it; a marker at once behind the first one is no
-- content.
unfoldable pub close_run : ℕ → Bytes → Option (Bytes × Bytes)
close_run m [] = none
close_run m (c ∷ s) = if c == m then none else cons_first c (close_behind m c s)

abbrev pub typed_run : Option String → Option (Bytes × Bytes) → Option (String × (Bytes × Bytes))
typed_run none found = none
typed_run (some type) none = none
typed_run (some type) (some found) = some (type, found)

unfoldable pub run_at : Option ℕ → ℕ → Bytes → Option (String × (Bytes × Bytes))
run_at prev c s = if opens_here prev s then typed_run (marker_type c) (close_run c s) else none

abbrev pub marked_run : ℕ → String → Bytes → Inline
marked_run level type content = record {
  element_type = type;
  content = content;
  href = [];
  level = level;
}

-- The loop, with the plain text so far.
unfoldable pub inline_loop : ℕ → ℕ → Option ℕ → Bytes → Bytes → List Inline
inline_loop zero level prev plain s = []
inline_loop (suc fuel) level prev plain [] = push_text level plain
inline_loop (suc fuel) level prev plain (c ∷ s) = elim (link_at (c ∷ s)) [
  | some (body, rest) ↦
      push_text level plain ++ (link_run level body ∷ inline_loop fuel level (some b']') [] rest)
  | none ↦ elim (run_at prev c s) [
    | some (type, (content, rest)) ↦
        push_text level plain
        ++ (marked_run level type content ∷ inline_loop fuel level (some c) [] rest)
    | none ↦ inline_loop fuel level (some c) (plain ++ c ∷ []) s
  ]
]

-- `ParseInlines`
unfoldable pub parse_inlines : Bytes → ℕ → List Inline
parse_inlines s level = inline_loop (suc (length s)) level none [] s
