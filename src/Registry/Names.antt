-- ===== src/Registry/Names.antt =====
-- src/reader_registry.cpp: the names that the registry takes, and the extension of a path.
use duckdb_panduck.Base.{
  ℕ, suc, Bool, true, false, not, ◌&&◌, ◌||◌, [], ◌∷◌, map, Option, none, some, if◌then◌else◌, ◌==◌,
  ltb, length, take, drop,
}
use duckdb_panduck.Text.{
  Bytes, codes, is_alpha, is_alnum, to_lower, starts_with, find, find_text, take_while, all_bytes,
}

-- `NormalizeExt`: in lower case, with a dot before it
abbrev pub dotted : Bytes → Bytes
dotted [] = []
dotted (c ∷ s) = if c == b'.' then c ∷ s else b'.' ∷ c ∷ s

unfoldable pub normalize_ext : Bytes → Bytes
normalize_ext raw = dotted (map to_lower raw)

-- `find_last_of` a byte
unfoldable pub find_last : (ℕ → Bool) → Bytes → Option ℕ
find_last p [] = none
find_last p (c ∷ s) = elim (find_last p s) [
  | some i ↦ some (suc i)
  | none ↦ if p c then some 0 else none
]

abbrev pub is_at : ℕ → Bool
is_at c = c == b'@'

abbrev pub is_dot : ℕ → Bool
is_dot c = c == b'.'

abbrev pub is_slash : ℕ → Bool
is_slash c = c == b'/' || c == b'\\'

abbrev pub before_dot : ℕ → Option ℕ → Bool
before_dot at_sign none = false
before_dot at_sign (some dot) = ltb at_sign dot

-- `StripGitRevision`
unfoldable pub strip_git_revision : Bytes → Bytes
strip_git_revision base = elim (find_last is_at base) [
  | none ↦ base
  | some at_sign ↦ if before_dot at_sign (find_last is_dot base) then base else take at_sign base
]

abbrev pub not_query : ℕ → Bool
not_query c = not (c == b'?' || c == b'#')

-- `StripUrlQuery`
unfoldable pub strip_url_query : Bytes → Bytes
strip_url_query base = take_while not_query base

-- `StripGitRefQuery`
unfoldable pub strip_git_ref_query : Bytes → Bytes
strip_git_ref_query path = elim (find_text (codes "?ref=") path) [
  | none ↦ path
  | some cut ↦ take cut path
]

abbrev pub is_git_uri : Bytes → Bool
is_git_uri path = starts_with (codes "git://") path

abbrev pub is_url : Bytes → Bool
is_url path = starts_with (codes "http://") path || starts_with (codes "https://") path

-- Behind the last slash.
unfoldable pub base_of : Bytes → Bytes
base_of path = elim (find_last is_slash path) [ none ↦ path | some slash ↦ drop (suc slash) path ]

abbrev pub suffix_at : Bytes → Option ℕ → Bytes
suffix_at base none = []
suffix_at base (some dot) =
    if ltb (suc dot) (length base) then normalize_ext (drop dot base) else []

-- `ExtOf` of a path without the cleaner for its whole
abbrev pub ext_of_base : Bytes → Bytes
ext_of_base base = suffix_at base (find_last is_dot base)

abbrev pub clean_base : Bool → Bytes → Bytes → Bytes
clean_base as_written path base =
    if as_written && is_git_uri path
    then strip_git_revision base
    else if is_url path
    then strip_url_query base
    else base

abbrev pub clean_path : Bytes → Bytes
clean_path path = if is_git_uri path then strip_git_ref_query path else path

-- `ExtOf`
unfoldable pub ext_of : Bytes → Bool → Bytes
ext_of path as_written =
    if starts_with (codes "zim://") path
    then codes "zim://"
    else ext_of_base (clean_base as_written (clean_path path) (base_of (clean_path path)))

-- `ExtOfPath`
abbrev pub ext_of_path : Bytes → Bytes
ext_of_path path = ext_of path true

abbrev pub has_ref : Bytes → Bool
has_ref path = elim (find_text (codes "?ref=") path) [ none ↦ false | some i ↦ true ]

abbrev pub ext_of_canonical : Bytes → Option Bytes → Bytes
ext_of_canonical path none = ext_of_path path
ext_of_canonical path (some canonical) =
    if not (has_ref path) && is_git_uri canonical && has_ref canonical
    then ext_of canonical false
    else ext_of_path path

-- `ExtOfPath` in a context; `canonicalize` is the CanonicalizePath of DuckDB's file system, and gives
-- nothing where that throws.
unfoldable pub ext_of_path_in : (Bytes → Option Bytes) → Bytes → Bytes
ext_of_path_in canonicalize path =
    if is_git_uri path then ext_of_canonical path (canonicalize path) else ext_of_path path

abbrev pub opens_name : ℕ → Bool
opens_name c = is_alpha c || c == b'_'

abbrev pub is_name_byte : ℕ → Bool
is_name_byte c = is_alnum c || c == b'_'

unfoldable pub is_identifier : Bytes → Bool
is_identifier [] = false
is_identifier (c ∷ s) = opens_name c && all_bytes is_name_byte (c ∷ s)

abbrev pub no_dot : Option ℕ → Bool
no_dot none = true
no_dot (some i) = false

unfoldable pub is_qualified_identifier : Bytes → Bool
is_qualified_identifier s = elim (find b'.' s) [
  | none ↦ is_identifier s
  | some dot ↦
      no_dot (find b'.' (drop (suc dot) s))
      && is_identifier (take dot s)
      && is_identifier (drop (suc dot) s)
]
