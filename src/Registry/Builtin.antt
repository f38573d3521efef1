-- ===== src/Registry/Builtin.antt =====
-- The rows that panduck begins with: the claims of src/reader_registry.cpp for other extensions, and
-- panduck's own formats of src/supported_extensions.cpp, without their notes.
use duckdb_panduck.Base.{not, ◌&&◌, List, [], ◌∷◌, ◌++◌, map, Option, none, some, if◌then◌else◌}
use duckdb_panduck.Registry.Names.{normalize_ext}
use duckdb_panduck.Registry.{ReaderEntry, ReaderOption}
use duckdb_panduck.Text.{Bytes, codes, empty, same}

abbrev pub kind_doc : Bytes
kind_doc = codes "doc"

abbrev pub kind_table : Bytes
kind_table = codes "table"

abbrev pub source_builtin : Bytes
source_builtin = codes "builtin"

abbrev pub status_implemented : Bytes
status_implemented = codes "implemented"

-- `FormatReader`, where a format that no function reads has none
pub record FormatReader : Type 0 where
  pub format : Bytes
  pub extensions : List Bytes
  pub reader : Option Bytes
  pub status : Bytes

abbrev implemented : Bytes → List Bytes → Bytes → FormatReader
implemented format extensions reader = record {
  format = format;
  extensions = extensions;
  reader = some reader;
  status = status_implemented;
}

abbrev docx_format : FormatReader
docx_format = implemented (codes "docx") (codes "docx" ∷ []) (codes "read_docx_blocks")

abbrev odt_format : FormatReader
odt_format = implemented (codes "odt") (codes "odt" ∷ []) (codes "read_odt_blocks")

abbrev epub_format : FormatReader
epub_format = implemented (codes "epub") (codes "epub" ∷ []) (codes "read_epub_blocks")

abbrev pandoc_format : FormatReader
pandoc_format = implemented (codes "pandoc") [] (codes "read_pandoc_blocks")

abbrev ipynb_format : FormatReader
ipynb_format = implemented (codes "ipynb") (codes "ipynb" ∷ []) (codes "read_ipynb_blocks")

abbrev latex_format : FormatReader
latex_format =
    implemented (codes "latex") (codes "tex" ∷ codes "latex" ∷ []) (codes "read_latex_blocks")

abbrev rst_format : FormatReader
rst_format = implemented (codes "rst") (codes "rst" ∷ []) (codes "read_rst_blocks")

abbrev org_format : FormatReader
org_format = implemented (codes "org") (codes "org" ∷ []) (codes "read_org_blocks")

abbrev mediawiki_format : FormatReader
mediawiki_format =
    implemented (codes "mediawiki") (codes "wiki" ∷ codes "mediawiki" ∷ [])
      (codes "read_mediawiki_blocks")

abbrev textile_format : FormatReader
textile_format = implemented (codes "textile") (codes "textile" ∷ []) (codes "read_textile_blocks")

abbrev rtf_format : FormatReader
rtf_format = implemented (codes "rtf") (codes "rtf" ∷ []) (codes "read_rtf_blocks")

-- `FORMATS`
abbrev pub formats : List FormatReader
formats =
    docx_format ∷ odt_format ∷ epub_format ∷ pandoc_format ∷ ipynb_format ∷ latex_format
    ∷ rst_format ∷ org_format ∷ mediawiki_format ∷ textile_format ∷ rtf_format ∷ []

abbrev pub builtin_entry : Bytes → Bytes → Bytes → Bytes → Bytes → ReaderEntry
builtin_entry ext format reader_ext function kind = record {
  ext = ext;
  format = format;
  reader_ext = reader_ext;
  function = function;
  kind = kind;
  source = source_builtin;
  options = [];
}

abbrev doc_seed : Bytes → Bytes → Bytes → Bytes → ReaderEntry
doc_seed ext format reader_ext function = builtin_entry ext format reader_ext function kind_doc

abbrev table_seed : Bytes → Bytes → ReaderEntry
table_seed ext reader_ext = builtin_entry ext (codes "data") reader_ext [] kind_table

-- `SEEDS`, each as the row that it becomes
abbrev pub seeds : List ReaderEntry
seeds =
    doc_seed (codes ".md") (codes "markdown") (codes "markdown") (codes "read_markdown_blocks")
    ∷ doc_seed (codes ".markdown") (codes "markdown") (codes "markdown")
        (codes "read_markdown_blocks")
    ∷ doc_seed (codes ".html") (codes "html") (codes "webbed") (codes "read_html_blocks")
    ∷ doc_seed (codes ".htm") (codes "html") (codes "webbed") (codes "read_html_blocks")
    ∷ doc_seed (codes ".pdf") (codes "pdf") (codes "pdf") []
    ∷ doc_seed (codes ".zim") (codes "zim") (codes "zim") []
    ∷ doc_seed (codes "zim://") (codes "zim_article") (codes "zim") []
    ∷ table_seed (codes ".json") (codes "json")
    ∷ doc_seed (codes ".toml") (codes "toml") (codes "toml") []
    ∷ doc_seed (codes ".yaml") (codes "yaml") (codes "yaml") []
    ∷ doc_seed (codes ".yml") (codes "yaml") (codes "yaml") []
    ∷ table_seed (codes ".csv") (codes "core")
    ∷ table_seed (codes ".tsv") (codes "core")
    ∷ table_seed (codes ".parquet") (codes "core")
    ∷ table_seed (codes ".arrow") (codes "core")
    ∷ table_seed (codes ".jsonl") (codes "core")
    ∷ table_seed (codes ".ndjson") (codes "core")
    ∷ table_seed (codes ".xlsx") (codes "excel")
    ∷ []

abbrev pub own_entry : Bytes → Bytes → Bytes → ReaderEntry
own_entry format reader ext =
    builtin_entry (normalize_ext ext) format (codes "panduck") reader kind_doc

-- The rows of a format, none where it is not implemented.
abbrev pub format_entries : FormatReader → List ReaderEntry
format_entries f = elim (f.reader) [
  | none ↦ []
  | some reader ↦
      if same f.status status_implemented then map (own_entry f.format reader) f.extensions else []
]

unfoldable pub own_entries : List FormatReader → List ReaderEntry
own_entries [] = []
own_entries (f ∷ fs) = format_entries f ++ own_entries fs

abbrev attributes_option : ReaderOption
attributes_option = record {
  intent = codes "attributes";
  value = codes "all";
  param = codes "capture_attributes";
  arg = codes "*";
  arg_type = codes "VARCHAR";
}

-- The one option that a built-in row has.
abbrev pub with_attributes : ReaderEntry → ReaderEntry
with_attributes e =
    if same e.format (codes "html") && same e.function (codes "read_html_blocks")
    then record {
      ext = e.ext;
      format = e.format;
      reader_ext = e.reader_ext;
      function = e.function;
      kind = e.kind;
      source = e.source;
      options = e.options ++ attributes_option ∷ [];
    }
    else e

-- The entries at the end of the constructor.
unfoldable pub builtin_entries : List ReaderEntry
builtin_entries = map with_attributes (seeds ++ own_entries formats)

-- A map from an extension to a format, as the list of its pairs.
abbrev pub FormatMap : Type 0
FormatMap = List (Bytes × Bytes)

-- An assignment to a key replaces what it had.
unfoldable pub assign : Bytes → Bytes → FormatMap → FormatMap
assign ext format [] = (ext, format) ∷ []
assign ext format ((key, old) ∷ rest) =
    let later = (key, old) ∷ assign ext format rest in
    if same key ext then (key, format) ∷ rest else later

abbrev pub frozen : ReaderEntry → FormatMap → FormatMap
frozen e m = if not (empty e.format) then assign e.ext e.format m else m

-- The last loop of the constructor, with the map so far.
unfoldable pub freeze : List ReaderEntry → FormatMap → FormatMap
freeze [] m = m
freeze (e ∷ es) m = freeze es (frozen e m)

-- `BuiltinFormat`
unfoldable pub format_at : Bytes → FormatMap → Bytes
format_at ext [] = []
format_at ext ((key, format) ∷ rest) =
    let later = format_at ext rest in if same key ext then format else later

-- `ReaderRegistry`, without its lock
pub record ReaderRegistry : Type 0 where
  pub entries : List ReaderEntry
  pub builtin_format : FormatMap

abbrev pub new_registry : ReaderRegistry
new_registry = record { entries = builtin_entries; builtin_format = freeze builtin_entries [] }
