-- ===== src/OrgReader/Values.antt =====
-- src/org_reader.cpp: a row as the struct that the table function gives (OrgScan). `text` is a
-- std::string as DuckDB holds it.
use Prim.Native.String.{String}
use duckdb_panduck.Base.{List, [], ◌∷◌, map, Option, none, some, if◌then◌else◌}
use duckdb_panduck.Base.Int.{pos}
use duckdb_panduck.Blocks.{Block, Attributes, has_content}
use duckdb_panduck.Repair.{Value}
use duckdb_panduck.Text.{Bytes}

module _ (text : Bytes → String) where
  abbrev pub content_value : Option Bytes → Option String
  content_value none = none
  content_value (some s) = if has_content (some s) then some (text s) else none

  abbrev pub attribute_values : Attributes → List (String × String)
  attribute_values [] = []
  attribute_values ((k, v) ∷ rest) = (k, text v) ∷ attribute_values rest

  unfoldable pub org_value : Block → Value
  org_value row = record {
    kind = some row.kind;
    element_type = some row.element_type;
    content = content_value row.content;
    level = some (pos row.level);
    encoding = some row.encoding;
    attributes = some (attribute_values row.attributes);
    element_order = some (pos row.element_order);
  }

  -- `OrgScan`
  abbrev pub org_values : List Block → List Value
  org_values rows = map org_value rows
