-- ===== src/Examples/Readers.antt =====
-- Small documents for the reader of libpanduck/src/org.cpp, its rows and its tables.
use Prim.Native.String.{String}
use duckdb_panduck.Base.{none, ◌≡◌, refl, false, [], ◌∷◌, ◌++◌, some, map, All, arith}
use duckdb_panduck.Blocks.Json.{build_table_json}
use duckdb_panduck.Blocks.Reader.{read_table}
use duckdb_panduck.Blocks.Table.{read_table-build_table_json}
use duckdb_panduck.Org.{
  scan_org, drop_last_blank, classify_raw, classify_trimmed, scan_hash, scan_drawer, scan_rule,
  parse_heading, parse_list_item, item_line, scan_directive,
}
use duckdb_panduck.OrgReader.Numbered.{AreNumbered, read_org-AreNumbered}
use duckdb_panduck.OrgReader.Rows.{read_org}
use duckdb_panduck.OrgReader.Runs.{parse_inlines}
use duckdb_panduck.OrgReader.Spelling.{Spells, parse_inlines-Spells}
use duckdb_panduck.OrgReader.Steps.{HasField}
use duckdb_panduck.OrgReader.Values.{org_values}
use duckdb_panduck.OrgReader.Whole.{repair_blocks-read_org}
use duckdb_panduck.Repair.{repair_blocks}
use duckdb_panduck.TextileReader.Rounds.{inline_loop_fuel}
use duckdb_panduck.TextileReader.Runs
use duckdb_panduck.TextileReader.Words.{IsWordy, parse_inlines-IsWordy}
use duckdb_panduck.Text.{Bytes, codes, split_lines, trim, take_while, find_text, find}

-- A headline, a nested list, a title and a table.
abbrev document : Bytes
document =
    codes "* A *b* c"
    ++ (10
        ∷ (codes "- x"
            ++ (10
                ∷ (codes "  1. y :: z"
                    ++ (10
                        ∷ (codes "#+TITLE: T"
                            ++ (10 ∷ (codes "| a | b |" ++ (10 ∷ codes "|---+---|")))))))))

document-HasField : All HasField (scan_org document)
unfolding scan_org drop_last_blank split_lines classify_raw trim classify_trimmed scan_hash
    scan_drawer scan_rule parse_heading take_while parse_list_item item_line find_text
    scan_directive find
document-HasField = (refl, (refl, (refl, (refl, (refl, (refl, tt))))))

abbrev text_of : Bytes → String
text_of s = "text"

repair_blocks-read_org_example :
    repair_blocks (map some (org_values text_of (read_org document)))
    ≡ org_values text_of (read_org document)
repair_blocks-read_org_example = repair_blocks-read_org text_of document document-HasField

read_org-AreNumbered_example : AreNumbered 0 0 (read_org document)
read_org-AreNumbered_example = read_org-AreNumbered document document-HasField

parse_inlines-Spells_example :
    Spells 2 false (parse_inlines (codes "a /b/ [[u][v]]") 2) (codes "a /b/ [[u][v]]")
parse_inlines-Spells_example = parse_inlines-Spells (codes "a /b/ [[u][v]]") 2

read_table-build_table_json_example :
    read_table (build_table_json (codes "a" ∷ []) ((codes "say \"b\"" ∷ []) ∷ []))
    ≡ some (codes "a" ∷ [], (codes "say \"b\"" ∷ []) ∷ [])
read_table-build_table_json_example =
    read_table-build_table_json (codes "a" ∷ []) ((codes "say \"b\"" ∷ []) ∷ [])

hyphens-IsWordy : IsWordy none (codes "well-known co-author")
hyphens-IsWordy = ground arith

parse_inlines-IsWordy_example :
    Runs.parse_inlines (codes "well-known co-author") 2
    ≡ Runs.text_run 2 (codes "well-known co-author") ∷ []
parse_inlines-IsWordy_example =
    parse_inlines-IsWordy b'w' (codes "ell-known co-author") 2 hyphens-IsWordy

inline_loop_fuel_example :
    Runs.inline_loop 8 2 none [] [] (codes "*a _b_*")
    ≡ Runs.inline_loop 20 2 none [] [] (codes "*a _b_*")
inline_loop_fuel_example =
    inline_loop_fuel 8 20 2 none [] [] (codes "*a _b_*") (ground arith) (omega arith)

-- Text behind a bold run that ends in a text is added to the bold text.
behind_bold :
    map (λ (r : Runs.TxInline). r.content) (Runs.parse_inlines (codes "*a _b_ c* d") 2)
    ≡ [] ∷ codes "a " ∷ codes "b" ∷ codes " c d" ∷ []
unfolding Runs.parse_inlines Runs.inline_loop Runs.mark_at Runs.try_delim Runs.close_delim find_text
    Runs.push_text Runs.add_text Runs.push_wrapped Runs.lone_text
behind_bold = refl
