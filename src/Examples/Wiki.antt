-- ===== src/Examples/Wiki.antt =====
-- Small documents for libpanduck/src/mediawiki_scanner.cpp.
use duckdb_panduck.Base.{◌≡◌, refl, false, [], ◌∷◌, map}
use duckdb_panduck.Base.Int.{pos, ◌+ℤ◌, ◌-ℤ◌}
use duckdb_panduck.MediaWiki.Markup.{
  template, table_start, table_row, table_cell, table_end, heading, list_item, Line, brace_delta,
  source_lines, pop_cr,
}
use duckdb_panduck.MediaWiki.Rounds.{IsGathered, gather-IsGathered}
use duckdb_panduck.MediaWiki.Tables.{AreTables, scan_mediawiki-AreTables}
use duckdb_panduck.MediaWiki.{
  gather, as_is, scan_mediawiki, scan_lines, scan_round, scan_template, scan_table, table_line,
  scan_plain, scan_heading, heading_size, scan_list,
}
use duckdb_panduck.Text.{Bytes, codes, trim, trim_right, take_while, drop_while, split_lines}

abbrev page : Bytes
page = codes "== A ==\n{{Box\n| x = {{y}}\n}}\n{| class=w\n|-\n| a || b\n|}\n#* i"

kinds-page :
    map (λ (l : Line). l.kind) (scan_mediawiki page)
    ≡ heading ∷ template ∷ table_start ∷ table_row ∷ table_cell ∷ table_end ∷ list_item ∷ []
unfolding scan_mediawiki scan_lines scan_round scan_template scan_table table_line scan_plain
    scan_heading heading_size scan_list gather brace_delta source_lines pop_cr split_lines trim
    trim_right take_while drop_while ◌+ℤ◌ ◌-ℤ◌
kinds-page = refl

scan_mediawiki-AreTables_example : AreTables false (scan_mediawiki page)
scan_mediawiki-AreTables_example = scan_mediawiki-AreTables page

gather-IsGathered_example :
    IsGathered as_is
      (codes "c}}" ∷ codes "d" ∷ [])
      (pos 1)
      (codes "{{b")
      (gather as_is (codes "c}}" ∷ codes "d" ∷ []) (pos 1) (codes "{{b"))
gather-IsGathered_example =
    gather-IsGathered as_is (codes "c}}" ∷ codes "d" ∷ []) (pos 1) (codes "{{b")
