-- ===== src/Examples/Registry.antt =====
-- A small registry for src/reader_registry.cpp, and calls on it.
use duckdb_panduck.Base.{◌≡◌, refl, not, ◌&&◌, List, [], ◌∷◌, ◌++◌, map, none, some, All}
use duckdb_panduck.Registry.Accept.{is_done, are_good_rows, register_bind-is_done}
use duckdb_panduck.Registry.Builtin.{
  new_registry, builtin_entries, own_entries, freeze, assign, format_at,
}
use duckdb_panduck.Registry.Fields.{
  Field, Reachable, start, later, after_call, builtin_format_for, registry_field,
}
use duckdb_panduck.Registry.Reach.{AreSound, entries-AreSound, builtin_format_for-registry_field}
use duckdb_panduck.Registry.Calls.{
  user_entry, register_all, BindInput, register_bind, reader_option_for, render_option, rendered,
  is_disabled, no_exts, given_options,
}
use duckdb_panduck.Registry.Lookup.{replaced, register-replaced}
use duckdb_panduck.Registry.Names.{
  ext_of_path_in, is_qualified_identifier, is_identifier, ext_of, ext_of_path, find_last,
  strip_git_ref_query, strip_url_query, base_of, normalize_ext, strip_git_revision,
}
use duckdb_panduck.Registry.Quote.{read_literal, render_option-read_literal}
use duckdb_panduck.Registry.Render.{IsNotRefused, reachable-IsNotRefused}
use duckdb_panduck.Registry.Safe.{IsSafeOption, IsSafeEntry}
use duckdb_panduck.Registry.{
  check_option, is_integer, ReaderEntry, ReaderOption, lookup, register, arg_matches_type,
}
use duckdb_panduck.Text.Same.{same_ne}
use duckdb_panduck.Text.{Bytes, codes, find, find_text, take_while}

abbrev html_option : ReaderOption
html_option = record {
  intent = codes "attributes";
  value = codes "all";
  param = codes "capture_attributes";
  arg = codes "*";
  arg_type = codes "VARCHAR";
}

abbrev html : ReaderEntry
html = record {
  ext = codes ".html";
  format = codes "html";
  reader_ext = codes "webbed";
  function = codes "read_html_blocks";
  kind = codes "doc";
  source = codes "builtin";
  options = html_option ∷ [];
}

abbrev builtin : List ReaderEntry
builtin = html ∷ []

abbrev odt_call : BindInput
odt_call = record {
  allow = none;
  reader_ext = codes "my_odt";
  function = codes "main.read_my_odt";
  exts = codes "odt" ∷ codes ".HTML" ∷ [];
  options = some (
      some (record {
        intent = some (codes "attributes");
        value = some (codes "all");
        param = some (codes "limit");
        arg = some (codes "-12");
        arg_type = some (codes "INTEGER");
      })
      ∷ []);
}

html-IsSafeOption : IsSafeOption html_option
unfolding is_identifier arg_matches_type
html-IsSafeOption = record { named = refl; literal = refl }

builtin-AreSafe : All IsSafeEntry builtin
unfolding is_qualified_identifier is_identifier find
builtin-AreSafe = (record { function = refl; options = (html-IsSafeOption, tt) }, tt)

-- The registry after a call that takes .html away from the reader that panduck names for it.
html_taken : Reachable (after_call (codes "doc") odt_call new_registry)
html_taken = later (codes "doc") odt_call start

entries-AreSound_example : AreSound (after_call (codes "doc") odt_call new_registry).entries
entries-AreSound_example =
    entries-AreSound (after_call (codes "doc") odt_call new_registry) html_taken

builtin_format_for-registry_field_example :
    builtin_format_for
      (λ p. none)
      (some (codes "a.html"))
      (after_call (codes "doc") odt_call new_registry)
    ≡ registry_field (λ p. none) Field.format (some (codes "a.html")) new_registry
builtin_format_for-registry_field_example =
    builtin_format_for-registry_field (λ p. none) (some (codes "a.html"))
      (after_call (codes "doc") odt_call new_registry) html_taken

register_bind-is_done_example :
    is_done (register_bind (codes "doc") odt_call)
    ≡ not (is_disabled odt_call.allow)
      && is_qualified_identifier odt_call.function
      && not (no_exts odt_call.exts)
      && are_good_rows (given_options odt_call.options)
register_bind-is_done_example = register_bind-is_done (codes "doc") odt_call

render_option-read_literal_example :
    (body : Bytes) × (render_option html_option
      ≡ rendered (html_option.param ++ (codes " := '" ++ body)))
    × (read_literal (body ++ codes ")") ≡ some (html_option.arg, codes ")"))
render_option-read_literal_example =
    render_option-read_literal html_option (codes ")") html-IsSafeOption.named refl refl

reachable-IsNotRefused_example : IsNotRefused (
    reader_option_for
      (λ p. none)
      (some (codes "a.html"))
      (some (codes "attributes"))
      (some (codes "all"))
      (after_call (codes "doc") odt_call new_registry).entries)
reachable-IsNotRefused_example =
    reachable-IsNotRefused (λ p. none) (some (codes "a.html")) (some (codes "attributes"))
      (some (codes "all")) (after_call (codes "doc") odt_call new_registry) html_taken

abbrev markdown : ReaderEntry
markdown = record {
  ext = codes ".md";
  format = codes "markdown";
  reader_ext = codes "markdown";
  function = codes "read_markdown_blocks";
  kind = codes "doc";
  source = codes "builtin";
  options = [];
}

-- Another reader for .html.
abbrev user_html : ReaderEntry
user_html = record html { function = codes "read_mine"; source = codes "user" }

register-replaced_example :
    register user_html (html ∷ markdown ∷ []) ≡ replaced user_html (html ∷ markdown ∷ [])
register-replaced_example =
    register-replaced user_html (html ∷ markdown ∷ [])
      (((λ e. same_ne (codes ".md") (codes ".html") refl e), tt), (tt, tt))

row_in_place : replaced user_html (html ∷ markdown ∷ []) ≡ user_html ∷ markdown ∷ []
row_in_place = refl

-- A revision, a query and a fragment stand behind the extension, and an empty extension is one too.
extensions :
    map ext_of_path (
      codes "git://a/Doc.md@12"
      ∷ codes "https://x.org/d.DOCX?v=1.2"
      ∷ codes "my@file.md"
      ∷ codes "x."
      ∷ [])
    ≡ codes ".md" ∷ codes ".docx" ∷ codes ".md" ∷ [] ∷ []
unfolding ext_of find_last strip_git_ref_query strip_url_query base_of find_text take_while
    normalize_ext strip_git_revision
extensions = refl

-- The live row of .html is the caller's, the format that the policies ask about is panduck's.
html_fields :
    (registry_field
        (λ p. none)
        Field.format
        (some (codes "a.html"))
        (after_call (codes "doc") odt_call new_registry)
      ≡ some (codes "my_odt"))
    × (builtin_format_for
          (λ p. none)
          (some (codes "a.html"))
          (after_call (codes "doc") odt_call new_registry)
        ≡ some (codes "html"))
unfolding after_call lookup register_bind is_qualified_identifier find is_identifier check_option
    arg_matches_type is_integer register_all register builtin_entries user_entry ext_of find_last
    base_of normalize_ext ext_of_path_in own_entries strip_git_ref_query strip_git_revision
    strip_url_query find_text take_while freeze assign format_at
html_fields = (refl, refl)
