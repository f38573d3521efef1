-- ===== src/Lib.antt =====
-- panduck reads documents of many formats into one flat list of duck_blocks: rows with a kind, an
-- element type, a content, a level, an encoding, attributes and an order, in depth-first order, where
-- the level alone says what stands inside what. A text format goes through a scanner or a tokenizer,
-- which classifies lines or bytes and never fails, and a reader that builds blocks from what it says;
-- blocks on their way out go through passes that repair fragments and collapse lone plains.
--
-- Modelled here are the scanners, the tokenizer, the readers of Org, Textile and MediaWiki, those passes, and
-- the registry that says which reader takes a file:
--   Base, Text     shared names, Boolean tests and lists on the native numbers, integers; std::string
--                  and <cctype> as the scanners use them, on lists of bytes
--   Vocabulary     src/include/duck_block_vocabulary.hpp: SameName, ImplicitParentOf,
--                  RequiresAncestor, IsBody and the names that they compare
--   Repair         src/duck_block_repair.cpp: WrapOrphans is wrap_orphans, Rebase is rebase,
--                  CollapseJumps is collapse_jumps, RepairBlocks is repair_blocks
--   Normalize      src/include/duck_block_normalize.hpp: CollapseLonePlainIntoParent is normalize, one
--                  look at a parent is collapse_at
--   Slug           libpanduck/include/panduck/slugify.hpp: HeadingSlug is heading_slug
--   Source         libpanduck/include/panduck/byte_source.hpp: MemorySource::Read is read
--   Latex.Token    libpanduck/include/panduck/latex_tokenizer.hpp, and KindName and
--                  Utf8SequenceLength of libpanduck/src/latex_tokenizer.cpp
--   Latex.Math     LexMathBody of libpanduck/src/latex_tokenizer.cpp
--   Latex.Verbatim LexVerbatim of the same file
--   Latex.Tokenizer Tokenize of the same file: a round of its loop is step, the loop tokenize_loop
--   Latex.Macros   libpanduck/src/latex_macros.cpp: both tables, LookupMacro, LookupEnvironment
--   Org            libpanduck/src/org_scanner.cpp: ScanOrg is scan_org, the loop body classify
--   Blocks         libpanduck/include/panduck/block.hpp: a row is Block; in Blocks.Json the tables of
--                  block_json.hpp beside it: BuildTableJson is build_table_json
--   OrgReader      libpanduck/src/org.cpp: in OrgReader.Runs ParseInlines is parse_inlines, in
--                  OrgReader.Builder each member of Builder that handles a line is the function of
--                  its name in lower case; a round of Build is step, its loop build_loop;
--                  ParseOrgString is parse_org_string, in OrgReader.Rows ReadOrg is read_org; in
--                  OrgReader.Values the OrgScan of src/org_reader.cpp is org_values
--   Rst            libpanduck/src/rst_scanner.cpp: ScanRst is scan_rst, the loop body classify,
--                  IsSimpleSep is simple_sep_of with is_simple_sep for its answer
--   Textile        libpanduck/src/textile_scanner.cpp: ScanTextile is scan_textile, the loop body
--                  scan_step, ParseMarker is parse_marker, SplitRow is split_row
--   TextileReader  libpanduck/src/textile.cpp: in TextileReader.Runs ParseInlines is parse_inlines, in
--                  TextileReader.Builder the members of Builder that handle a line; a round of Build
--                  is step, its loop build_loop; ReadTextile is read_textile
--   MediaWiki      libpanduck/src/mediawiki_scanner.cpp: ScanMediaWiki is scan_mediawiki, a round of its
--                  loop scan_round, the brace loop gather; SplitCells is split_cells
--   Metadata       libpanduck/include/panduck/doc_metadata.hpp: DropDuplicatedMetadataParagraphs is
--                  drop_duplicated, over any type of blocks
--   WikiReader     libpanduck/src/mediawiki.cpp: in WikiReader.Runs ParseInlines is parse_inlines, its
--                  tests the list finders; in WikiReader.Builder the members of Builder that handle a
--                  line; the loop of Table is cells_from; a round of Build is step, its loop
--                  build_loop; ReadMediaWiki is read_mediawiki
--   Registry       src/reader_registry.cpp: in Registry.Names ExtOf is ext_of and ExtOfPath in a context
--                  ext_of_path_in; Lookup is lookup, Register is register; in Registry.Calls
--                  RegisterBind is register_bind, the loop of RegisterScan register_all,
--                  ReaderOptionForFun on one row reader_option_for, RenderParamsFun render_params; in
--                  Registry.Builtin the constructor is new_registry, its rows builtin_entries, which
--                  src/supported_extensions.cpp adds to; BuiltinFormat is format_at; in
--                  Registry.Fields RegistryFieldFun on one row is registry_field
--   Examples       small documents, and the theorems applied to them
--
-- A position in a source is the rest of the source from there, and an out parameter is part of the
-- result. A branch of a loop body that may fall through to the next gives an Option. Loops that do not
-- go down their list byte by byte run on fuel: the length of the source for Tokenize, of the list for
-- the passes over blocks, of the lines for ScanTextile, ScanMediaWiki and the loops of Builder::Build,
-- of the text for PlainText, and one more than the length of the text for IsSimpleSep, ParseMarker and
-- each ParseInlines, since every round takes at least one byte, block or line.
--
-- Bytes are numbers, and the classes of <cctype> those of the C locale. Levels, an int32_t in the
-- source, are integers without bounds, since the source relies on no overflow; so are the numbers that
-- atoi reads. The one subtraction in size_t that can wrap around, in the term of a Textile definition,
-- wraps around here too. The option budget of a verbatim environment is the 256 bytes of the source.
-- A DuckDB struct value is a record whose columns may be NULL. The attributes of a row stand in the
-- order of their writing, where the std::map of the source sorts them. A std::string in a DuckDB value
-- is a parameter of the values, a function from bytes, and the CanonicalizePath of DuckDB's file
-- system one of ext_of_path_in. What the registry throws is an error of its model, without the wording;
-- its mutex is left out, since every operation holds it from start to end.
--
-- Not modelled: the other readers that turn scanned lines and tokens into blocks, and that of RTF; those
-- of DOCX, ODT, EPUB and Jupyter, which walk the trees of third-party XML and JSON parsers; the ZIP
-- container, which calls miniz; the conversion from and to Pandoc's JSON; the notes
-- of the formats; and the SQL macros and table functions that bind it all to DuckDB.
pub mod Base
pub mod Text
pub mod Slug
pub mod Source
pub mod Blocks
pub mod Metadata
pub mod OrgReader
pub mod TextileReader
pub mod WikiReader
pub mod Latex
pub mod Org
pub mod Rst
pub mod Textile
pub mod MediaWiki
pub mod Vocabulary
pub mod Repair
pub mod Registry
pub mod Normalize
pub mod Examples
