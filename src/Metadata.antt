-- ===== src/Metadata.antt =====
-- libpanduck/include/panduck/doc_metadata.hpp: the metadata of office documents, and the paragraphs
-- that restate it. A std::set is the list of what is inserted.
pub mod Duplicates
use Prim.Native.String.{String}
use duckdb_panduck.Base.{
  ℕ, zero, suc, Bool, true, false, not, ◌&&◌, ◌||◌, List, [], ◌∷◌, ◌++◌, if◌then◌else◌, ltb, ◌==◌,
  length,
}
use duckdb_panduck.MediaWiki.Markup.{is_trim, any_same}
use duckdb_panduck.Text.{Bytes, empty, trim}
use duckdb_panduck.Vocabulary.{same_name, kind_value}

-- `TrimMetaText`
abbrev pub trim_meta_text : Bytes → Bytes
trim_meta_text s = trim is_trim s

-- `MetadataField`
pub record MetadataField : Type 0 where
  pub source : String
  pub key : String

abbrev field : String → String → MetadataField
field source key = record { source = source; key = key }

-- `DOCX_CORE_FIELDS`
abbrev pub docx_core_fields : List MetadataField
docx_core_fields =
    field "dc:title" "title"
    ∷ field "dc:creator" "author"
    ∷ field "dc:subject" "subject"
    ∷ field "dc:description" "description"
    ∷ field "dc:language" "language"
    ∷ field "dcterms:created" "date"
    ∷ []

-- `ODT_META_FIELDS`
abbrev pub odt_meta_fields : List MetadataField
odt_meta_fields =
    field "dc:title" "title"
    ∷ field "dc:creator" "author"
    ∷ field "dc:subject" "subject"
    ∷ field "dc:description" "description"
    ∷ field "dc:language" "language"
    ∷ field "dc:date" "date"
    ∷ field "meta:generator" "generator"
    ∷ []

-- The texts that are not empty.
abbrev pub full_texts : List Bytes → List Bytes
full_texts [] = []
full_texts (t ∷ ts) = let more = full_texts ts in if empty t then more else t ∷ more

abbrev pub erase : {B : Type 0} → ℕ → List B → List B
erase i [] = []
erase zero (b ∷ bs) = bs
erase (suc i) (b ∷ bs) = b ∷ erase i bs

-- The erasure for one candidate, with the texts of the metadata.
unfoldable pub erase_one : {B : Type 0} → List Bytes → ℕ → Bytes → List B → List B
erase_one meta i text bs = if ltb i (length bs) && any_same text meta then erase i bs else bs

-- The loop over the candidates, from the last one on.
unfoldable pub erase_all : {B : Type 0} → List Bytes → List (ℕ × Bytes) → List B → List B
erase_all meta [] bs = bs
erase_all meta ((i, text) ∷ cs) bs = erase_one meta i text (erase_all meta cs bs)

-- Blocks of some type, with the kind and the contents of the runs of each.
module _ {B : Type 0} (kind : B → String) (texts : B → List Bytes) where
  unfoldable pub meta_text : List B → List Bytes
  meta_text [] = []
  meta_text (b ∷ bs) =
      let more = meta_text bs in
      if same_name (kind b) kind_value then full_texts (texts b) ++ more else more

  -- `DropDuplicatedMetadataParagraphs`
  unfoldable pub drop_duplicated : List (ℕ × Bytes) → List B → List B
  drop_duplicated [] bs = bs
  drop_duplicated (c ∷ cs) bs = erase_all (meta_text bs) (c ∷ cs) bs
