-- ===== src/Latex/Macros.antt =====
-- libpanduck/src/latex_macros.cpp: what the reader does with each macro and environment. A null
-- pointer is `none`, and so is an argument index of -1.
pub mod Lookup
use Prim.Native.String.{String}
use duckdb_panduck.Base.{ℕ, List, [], ◌∷◌, Option, none, some, if◌then◌else◌}
use duckdb_panduck.Latex.Verbatim.{without_star}
use duckdb_panduck.Text.{Bytes, codes, same}

pub data Disposition : Type 0 where
  semantic transparent dropped text : Disposition

pub record MacroEntry : Type 0 where
  pub name : Bytes
  pub disposition : Disposition
  pub element_type : Option Bytes
  pub args : ℕ
  pub content_arg : Option ℕ
  pub expansion : Option Bytes

abbrev pub entry : String → Disposition → Option Bytes → ℕ → Option ℕ → Option Bytes → MacroEntry
entry n d t a c e = record {
  name = codes n;
  disposition = d;
  element_type = t;
  args = a;
  content_arg = c;
  expansion = e;
}

abbrev ellipsis : Bytes
ellipsis = 0xE2 ∷ 0x80 ∷ 0xA6 ∷ []

unfoldable pub macros : List MacroEntry
macros =
    entry "textbf" semantic (some (codes "bold")) 1 (some 0) none
    ∷ entry "emph" semantic (some (codes "italic")) 1 (some 0) none
    ∷ entry "textit" semantic (some (codes "italic")) 1 (some 0) none
    ∷ entry "underline" semantic (some (codes "underline")) 1 (some 0) none
    ∷ entry "uline" semantic (some (codes "underline")) 1 (some 0) none
    ∷ entry "sout" semantic (some (codes "strikethrough")) 1 (some 0) none
    ∷ entry "st" semantic (some (codes "strikethrough")) 1 (some 0) none
    ∷ entry "texttt" semantic (some (codes "code")) 1 (some 0) none
    ∷ entry "textsc" semantic (some (codes "smallcaps")) 1 (some 0) none
    ∷ entry "textsuperscript" semantic (some (codes "superscript")) 1 (some 0) none
    ∷ entry "textsubscript" semantic (some (codes "subscript")) 1 (some 0) none
    ∷ entry "href" semantic (some (codes "link")) 2 (some 1) none
    ∷ entry "url" semantic (some (codes "link")) 1 (some 0) none
    ∷ entry "includegraphics" semantic (some (codes "image")) 1 (some 0) none
    ∷ entry "caption" semantic (some (codes "caption")) 1 (some 0) none
    ∷ entry "footnote" semantic (some (codes "note")) 1 (some 0) none
    ∷ entry "cite" semantic (some (codes "cite")) 1 (some 0) none
    ∷ entry "part" semantic (some (codes "heading")) 1 (some 0) none
    ∷ entry "chapter" semantic (some (codes "heading")) 1 (some 0) none
    ∷ entry "section" semantic (some (codes "heading")) 1 (some 0) none
    ∷ entry "subsection" semantic (some (codes "heading")) 1 (some 0) none
    ∷ entry "subsubsection" semantic (some (codes "heading")) 1 (some 0) none
    ∷ entry "paragraph" semantic (some (codes "heading")) 1 (some 0) none
    ∷ entry "subparagraph" semantic (some (codes "heading")) 1 (some 0) none
    ∷ entry "hypertarget" transparent none 2 (some 1) none
    ∷ entry "texorpdfstring" transparent none 2 (some 0) none
    ∷ entry "textnormal" transparent none 1 (some 0) none
    ∷ entry "mbox" transparent none 1 (some 0) none
    ∷ entry "text" transparent none 1 (some 0) none
    ∷ entry "protect" transparent none 0 none none
    ∷ entry "documentclass" dropped none 1 none none
    ∷ entry "usepackage" dropped none 1 none none
    ∷ entry "PassOptionsToPackage" dropped none 2 none none
    ∷ entry "label" dropped none 1 none none
    ∷ entry "tightlist" dropped none 0 none none
    ∷ entry "maketitle" dropped none 0 none none
    ∷ entry "title" dropped none 1 none none
    ∷ entry "author" dropped none 1 none none
    ∷ entry "date" dropped none 1 none none
    ∷ entry "vspace" dropped none 1 none none
    ∷ entry "hspace" dropped none 1 none none
    ∷ entry "newpage" dropped none 0 none none
    ∷ entry "clearpage" dropped none 0 none none
    ∷ entry "noindent" dropped none 0 none none
    ∷ entry "centering" dropped none 0 none none
    ∷ entry "pagestyle" dropped none 1 none none
    ∷ entry "setlength" dropped none 2 none none
    ∷ entry "index" dropped none 1 none none
    ∷ entry "tableofcontents" dropped none 0 none none
    ∷ entry "newcommand" dropped none 2 none none
    ∷ entry "renewcommand" dropped none 2 none none
    ∷ entry "bibliography" dropped none 1 none none
    ∷ entry "bibliographystyle" dropped none 1 none none
    ∷ entry "ldots" text none 0 none (some ellipsis)
    ∷ entry "dots" text none 0 none (some ellipsis)
    ∷ entry "textbackslash" text none 0 none (some (codes "\\"))
    ∷ entry "LaTeX" text none 0 none (some (codes "LaTeX"))
    ∷ entry "TeX" text none 0 none (some (codes "TeX"))
    ∷ []

unfoldable pub environments : List MacroEntry
environments =
    entry "itemize" semantic (some (codes "list")) 0 none (some (codes "bullet"))
    ∷ entry "enumerate" semantic (some (codes "list")) 0 none (some (codes "ordered"))
    ∷ entry "quote" semantic (some (codes "blockquote")) 0 none none
    ∷ entry "quotation" semantic (some (codes "blockquote")) 0 none none
    ∷ entry "verbatim" semantic (some (codes "code")) 0 none none
    ∷ entry "lstlisting" semantic (some (codes "code")) 0 none none
    ∷ entry "center" transparent none 0 none none
    ∷ entry "abstract" transparent none 0 none none
    ∷ entry "document" transparent none 0 none none
    ∷ entry "description" semantic (some (codes "list")) 0 none (some (codes "definition"))
    ∷ entry "tabular" semantic (some (codes "table")) 0 none none
    ∷ entry "longtable" semantic (some (codes "table")) 0 none none
    ∷ entry "tikzpicture" dropped none 0 none none
    ∷ entry "equation" dropped none 0 none none
    ∷ entry "align" dropped none 0 none none
    ∷ entry "gather" dropped none 0 none none
    ∷ entry "multline" dropped none 0 none none
    ∷ entry "displaymath" dropped none 0 none none
    ∷ entry "figure" semantic (some (codes "figure")) 0 none none
    ∷ entry "table" transparent none 0 none none
    ∷ []

-- The linear scan of both lookups.
unfoldable pub scan : Bytes → List MacroEntry → Option MacroEntry
scan name [] = none
scan name (e ∷ es) = if same name e.name then some e else scan name es

unfoldable pub lookup_macro : Bytes → Option MacroEntry
lookup_macro name = scan name macros

-- A starred environment is looked up without its star.
unfoldable pub lookup_environment : Bytes → Option MacroEntry
lookup_environment name = scan (without_star name) environments
