-- ===== src/Org/Headline.antt =====
-- Headings as an Org document writes them (libpanduck/src/org_scanner.cpp, ParseHeading).
use duckdb_panduck.Base.{ℕ, suc, ◌∷◌, ◌++◌, replicate}
use duckdb_panduck.Text.{Bytes}

-- A title with `suc n` stars and a space in front of it.
abbrev pub headline : ℕ → Bytes → Bytes
headline n title = replicate (suc n) b'*' ++ (b' ' ∷ title)
