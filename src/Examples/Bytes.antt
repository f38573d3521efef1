-- ===== src/Examples/Bytes.antt =====
-- A byte source of three bytes, for libpanduck/include/panduck/byte_source.hpp.
use duckdb_panduck.Base.{◌≡◌, refl, some}
use duckdb_panduck.Source.{MemorySource, read}
use duckdb_panduck.Text.{codes}

abbrev archive : MemorySource
archive = record { bytes = some (codes "PK!"); size = 3; name = codes "<memory>" }

read-archive : read archive 9 1 ≡ codes "K!"
unfolding read
read-archive = refl
