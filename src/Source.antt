-- ===== src/Source.antt =====
-- libpanduck/include/panduck/byte_source.hpp: MemorySource, the bytes that a container is read from. A
-- null pointer is `none`.
pub mod Pieces
use duckdb_panduck.Base.{
  ℕ, ◌+◌, ◌-◌, Bool, true, false, Option, none, some, take, drop, leb, ltb, [], if◌then◌else◌, List,
}
use duckdb_panduck.Text.{Bytes}

pub record MemorySource : Type 0 where
  pub bytes : Option Bytes
  pub size : ℕ
  pub name : Bytes

abbrev pub size_of : MemorySource → ℕ
size_of src = src.size

abbrev pub copied : Option Bytes → ℕ → ℕ → ℕ → Bytes
copied none size nr_bytes offset = []
copied (some bytes) size nr_bytes offset =
    let available = size - offset in
    let n = if ltb nr_bytes available then nr_bytes else available in
    if leb size offset then [] else take n (drop offset bytes)

-- `Read`: what is copied into the buffer, whose length is the number that it returns.
unfoldable pub read : MemorySource → ℕ → ℕ → Bytes
read src nr_bytes offset = copied src.bytes src.size nr_bytes offset
