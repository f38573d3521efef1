-- ===== src/Examples.antt =====
-- Concrete documents for the components, and what the theorems say of them.
pub mod Blocks
pub mod Pages
pub mod Bytes
pub mod Latex
pub mod Office
pub mod Readers
pub mod Registry
pub mod Scanners
pub mod Wiki
