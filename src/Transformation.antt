-- ===== src/Transformation.antt =====
-- The transformations of src/actions/transformations.
pub mod Scan
pub mod Url
pub mod Bytewise
pub mod Hex
pub mod Comments
pub mod Whitespace
pub mod Escapes
pub mod Path
pub mod Changed
pub mod Classes
pub mod Length
mod Tests
