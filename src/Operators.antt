-- ===== src/Operators.antt =====
-- Operators of src/operators that compare or check bytes. Each answers whether it matches, with the
-- offsets and lengths that it logs.
pub mod Strings
pub mod UrlEncoding
pub mod ByteRange
pub mod Utf8
pub mod Numbers
mod Tests
