-- ===== src/Utils.antt =====
-- src/utils/string.h, src/utils/decode.cc, and the parts of the C and C++ standard libraries that the sources
-- call on bytes.
pub mod Ctype
pub mod Number
pub mod Hex
pub mod Split
pub mod Find
pub mod Text
pub mod Replace
