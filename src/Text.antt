-- ===== src/Text.antt =====
-- Go strings as lists of bytes, with the functions of the standard packages strings, bytes,
-- unicode/utf8 and strconv that the program calls.
pub mod Bytes
pub mod Utf8
pub mod Space
pub mod Case
pub mod Number
pub mod Equal
pub mod Count
pub mod Ascii
pub mod Trim
pub mod Search
pub mod Decimal
