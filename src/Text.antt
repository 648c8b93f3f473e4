-- ===== src/Text.antt =====
-- The operations of `str` that the program uses, over UTF-8 bytes. Positions are byte positions.
pub mod Number
unfoldable pub use Number.{from_str, to_string, digit_of}
pub mod Search
pub mod Positions
pub mod Split
pub mod Trim
