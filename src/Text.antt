-- ===== src/Text.antt =====
-- The operations of Rust's `str` that the program uses, over lists of Unicode scalar values.
-- Lowercasing a character outside ASCII needs the Unicode tables, and at a capital sigma the text
-- around it: that part is the parameter `CaseMap`.
mod Compare
mod Search
mod Trim
mod Lines
mod Case
pub use Compare.{codes, str_eq_iff}
unfoldable pub use Compare.{Str, str_eq, starts_with, strip_prefix, strip_suffix, len}
pub use Search.{
  Infix, contains_iff, contains_char_iff, split_once-eq_some, HasNo, HasNo-append, HasNo-split,
}
unfoldable pub use Search.{contains, contains_char, contains_any, split_once, split, last, mem_str}
pub use Trim.{
  NoEdge, trim-NoEdge, trim_of_NoEdge, trim_end_matches_lem, EndsNot, NoSpace, trim_of_NoSpace,
}
unfoldable pub use Trim.{is_whitespace, trim_start, trim_end, trim, trim_end_matches, first_word}
unfoldable pub use Lines.{lines}
pub use Case.{CaseMap, ascii_only, IsLower, to_lowercase-IsLower}
unfoldable pub use Case.{to_ascii_lowercase, lower_from, to_lowercase}
