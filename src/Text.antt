-- ===== src/Text.antt =====
-- Python's `str` as the list of its code points, with the methods that the program calls.
-- `str.isspace` is written out from the Unicode database; what depends on a larger part of that
-- database (`lower`, the digits) is an argument where it is used.
mod Compare
mod Cut
mod Chars
mod Split
pub use Compare.*
pub use Cut.*
pub use Chars.*
pub use Split.*
unfoldable pub use Compare.{text_eq, contains}
unfoldable pub use Cut.{is_space, lstrip, rstrip, strip, split_ws, split_on, join}
unfoldable pub use Chars.{has_char}
unfoldable pub use Split.{split_once, rstrip_char, repeat}
