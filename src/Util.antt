-- ===== src/Util.antt =====
-- include/jml/jml_util.h: the character classes. A byte of 128 or more is in none of them, as a
-- negative `char` is.
pub mod Strings
use jml.Base.{ℕ, Bool, ◌&&◌, ◌||◌, leb, ◌==◌}

unfoldable pub is_digit : ℕ → Bool
is_digit c = leb b'0' c && leb c b'9'

unfoldable pub is_hex : ℕ → Bool
is_hex c = (leb b'a' c && leb c b'f') || (leb b'A' c && leb c b'F') || (leb b'0' c && leb c b'9')

unfoldable pub is_oct : ℕ → Bool
is_oct c = leb b'0' c && leb c b'7'

unfoldable pub is_bin : ℕ → Bool
is_bin c = c == b'0' || c == b'1'

unfoldable pub is_ident : ℕ → Bool
is_ident c = (leb b'a' c && leb c b'z') || (leb b'A' c && leb c b'Z') || c == b'_'
