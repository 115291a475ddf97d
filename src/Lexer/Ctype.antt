-- ===== src/Lexer/Ctype.antt =====
-- The character classes of <ctype.h> that src/lexer.c calls, in the "C" locale, over byte values.
use vnt.Base.{ℕ, Bool, ◌&&◌, ◌||◌, ◌==◌, leb}

unfoldable pub isspace : ℕ → Bool
isspace c = (leb 9 c && leb c 13) || c == 32

unfoldable pub isdigit : ℕ → Bool
isdigit c = leb b'0' c && leb c b'9'

unfoldable pub isalpha : ℕ → Bool
isalpha c = (leb b'a' c && leb c b'z') || (leb b'A' c && leb c b'Z')

unfoldable pub isalnum : ℕ → Bool
unfolding isalpha isdigit
isalnum c = isalpha c || isdigit c

unfoldable pub isxdigit : ℕ → Bool
unfolding isdigit
isxdigit c = isdigit c || ((leb b'a' c && leb c b'f') || (leb b'A' c && leb c b'F'))
