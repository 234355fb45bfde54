-- ===== src/Utils/Ctype.antt =====
-- The classes of <cctype> in the "C" locale: no byte above 127 is in any of them.
use mod_security.Prelude.{Bool, if◌then◌else◌, within, ℕ, ◌+◌, ◌-◌, ◌==◌, ◌||◌}

-- isspace: blank, \t, \n, \v, \f, \r
unfoldable pub isspace : ℕ → Bool
isspace c = c == 32 || within 9 13 c

unfoldable pub isdigit : ℕ → Bool
isdigit c = within b'0' b'9' c

-- tolower and toupper of one byte
unfoldable pub tolower : ℕ → ℕ
tolower c = if within b'A' b'Z' c then c + 32 else c

unfoldable pub toupper : ℕ → ℕ
toupper c = if within b'a' b'z' c then c - 32 else c
