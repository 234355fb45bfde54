-- ===== src/Utils/Find.antt =====
-- std::string::find, which answers npos where it finds nothing, and find_last_of.
use mod_security.Prelude.{Option, [], if◌then◌else◌, leb, none, some, ℕ, ◌&&◌, ◌+◌, ◌==◌, ◌||◌, ◌∷◌}
use mod_security.Prelude.Bytes.{Bytes}
use mod_security.Utils.Replace.{starts_with}

-- The size of std::string::size_type, and its greatest value.
abbrev pub size_mod : ℕ
size_mod = 18446744073709551616

abbrev pub npos : ℕ
npos = 18446744073709551615

-- The search from position `i`, where `from` is the first that may be answered.
unfoldable pub find_from : Bytes → ℕ → ℕ → Bytes → ℕ
unfolding starts_with
find_from what from i [] = npos
find_from what from i (c ∷ cs) =
    if leb from i && starts_with what (c ∷ cs) then i else find_from what from (i + 1) cs

-- `str.find(what, from)`, with a text that is not empty
unfoldable pub find_pos : Bytes → Bytes → ℕ → ℕ
unfolding find_from
find_pos str what from = find_from what from 0 str

-- `find_last_of("/\\")`
unfoldable pub find_last_slash : Bytes → Option ℕ
find_last_slash [] = none
find_last_slash (c ∷ cs) = elim (find_last_slash cs) [
  | some n ↦ some (n + 1)
  | none ↦ if c == b'/' || c == 92 then some 0 else none
]
