-- ===== src/Utils/Split.antt =====
-- Splitting and trimming, of src/utils/string.h.
pub mod Fields
use mod_security.Prelude.{
  Bool, List, [], drop, false, get_or, if◌then◌else◌, length, ltb, suc, zero, ℕ, ◌&&◌, ◌++◌, ◌==◌,
  ◌||◌, ◌∷◌,
}
use mod_security.Prelude.Bytes.{Bytes}

-- The fields of `str`; `tok` is what has been read of the current one. As with `getline`, an empty
-- field after the last delimiter is not reported.
unfoldable pub ssplit_from : ℕ → Bytes → Bytes → List Bytes
ssplit_from delimiter tok [] = elim tok [ [] ↦ [] | c ∷ rest ↦ (c ∷ rest) ∷ [] ]
ssplit_from delimiter tok (c ∷ cs) =
    let next = tok ∷ ssplit_from delimiter [] cs in
    let more = ssplit_from delimiter (tok ++ c ∷ []) cs in if c == delimiter then next else more

unfoldable pub ssplit : Bytes → ℕ → List Bytes
unfolding ssplit_from
ssplit str delimiter = ssplit_from delimiter [] str

-- `split`, which has always a field
unfoldable pub split : Bytes → ℕ → List Bytes
unfolding ssplit
split str delimiter = elim (ssplit str delimiter) [ [] ↦ str ∷ [] | t ∷ rest ↦ t ∷ rest ]

-- What stands before the first `delimiter`, and what stands behind it.
unfoldable pub before : ℕ → Bytes → Bytes
before delimiter [] = []
before delimiter (c ∷ cs) = if c == delimiter then [] else c ∷ before delimiter cs

unfoldable pub after : ℕ → Bytes → Bytes
after delimiter [] = []
after delimiter (c ∷ cs) = if c == delimiter then cs else after delimiter cs

-- The value is empty where there is no delimiter.
unfoldable pub ssplit_pair : Bytes → ℕ → Bytes × Bytes
unfolding before after
ssplit_pair str delimiter = (before delimiter str, after delimiter str)

unfoldable pub contains_byte : ℕ → Bytes → Bool
contains_byte b [] = false
contains_byte b (c ∷ cs) = c == b || contains_byte b cs

-- The last byte, and all but the last.
abbrev last : Bytes → ℕ
last [] = 0
last (c ∷ []) = c
last (c ∷ d ∷ cs) = last (d ∷ cs)

abbrev pop_back : Bytes → Bytes
pop_back [] = []
pop_back (c ∷ []) = []
pop_back (c ∷ d ∷ cs) = c ∷ pop_back (d ∷ cs)

-- The first loop of removeWhiteSpacesIfNeeded.
unfoldable pub drop_front_blanks : Bytes → Bytes
drop_front_blanks [] = []
drop_front_blanks (c ∷ []) = c ∷ []
drop_front_blanks (c ∷ d ∷ cs) = if c == b' ' then drop_front_blanks (d ∷ cs) else c ∷ d ∷ cs

-- The second one; the fuel is the length, and each round takes a byte off.
unfoldable pub drop_back_blanks : ℕ → Bytes → Bytes
drop_back_blanks zero a = a
drop_back_blanks (suc f) a =
    let rest = drop_back_blanks f (pop_back a) in
    if ltb 1 (length a) && last a == b' ' then rest else a

unfoldable pub remove_white_spaces_if_needed : Bytes → Bytes
unfolding drop_front_blanks drop_back_blanks
remove_white_spaces_if_needed a = let b = drop_front_blanks a in drop_back_blanks (length b) b

-- One pair of the given quotes round the text is taken off.
unfoldable pub remove_pair : ℕ → Bytes → Bytes
remove_pair q a =
    if ltb 1 (length a) && get_or a 0 0 == q && last a == q then drop 1 (pop_back a) else a

unfoldable pub remove_brackets_if_needed : Bytes → Bytes
unfolding remove_pair
remove_brackets_if_needed a = remove_pair 39 (remove_pair 34 a)

unfoldable pub parser_sanitizer : Bytes → Bytes
unfolding remove_white_spaces_if_needed remove_brackets_if_needed
parser_sanitizer a = remove_brackets_if_needed (remove_white_spaces_if_needed a)
