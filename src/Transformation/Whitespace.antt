-- ===== src/Transformation/Whitespace.antt =====
-- trim, trimLeft, trimRight, compressWhitespace and cmdLine.
pub mod Settled
pub mod Canonical
use mod_security.Prelude.{
  Bool, [], drop, false, if◌then◌else◌, length, not, reverse, true, ℕ, ◌&&◌, ◌==◌, ◌||◌, ◌∷◌,
}
use mod_security.Prelude.Bytes.{Bytes}
use mod_security.Utils.Ctype.{isspace, tolower}

-- The string without the white space it begins with.
unfoldable pub drop_spaces : Bytes → Bytes
unfolding isspace
drop_spaces [] = []
drop_spaces (c ∷ rest) = let later = drop_spaces rest in if isspace c then later else c ∷ rest

-- The string without the white space it ends with.
unfoldable pub drop_last_spaces : Bytes → Bytes
unfolding isspace
drop_last_spaces [] = []
drop_last_spaces (c ∷ rest) =
    let later = drop_last_spaces rest in if isspace c && length later == 0 then [] else c ∷ later

-- `it != s.begin()`: something is erased.
unfoldable pub ltrim : Bytes → Bytes × Bool
unfolding drop_spaces
ltrim s = let v = drop_spaces s in (v, not (length v == length s))

unfoldable pub rtrim : Bytes → Bytes × Bool
unfolding drop_last_spaces
rtrim s = let v = drop_last_spaces s in (v, not (length v == length s))

-- Trim::trim
unfoldable pub trim : Bytes → Bytes × Bool
unfolding ltrim rtrim
trim s = let r = rtrim s in let l = ltrim r.0 in (l.0, r.1 || l.1)

-- The loop of compressWhitespace.
unfoldable pub compress_from : Bool → Bytes → Bytes
unfolding isspace
compress_from in_white_space [] = []
compress_from in_white_space (c ∷ rest) =
    let inside = compress_from true rest in
    let outside' = compress_from false rest in
    if isspace c then (if in_white_space then inside else b' ' ∷ inside) else c ∷ outside'

-- `changed` compares the lengths only.
unfoldable pub compress_whitespace : Bytes → Bytes × Bool
unfolding compress_from
compress_whitespace value = let v = compress_from false value in (v, not (length v == length value))

-- The three classes of bytes of cmdLine's switch that are not copied.
unfoldable pub is_cmd_removed : ℕ → Bool
is_cmd_removed a = a == 34 || a == 39 || a == 92 || a == b'^'

unfoldable pub is_cmd_space : ℕ → Bool
is_cmd_space a = a == b' ' || a == b',' || a == b';' || a == 9 || a == 13 || a == 10

unfoldable pub is_cmd_joined : ℕ → Bool
is_cmd_joined a = a == b'/' || a == b'('

-- A pass of cmdLine: what is written, last byte first, and `space`. `d--` takes back the last byte.
unfoldable pub cmd_line_step : ℕ → Bytes × Bool → Bytes × Bool
unfolding is_cmd_removed is_cmd_space is_cmd_joined tolower
cmd_line_step a (written, space) =
    if is_cmd_removed a
    then (written, space)
    else if is_cmd_space a
    then (if space then (written, space) else (b' ' ∷ written, true))
    else if is_cmd_joined a
    then (a ∷ (if space then drop 1 written else written), false)
    else (tolower a ∷ written, false)

unfoldable pub cmd_line_from : Bytes → Bytes × Bool → Bytes × Bool
unfolding cmd_line_step
cmd_line_from [] s = s
cmd_line_from (a ∷ rest) s = cmd_line_from rest (cmd_line_step a s)

-- `changed` compares the lengths only.
unfoldable pub cmd_line : Bytes → Bytes × Bool
unfolding cmd_line_from
cmd_line value =
    let v = reverse (cmd_line_from value ([], false)).0 in (v, not (length v == length value))
