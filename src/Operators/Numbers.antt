-- ===== src/Operators/Numbers.antt =====
-- @eq, @ge, @gt, @le, @lt and @strmatch, with the parameter expanded: src/operators/eq.cc and its like.
-- `std::stoi` under its `try`
use mod_security.Operators.Strings.{find}
use mod_security.Prelude.{
  Bool, [], false, if◌then◌else◌, leb, ltb, none, some, true, ◌-◌, ◌==◌, ◌^◌, ◌∷◌,
}
use mod_security.Prelude.Bytes.{Bytes}
use mod_security.Prelude.Int.{leb_ℤ, ltb_ℤ, pos, sub_ℕ, ℤ, ◌==ℤ◌}
use mod_security.Utils.Number.{leading_digits, skip_space, stoi}

unfoldable pub int_or_zero : Bytes → ℤ
int_or_zero s = elim (stoi s) [ none ↦ pos 0 | some n ↦ n ]

-- Eq::evaluate
unfoldable pub eq : Bytes → Bytes → Bool
unfolding int_or_zero stoi
eq pt input = int_or_zero pt ==ℤ int_or_zero input

-- The number of a sign and leading digits, at the bounds of `long long` where it is beyond them: the C
-- library does that, and the language leaves it undefined.
unfoldable pub long_digits : Bool → Bytes → ℤ
unfolding leading_digits
long_digits negative s =
    let n = leading_digits 0 s in
    if negative
    then sub_ℕ 0 (if leb n (2 ^ 63) then n else 2 ^ 63)
    else pos (if ltb n (2 ^ 63) then n else 2 ^ 63 - 1)

unfoldable pub signed_long : Bytes → ℤ
unfolding long_digits
signed_long [] = pos 0
signed_long (c ∷ cs) =
    if c == b'-'
    then long_digits true cs
    else (if c == b'+' then long_digits false cs else long_digits false (c ∷ cs))

-- atoll
unfoldable pub atoll : Bytes → ℤ
unfolding skip_space signed_long
atoll s = signed_long (skip_space s)

-- Ge::evaluate, Gt::evaluate, Le::evaluate and Lt::evaluate
unfoldable pub ge : Bytes → Bytes → Bool
unfolding atoll
ge p input = leb_ℤ (atoll p) (atoll input)

unfoldable pub gt : Bytes → Bytes → Bool
unfolding atoll
gt p input = ltb_ℤ (atoll p) (atoll input)

unfoldable pub le : Bytes → Bytes → Bool
unfolding atoll
le p input = leb_ℤ (atoll input) (atoll p)

unfoldable pub lt : Bytes → Bytes → Bool
unfolding atoll
lt p input = ltb_ℤ (atoll input) (atoll p)

-- StrMatch::evaluate
unfoldable pub str_match : Bytes → Bytes → Bool
unfolding find
str_match p input = elim (find p input) [ none ↦ false | some i ↦ true ]
