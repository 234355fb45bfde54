-- ===== src/Operators/ByteRange.antt =====
-- @validateByteRange: the parsing of its parameter into a table of 256 bits, and the test.
pub mod Allowed
pub mod Ranges
use Prim.Native.Nat.{bit_and, bit_or}
use mod_security.Operators.Strings.{Answer}
use mod_security.Prelude.{
  Bool, List, Option, [], get_or, if◌then◌else◌, inl, inr, leb, length, ltb, none, not, replicate,
  set, some, suc, zero, ℕ, ◌%◌, ◌++◌, ◌+◌, ◌-◌, ◌/◌, ◌==◌, ◌^◌, ◌∷◌, ◌⊎◌,
}
use mod_security.Prelude.Bytes.{Bytes}
use mod_security.Prelude.Int.{negsuc, pos, ℤ}
use mod_security.Utils.Number.{stoi}
use mod_security.Utils.Split.{after, before, contains_byte}

pub data RangeError : Type 0 where
  not_convertible : Bytes → RangeError
  invalid_byte_value : ℤ → RangeError
  invalid_range_start : ℤ → RangeError
  invalid_range_end : ℤ → RangeError
  start_after_end : ℤ → ℤ → RangeError

-- A byte value, where `n` is one.
unfoldable pub byte_of : ℤ → Option ℕ
byte_of (pos n) = if leb n 255 then some n else none
byte_of (negsuc n) = none

unfoldable pub parse_byte : Bytes → (ℕ × ℕ) ⊎ RangeError
unfolding stoi byte_of
parse_byte b = elim (stoi b) [
  | none ↦ inr (not_convertible b)
  | some start ↦ elim (byte_of start) [
    | none ↦ inr (invalid_byte_value start)
    | some n ↦ inl (n, n)
  ]
]

-- Both ends are converted before they are checked.
unfoldable pub check_ends : ℤ → ℤ → (ℕ × ℕ) ⊎ RangeError
unfolding byte_of
check_ends start end' = elim (byte_of start) [
  | none ↦ inr (invalid_range_start start)
  | some s ↦ elim (byte_of end') [
    | none ↦ inr (invalid_range_end end')
    | some e ↦ if ltb e s then inr (start_after_end start end') else inl (s, e)
  ]
]

unfoldable pub parse_ends : Bytes → Bytes → (ℕ × ℕ) ⊎ RangeError
unfolding stoi check_ends
parse_ends a b = elim (stoi a) [
  | none ↦ inr (not_convertible a)
  | some start ↦ elim (stoi b) [
    | none ↦ inr (not_convertible b)
    | some end' ↦ check_ends start end'
  ]
]

-- The first and the last byte that the representation stands for.
unfoldable pub parse_range : Bytes → (ℕ × ℕ) ⊎ RangeError
unfolding contains_byte before after parse_byte parse_ends
parse_range r =
    if contains_byte b'-' r then parse_ends (before b'-' r) (after b'-' r) else parse_byte r

-- table[x >> 3] |= 1 << (x & 7)
unfoldable pub allow_byte : ℕ → List ℕ → List ℕ
allow_byte x table = set table (x / 8) (bit_or (get_or table (x / 8) 0) (2 ^ (x % 8)))

-- The loop from `start` on, for `count` bytes.
unfoldable pub allow_from : ℕ → ℕ → List ℕ → List ℕ
unfolding allow_byte
allow_from zero start table = table
allow_from (suc count) start table = allow_from count (start + 1) (allow_byte start table)

unfoldable pub allow_parsed : List ℕ → (ℕ × ℕ) ⊎ RangeError → List ℕ ⊎ RangeError
unfolding allow_from
allow_parsed table (inr why) = inr why
allow_parsed table (inl (start, end')) = inl (allow_from (end' + 1 - start) start table)

unfoldable pub get_range : Bytes → List ℕ → List ℕ ⊎ RangeError
unfolding parse_range allow_parsed
get_range r table = allow_parsed table (parse_range r)

-- The pieces between the commas, also an empty last one.
unfoldable pub pieces_from : Bytes → Bytes → List Bytes
pieces_from piece [] = piece ∷ []
pieces_from piece (c ∷ rest) =
    let next = piece ∷ pieces_from [] rest in
    let more = pieces_from (piece ++ c ∷ []) rest in if c == b',' then next else more

-- The loop over the pieces; the first error is returned.
unfoldable pub next_range : Bytes → List ℕ ⊎ RangeError → List ℕ ⊎ RangeError
unfolding get_range
next_range r (inl table) = get_range r table
next_range r (inr why) = inr why

unfoldable pub get_ranges : List Bytes → List ℕ ⊎ RangeError → List ℕ ⊎ RangeError
unfolding next_range
get_ranges [] table = table
get_ranges (r ∷ rest) table = get_ranges rest (next_range r table)

-- ValidateByteRange::init, on the table that the constructor clears.
unfoldable pub init_byte_range : Bytes → List ℕ ⊎ RangeError
unfolding get_ranges pieces_from
init_byte_range param = get_ranges (pieces_from [] param) (inl (replicate 32 0))

-- table[x >> 3] & (1 << (x & 7))
unfoldable pub is_allowed : List ℕ → ℕ → Bool
is_allowed table x = not (bit_and (get_or table (x / 8) 0) (2 ^ (x % 8)) == 0)

-- The loop over the input at the index `i`, with the calls of logOffset.
unfoldable pub outside_range : List ℕ → ℕ → Bytes → List (ℕ × ℕ)
unfolding is_allowed
outside_range table i [] = []
outside_range table i (x ∷ rest) =
    let later = outside_range table (i + 1) rest in
    if is_allowed table x then later else (i, 1) ∷ later

-- ValidateByteRange::evaluate
unfoldable pub evaluate_byte_range : List ℕ → Bytes → Answer
unfolding outside_range
evaluate_byte_range table input =
    let found = outside_range table 0 input in
    record { is_match = not (length found == 0); offsets = found }
