-- ===== src/Operators/ByteRange/Ranges.antt =====
-- The table of @validateByteRange against the ranges of its parameter.
use Prim.Native.Nat.{bit_and}
use mod_security.Operators.ByteRange.{
  RangeError, allow_byte, allow_from, allow_parsed, byte_of, check_ends, evaluate_byte_range,
  get_range, get_ranges, init_byte_range, is_allowed, next_range, outside_range, parse_byte,
  parse_ends, parse_range, pieces_from,
}
use mod_security.Operators.ByteRange.Allowed.{IsTable, allow_byte-IsTable, allow_byte-is_allowed}
use mod_security.Prelude.{
  Bool, Bool-cases, List, Option-cases, [], ap, arith, false, get_or, if_ind, if_ind_eq, inl, inr,
  leb, length, ltb, not, refl, replicate, some, subst, suc, sym, true, within, zero, ℕ, ◌%◌, ◌&&◌,
  ◌+◌, ◌-◌, ◌/◌, ◌<◌, ◌==◌, ◌^◌, ◌||◌, ◌∷◌, ◌≡◌, ◌≤◌, ◌⊎◌,
}
use mod_security.Prelude.Bytes.{AreBytes, Bytes}
use mod_security.Prelude.Int.{negsuc, pos, ℤ}
use mod_security.Utils.Hex.{check_below, check_below_correct}
use mod_security.Utils.Number.{stoi}
use mod_security.Utils.Split.{after, before, contains_byte}

abbrev pub in_range : ℕ × ℕ → ℕ → Bool
in_range (lo, hi) x = within lo hi x

abbrev add_parsed : (ℕ × ℕ) ⊎ RangeError → List (ℕ × ℕ) → List (ℕ × ℕ)
add_parsed (inl p) later = p ∷ later
add_parsed (inr why) later = later

-- The ranges that can be read from the pieces of the parameter.
abbrev pub ranges_of : List Bytes → List (ℕ × ℕ)
ranges_of [] = []
ranges_of (r ∷ rest) = add_parsed (parse_range r) (ranges_of rest)

abbrev pub in_some_range : List (ℕ × ℕ) → ℕ → Bool
in_some_range [] x = false
in_some_range (p ∷ rest) x = in_range p x || in_some_range rest x

allow_from-is_allowed :
    (count start x : ℕ) (table : List ℕ)
    → IsTable table
    → start + count ≤ 256
    → x < 256
    → IsTable (allow_from count start table)
      × (is_allowed (allow_from count start table) x
          ≡ ((leb start x && ltb x (start + count)) || is_allowed table x))
unfolding allow_from
allow_from-is_allowed zero start x table h le lt = (h, ground arith)
allow_from-is_allowed (suc count) start x table h le lt =
    let next = allow_byte-IsTable start table h in
    let one = allow_byte-is_allowed start x table h (omega arith) lt in
    let ih =
      allow_from-is_allowed count (start + 1) x (allow_byte start table) next (omega arith) lt in
    (ih.0, ground (arith, ih.1, one))

abbrev IsRange : ((ℕ × ℕ) ⊎ RangeError) → Type 0
IsRange (inl (lo, hi)) = (lo ≤ hi) × (hi < 256)
IsRange (inr why) = Unit

byte_of-le : (z : ℤ) (n : ℕ) → byte_of z ≡ some n → n ≤ 255
unfolding byte_of
byte_of-le (pos m) n h = ground arith
byte_of-le (negsuc m) n h = ground arith

parse_byte-IsRange : (b : Bytes) → IsRange (parse_byte b)
unfolding parse_byte
parse_byte-IsRange b = elim (Option-cases (stoi b)) [
  | inl z ↦ rw (z, parse_byte) tt
  | inr (start, z) ↦ elim (Option-cases (byte_of start)) [
    | inl y ↦ rw (z, parse_byte) (rw (y, parse_byte) tt)
    | inr (n, y) ↦
        let le = byte_of-le start n y in
        rw (z, parse_byte) (rw (y, parse_byte) (omega arith, omega arith))
  ]
]

check_ends-IsRange : (start end' : ℤ) → IsRange (check_ends start end')
unfolding check_ends
check_ends-IsRange start end' = elim (Option-cases (byte_of start)) [
  | inl z ↦ rw (z, check_ends) tt
  | inr (s, z) ↦ elim (Option-cases (byte_of end')) [
    | inl y ↦ rw (z, check_ends) (rw (y, check_ends) tt)
    | inr (e, y) ↦
        let le = byte_of-le end' e y in
        rw (z, check_ends)
          (rw (y, check_ends)
            (if_ind_eq IsRange (ltb e s) (λ t. tt) (λ t. (ground arith, omega arith))))
  ]
]

parse_ends-IsRange : (a b : Bytes) → IsRange (parse_ends a b)
unfolding parse_ends
parse_ends-IsRange a b = elim (Option-cases (stoi a)) [
  | inl z ↦ rw (z, parse_ends) tt
  | inr (start, z) ↦ elim (Option-cases (stoi b)) [
    | inl y ↦ rw (z, parse_ends) (rw (y, parse_ends) tt)
    | inr (end', y) ↦ rw (z, parse_ends) (rw (y, parse_ends) (check_ends-IsRange start end'))
  ]
]

parse_range-IsRange : (r : Bytes) → IsRange (parse_range r)
unfolding parse_range
parse_range-IsRange r =
    if_ind IsRange (contains_byte b'-' r) (parse_ends-IsRange (before b'-' r) (after b'-' r))
      (parse_byte-IsRange r)

-- What a table allows behind the pieces, where all of them can be read.
abbrev Allows : List (ℕ × ℕ) → List ℕ → List ℕ ⊎ RangeError → Type 0
Allows ranges before' (inl table) =
    IsTable table
    × ((x : ℕ) → x < 256 → is_allowed table x ≡ (in_some_range ranges x || is_allowed before' x))
Allows ranges before' (inr why) = Unit

Allows-step :
    (lo hi : ℕ) (ranges : List (ℕ × ℕ)) (t t' : List ℕ) (result : List ℕ ⊎ RangeError)
    → ((x : ℕ) → x < 256 → is_allowed t' x ≡ (within lo hi x || is_allowed t x))
    → Allows ranges t' result
    → Allows ((lo, hi) ∷ ranges) t result
Allows-step lo hi ranges t t' (inl table) one all =
    (all.0, λ x lt. ground (arith, all.1 x lt, one x lt))
Allows-step lo hi ranges t t' (inr why) one all = tt

get_ranges-error : (pieces : List Bytes) (why : RangeError) → get_ranges pieces (inr why) ≡ inr why
unfolding get_ranges next_range
get_ranges-error [] why = refl
get_ranges-error (r ∷ rest) why = get_ranges-error rest why

get_ranges-Allows :
    (pieces : List Bytes) (table : List ℕ)
    → IsTable table
    → Allows (ranges_of pieces) table (get_ranges pieces (inl table))
unfolding get_ranges next_range get_range
get_ranges-Allows [] table h = (h, λ x lt. refl)
get_ranges-Allows (r ∷ rest) table h =
    with_range (parse_range r) (parse_range-IsRange r) (λ t k. get_ranges-Allows rest t k)
  where
    with_range :
        (p : (ℕ × ℕ) ⊎ RangeError)
        → IsRange p
        → ((t : List ℕ) → IsTable t → Allows (ranges_of rest) t (get_ranges rest (inl t)))
        → Allows (add_parsed p (ranges_of rest)) table (get_ranges rest (allow_parsed table p))
    with_range (inr why) k later =
        unfold allow_parsed in
        subst (Allows (ranges_of rest) table) (sym (get_ranges-error rest why)) tt
    with_range (inl (lo, hi)) k later =
        let t' = allow_from (hi + 1 - lo) lo table in
        let f = λ (x : ℕ) (lt : x < 256).
          allow_from-is_allowed (hi + 1 - lo) lo x table h (omega arith) lt in
        let one : (x : ℕ) → x < 256 → is_allowed t' x ≡ (within lo hi x || is_allowed table x) =
          λ x lt. ground (arith, (f x lt).1) in
        unfold allow_parsed in
        Allows-step lo hi (ranges_of rest) table t' (get_ranges rest (inl t')) one
          (later t' (f 0 (omega arith)).0)

replicate-AreBytes : (n : ℕ) → AreBytes (replicate n 0)
replicate-AreBytes zero = tt
replicate-AreBytes (suc n) = (omega arith, replicate-AreBytes n)

get_or-replicate : (n i : ℕ) → get_or {A = ℕ} (replicate n 0) i 0 ≡ 0
get_or-replicate zero i = refl
get_or-replicate (suc n) zero = refl
get_or-replicate (suc n) (suc i) = get_or-replicate n i

no_bit_table : check_below 8 (λ k. bit_and 0 (2 ^ k) == 0) ≡ true
unfolding check_below
no_bit_table = refl

cleared-is_allowed : (x : ℕ) → is_allowed (replicate 32 0) x ≡ false
unfolding is_allowed
cleared-is_allowed x =
    let e =
      check_below_correct 8 (λ k. bit_and 0 (2 ^ k) == 0) no_bit_table (x % 8) (omega arith) in
    rw (get_or-replicate 32 (x / 8)) (rw e refl)

-- Every byte is in one of the ranges.
abbrev pub all_in : List (ℕ × ℕ) → Bytes → Bool
all_in ranges [] = true
all_in ranges (x ∷ rest) = in_some_range ranges x && all_in ranges rest

outside-all_in :
    (table : List ℕ) (ranges : List (ℕ × ℕ)) (i : ℕ) (input : Bytes)
    → ((x : ℕ) → x < 256 → is_allowed table x ≡ in_some_range ranges x)
    → AreBytes input
    → (length (outside_range table i input) == 0) ≡ all_in ranges input
unfolding outside_range
outside-all_in table ranges i [] same h = refl
outside-all_in table ranges i (x ∷ rest) same h =
    let ih = outside-all_in table ranges (i + 1) rest same h.1 in
    let one = same x h.0 in
    elim (Bool-cases (is_allowed table x)) [
      | inl e ↦ rw e (ground arith)
      | inr e ↦ rw e (ground arith)
    ]

-- Where its parameter can be read, @validateByteRange matches just the strings that have a byte
-- outside all of the ranges that the parameter names.
pub evaluate_byte_range-all_in :
    (param input : Bytes) (table : List ℕ)
    → init_byte_range param ≡ inl table
    → AreBytes input
    → (evaluate_byte_range table input).is_match
      ≡ not (all_in (ranges_of (pieces_from [] param)) input)
unfolding evaluate_byte_range init_byte_range
evaluate_byte_range-all_in param input table e h =
    let pieces = pieces_from [] param in
    let start = replicate 32 0 in
    let all : Allows (ranges_of pieces) start (inl table) =
      subst (Allows (ranges_of pieces) start) e
        (get_ranges-Allows pieces start (refl, replicate-AreBytes 32)) in
    let same : (x : ℕ) → x < 256 → is_allowed table x ≡ in_some_range (ranges_of pieces) x =
      λ x lt. ground (arith, all.1 x lt, cleared-is_allowed x) in
    ap not (outside-all_in table (ranges_of pieces) 0 input same h)
