-- ===== src/Operators/Utf8/Encoded.antt =====
-- What @validateUtf8Encoding says of the encoding of characters as RFC 3629 defines it.
-- A number of a character: up to U+10FFFF, and no surrogate.
use mod_security.Operators.Utf8.{check_number, is_continuation, unicode_len}
use mod_security.Operators.Strings.{no_match}
use mod_security.Operators.Utf8.{
  detect_utf8_character, evaluate_utf8_encoding, four_bytes, three_bytes, two_bytes,
  validate_utf8_from,
}
use mod_security.Prelude.{
  List, [], arith, false, if_ind_eq, if◌then◌else◌, inl, inr, leb, length, ltb, refl, true, within,
  ℕ, ◌%◌, ◌*◌, ◌++◌, ◌+◌, ◌/◌, ◌<◌, ◌==◌, ◌∷◌, ◌≡◌, ◌≤◌, ◌⊎◌,
}
use mod_security.Prelude.Bytes.{All, Bytes}

abbrev pub IsScalar : ℕ → Type 0
IsScalar d = (d < 1114112) × ((d < 55296) ⊎ (57343 < d))

-- The encoding of a character, and of a text.
abbrev pub utf8_bytes : ℕ → Bytes
utf8_bytes d =
    if ltb d 128
    then d ∷ []
    else (if ltb d 2048
        then (192 + d / 64) ∷ (128 + d % 64) ∷ []
        else (if ltb d 65536
            then (224 + d / 4096) ∷ (128 + d / 64 % 64) ∷ (128 + d % 64) ∷ []
            else (240 + d / 262144)
              ∷ (128 + d / 4096 % 64)
              ∷ (128 + d / 64 % 64)
              ∷ (128 + d % 64)
              ∷ []))

abbrev pub utf8_text : List ℕ → Bytes
utf8_text [] = []
utf8_text (d ∷ ds) = utf8_bytes d ++ utf8_text ds

continues : (n : ℕ) → is_continuation (128 + n % 64) ≡ true
continues n = ground arith

continuation_part : (n : ℕ) → (128 + n % 64) % 64 ≡ n % 64
continuation_part n = omega arith

-- The number of a character is read back from the parts.
two_parts : (d : ℕ) → d < 2048 → (192 + d / 64) % 32 * 64 + (128 + d % 64) % 64 ≡ d
two_parts d h = omega arith

three_parts :
    (d : ℕ)
    → d < 65536
    → (224 + d / 4096) % 16 * 4096 + (128 + d / 64 % 64) % 64 * 64 + (128 + d % 64) % 64 ≡ d
three_parts d h = omega arith

four_parts :
    (d : ℕ)
    → d < 1114112
    → (240 + d / 262144) % 8 * 262144
        + (128 + d / 4096 % 64) % 64 * 4096
        + (128 + d / 64 % 64) % 64 * 64
        + (128 + d % 64) % 64
      ≡ d
four_parts d h = omega arith

no_surrogate : (d : ℕ) → IsScalar d → within 55296 57343 d ≡ false
no_surrogate d (b, inl h) = ground arith
no_surrogate d (b, inr h) = ground arith

check_two : (d : ℕ) → IsScalar d → 128 ≤ d → check_number 2 d ≡ unicode_len 2
unfolding check_number
check_two d h b = let o : ltb d 128 ≡ false = ground arith in rw (no_surrogate d h, o) refl

check_three : (d : ℕ) → IsScalar d → 2048 ≤ d → check_number 3 d ≡ unicode_len 3
unfolding check_number
check_three d h b = let o : ltb d 2048 ≡ false = ground arith in rw (no_surrogate d h, o) refl

check_four : (d : ℕ) → IsScalar d → 65536 ≤ d → check_number 4 d ≡ unicode_len 4
unfolding check_number
check_four d h b = let o : ltb d 65536 ≡ false = ground arith in rw (no_surrogate d h, o) refl

detect_one : (d : ℕ) (rest : Bytes) → d < 128 → detect_utf8_character d rest ≡ unicode_len 1
unfolding detect_utf8_character
detect_one d rest h = let a : (d / 128 == 0) ≡ true = ground arith in rw a refl

detect_two :
    (d : ℕ) (rest : Bytes)
    → IsScalar d
    → 128 ≤ d
    → d < 2048
    → detect_utf8_character (192 + d / 64) ((128 + d % 64) ∷ rest) ≡ unicode_len 2
unfolding detect_utf8_character two_bytes
detect_two d rest h lo hi =
    let a : ((192 + d / 64) / 128 == 0) ≡ false = ground arith in
    let b : ((192 + d / 64) / 32 == 6) ≡ true = ground arith in
    rw (a, b, continues d, two_parts d hi) (check_two d h lo)

detect_three :
    (d : ℕ) (rest : Bytes)
    → IsScalar d
    → 2048 ≤ d
    → d < 65536
    → detect_utf8_character (224 + d / 4096) ((128 + d / 64 % 64) ∷ (128 + d % 64) ∷ rest)
      ≡ unicode_len 3
unfolding detect_utf8_character three_bytes
detect_three d rest h lo hi =
    let c = 224 + d / 4096 in
    let a : (c / 128 == 0) ≡ false = ground arith in
    let b : (c / 32 == 6) ≡ false = ground arith in
    let e : (c / 16 == 14) ≡ true = ground arith in
    rw (a, b, e, continues (d / 64), continues d, three_parts d hi) (check_three d h lo)

detect_four :
    (d : ℕ) (rest : Bytes)
    → IsScalar d
    → 65536 ≤ d
    → detect_utf8_character
        (240 + d / 262144)
        ((128 + d / 4096 % 64) ∷ (128 + d / 64 % 64) ∷ (128 + d % 64) ∷ rest)
      ≡ unicode_len 4
unfolding detect_utf8_character four_bytes
detect_four d rest h lo =
    let c = 240 + d / 262144 in
    let top : d < 1114112 = h.0 in
    let a : (c / 128 == 0) ≡ false = ground arith in
    let b : (c / 32 == 6) ≡ false = ground arith in
    let e : (c / 16 == 14) ≡ false = ground arith in
    let f : (c / 8 == 30) ≡ true = ground (arith, top) in
    let g : leb 245 c ≡ false = ground (arith, top) in
    rw (a, b, e, f, g, continues (d / 4096), continues (d / 64), continues d, four_parts d top)
      (check_four d h lo)

validate_utf8_from-text :
    (size i : ℕ) (ds : List ℕ)
    → All IsScalar ds
    → validate_utf8_from size i 0 (utf8_text ds) ≡ no_match
unfolding validate_utf8_from
validate_utf8_from-text size i [] h = refl
validate_utf8_from-text size i (d ∷ ds) (h, hs) =
    let rest = utf8_text ds in
    let P = λ (b : Bytes). validate_utf8_from size i 0 (b ++ rest) ≡ no_match in
    if_ind_eq P (ltb d 128)
      (λ a. rw (detect_one d rest (ground arith)) (validate_utf8_from-text size (i + 1) ds hs))
      (λ a.
        if_ind_eq P (ltb d 2048)
          (λ b.
            rw (detect_two d rest h (ground arith) (ground arith))
              (validate_utf8_from-text size (i + 1 + 1) ds hs))
          (λ b.
            if_ind_eq P (ltb d 65536)
              (λ c.
                rw (detect_three d rest h (ground arith) (ground arith))
                  (validate_utf8_from-text size (i + 1 + 1 + 1) ds hs))
              (λ c.
                rw (detect_four d rest h (ground arith))
                  (validate_utf8_from-text size (i + 1 + 1 + 1 + 1) ds hs))))

-- @validateUtf8Encoding does not match the encoding of any text, as RFC 3629 defines it, of characters
-- up to U+10FFFF that are no surrogates, and logs nothing for it.
pub evaluate_utf8_encoding-utf8_text :
    (ds : List ℕ) → All IsScalar ds → evaluate_utf8_encoding (utf8_text ds) ≡ no_match
unfolding evaluate_utf8_encoding
evaluate_utf8_encoding-utf8_text ds h = validate_utf8_from-text (length (utf8_text ds)) 0 ds h
