-- ===== src/Transformation/Escapes.antt =====
-- jsDecode, escapeSeqDecode and cssDecode.
pub mod Hex
use mod_security.Prelude.{
  Bool, Option, [], false, if◌then◌else◌, leb, length, ltb, none, not, some, suc, take, true, zero,
  ℕ, ◌%◌, ◌&&◌, ◌*◌, ◌+◌, ◌-◌, ◌==◌, ◌||◌, ◌∷◌,
}
use mod_security.Prelude.Bytes.{Bytes}
use mod_security.Transformation.Scan.{Step, ahead, put, scan}
use mod_security.Utils.Ctype.{isspace}
use mod_security.Utils.Hex.{is_odigit, valid_hex, x2c, xsingle2c}

-- The number of leading bytes that pass the test, at most `limit`.
unfoldable pub prefix_count : (ℕ → Bool) → ℕ → Bytes → ℕ
prefix_count test zero b = 0
prefix_count test (suc limit) [] = 0
prefix_count test (suc limit) (c ∷ rest) =
    let more = prefix_count test limit rest in if test c then more + 1 else 0

-- strtol(buf, NULL, 8) of digits.
unfoldable pub octal_value : ℕ → Bytes → ℕ
octal_value acc [] = acc
octal_value acc (c ∷ rest) = octal_value (acc * 8 + (c - b'0')) rest

-- \a \b \f \n \r \t \v, where `c` is the letter.
unfoldable pub control_escape : ℕ → Option ℕ
control_escape c =
    if c == b'a'
    then some 7
    else if c == b'b'
    then some 8
    else if c == b'f'
    then some 12
    else if c == b'n'
    then some 10
    else if c == b'r'
    then some 13
    else if c == b't'
    then some 9
    else if c == b'v'
    then some 11
    else none

unfoldable pub is_f : ℕ → Bool
is_f c = c == b'f' || c == b'F'

-- Full width ASCII (ff01 - ff5e) needs 0x20 added; `a` and `b` are the high digits.
unfoldable pub full_width : ℕ → ℕ → ℕ → ℕ
unfolding is_f
full_width a b d = if ltb 0 d && ltb d 0x5f && is_f a && is_f b then d + 0x20 else d

-- Three octal digits are not used where they are more than a byte.
unfoldable pub js_octal_count : Bytes → ℕ
unfolding prefix_count is_odigit
js_octal_count rest =
    let j = prefix_count is_odigit 3 rest in if j == 3 && ltb b'3' (ahead rest 0) then 2 else j

-- A pass of jsDecode at `x`, with `rest` behind it.
unfoldable pub js_decode_step : Unit {0} → ℕ → Bytes → Step (Unit {0})
unfolding valid_hex is_odigit x2c full_width js_octal_count octal_value control_escape
js_decode_step s x rest =
    let j = js_octal_count rest in
    if not (x == b'\\')
    then put (x ∷ []) 0 false s
    else if leb 5 (length rest)
        && ahead rest 0 == b'u'
        && valid_hex (ahead rest 1)
        && valid_hex (ahead rest 2)
        && valid_hex (ahead rest 3)
        && valid_hex (ahead rest 4)
    then put (full_width (ahead rest 1) (ahead rest 2) (x2c (ahead rest 3) (ahead rest 4)) ∷ []) 5
        true s
    else if leb 3 (length rest)
        && ahead rest 0 == b'x'
        && valid_hex (ahead rest 1)
        && valid_hex (ahead rest 2)
    then put (x2c (ahead rest 1) (ahead rest 2) ∷ []) 3 true s
    else if leb 1 (length rest) && is_odigit (ahead rest 0)
    then put (octal_value 0 (take j rest) % 256 ∷ []) j true s
    else if leb 1 (length rest)
    then put (elim (control_escape (ahead rest 0)) [ some c ↦ c | none ↦ ahead rest 0 ] ∷ []) 1 true
        s
    else put (x ∷ rest) (length rest) false s

unfoldable pub js_decode : Bytes → Bytes × Bool
unfolding scan js_decode_step
js_decode value = let r = scan js_decode_step tt 0 value in (r.value, r.changed)

-- The one-letter escapes of escapeSeqDecode.
unfoldable pub single_escape : ℕ → Option ℕ
unfolding control_escape
single_escape c = if c == b'\\' || c == b'?' || c == 39 || c == 34 then some c else control_escape c

-- A pass of escapeSeqDecode. Up to three octal digits are taken, and the value is cut to a byte.
unfoldable pub escape_seq_step : Unit {0} → ℕ → Bytes → Step (Unit {0})
unfolding valid_hex is_odigit x2c prefix_count octal_value single_escape
escape_seq_step s x rest =
    let j = prefix_count is_odigit 3 rest in
    if x == b'\\' && leb 1 (length rest)
    then elim (single_escape (ahead rest 0)) [
      | some c ↦ put (c ∷ []) 1 true s
      | none ↦
          if ahead rest 0 == b'x' || ahead rest 0 == b'X'
          then if leb 3 (length rest) && valid_hex (ahead rest 1) && valid_hex (ahead rest 2)
            then put (x2c (ahead rest 1) (ahead rest 2) ∷ []) 3 true s
            else put (ahead rest 0 ∷ []) 1 true s
          else if is_odigit (ahead rest 0)
          then put (octal_value 0 (take j rest) % 256 ∷ []) j true s
          else put (ahead rest 0 ∷ []) 1 true s
    ]
    else put (x ∷ []) 0 false s

unfoldable pub escape_seq_decode : Bytes → Bytes × Bool
unfolding scan escape_seq_step
escape_seq_decode value = let r = scan escape_seq_step tt 0 value in (r.value, r.changed)

-- The byte that `j` hexadecimal digits behind a backslash stand for.
unfoldable pub css_byte : ℕ → Bytes → ℕ
unfolding x2c xsingle2c full_width
css_byte j b =
    let d = if j == 1 then xsingle2c (ahead b 0) else x2c (ahead b (j - 2)) (ahead b (j - 1)) in
    let fullcheck =
      j == 4
      || (j == 5 && ahead b 0 == b'0')
      || (j == 6 && ahead b 0 == b'0' && ahead b 1 == b'0') in
    if fullcheck then full_width (ahead b (j - 3)) (ahead b (j - 4)) d else d

-- A pass of css_decode_inplace.
unfoldable pub css_decode_step : Unit {0} → ℕ → Bytes → Step (Unit {0})
unfolding valid_hex prefix_count css_byte isspace
css_decode_step s x [] = if x == b'\\' then put [] 0 true s else put (x ∷ []) 0 false s
css_decode_step s x (c ∷ rest) =
    let j = prefix_count valid_hex 6 (c ∷ rest) in
    let blank = ltb j (length (c ∷ rest)) && isspace (ahead (c ∷ rest) j) in
    if x == b'\\'
    then if ltb 0 j
      then put (css_byte j (c ∷ rest) ∷ []) (if blank then j + 1 else j) true s
      else if c == 10
      then put [] 1 true s
      else put (c ∷ []) 1 false s
    else put (x ∷ []) 0 false s

unfoldable pub css_decode : Bytes → Bytes × Bool
unfolding scan css_decode_step
css_decode val = let r = scan css_decode_step tt 0 val in (r.value, r.changed)
