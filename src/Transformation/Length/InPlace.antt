-- ===== src/Transformation/Length/InPlace.antt =====
-- The length of a value behind each class of transformations.
use Prim.Native.Nat.{bit_and}
use mod_security.Prelude.{
  Bool, [], ap, arith, false, if◌then◌else◌, length, length-append, length-drop, length-map, refl,
  reverse_aux, suc, true, ℕ, ◌++◌, ◌+◌, ◌==◌, ◌∷◌, ◌≡◌, ◌≤◌,
}
use mod_security.Prelude.Bytes.{Bytes}
use mod_security.Transformation.Bytewise.{
  convert, is_removed_space, lower_case, parity, parity_byte, parity_zero, remove_if, remove_nulls,
  remove_whitespace, replace_nulls, unchanged, upper_case,
}
use mod_security.Transformation.Changed.Direct.{
  length-drop_last_spaces, length-drop_spaces, length-without,
}
use mod_security.Transformation.Classes.{
  TransformationClass, cmd_line_class, compress_whitespace_class, css_decode_class,
  escape_seq_decode_class, hex_decode_class, hex_encode_class, js_decode_class, length_class,
  lower_case_class, none_class, normalise_path_class, normalise_path_win_class, parity_even_class,
  parity_odd_class, parity_zero_class, remove_comments_char_class, remove_comments_class,
  remove_nulls_class, remove_whitespace_class, replace_comments_class, replace_nulls_class,
  sql_hex_decode_class, transform, trim_class, trim_left_class, trim_right_class, upper_case_class,
  url_decode_class, url_encode_class,
}
use mod_security.Transformation.Comments.{
  CommentState, end_comment, in_comment, left_loop, outside, remove_comments, remove_comments_char,
  remove_comments_char_step, remove_comments_step, replace_comments, replace_comments_step,
}
use mod_security.Transformation.Escapes.{
  css_decode, css_decode_step, escape_seq_decode, escape_seq_step, js_decode, js_decode_step,
}
use mod_security.Transformation.Hex.{hex_bytes, hex_decode, sql_hex_decode, sql_hex_step}
use mod_security.Transformation.Length.{
  css_decode_step-Fits, escape_seq_step-Fits, js_decode_step-Fits, nothing, open_comment, open_flag,
  remove_comments_char_step-Fits, remove_comments_step-Fits, replace_comments_step-Fits,
  sql_hex_step-Fits, url_decode_step-Fits,
}
use mod_security.Transformation.Path.Rounds.{normalize_path_inplace-length}
use mod_security.Transformation.Scan.{scan, scan-length}
use mod_security.Transformation.Url.{
  url_decode, url_decode_step, urldecode_nonstrict_inplace, urldecode_nonstrict_inplace_ext,
}
use mod_security.Transformation.Whitespace.{
  cmd_line, cmd_line_from, cmd_line_step, compress_from, compress_whitespace, drop_last_spaces,
  ltrim, rtrim, trim,
}
use mod_security.Utils.Ctype.{tolower, toupper}

length-reverse_aux : (xs ys : Bytes) → length (reverse_aux xs ys) ≡ length xs + length ys
length-reverse_aux [] ys = omega arith
length-reverse_aux (x ∷ xs) ys = omega (arith, length-reverse_aux xs (x ∷ ys))

cmd_line_step-length : (a : ℕ) (s : Bytes × Bool) → length (cmd_line_step a s).0 ≤ length s.0 + 1
unfolding cmd_line_step
cmd_line_step-length a (written, space) = ground (arith, length-drop 1 written)

cmd_line_from-length :
    (v : Bytes) (s : Bytes × Bool) → length (cmd_line_from v s).0 ≤ length s.0 + length v
unfolding cmd_line_from
cmd_line_from-length [] s = omega arith
cmd_line_from-length (a ∷ rest) s =
    omega (arith, cmd_line_from-length rest (cmd_line_step a s), cmd_line_step-length a s)

compress_from-length : (b : Bool) (v : Bytes) → length (compress_from b v) ≤ length v
unfolding compress_from
compress_from-length b [] = omega arith
compress_from-length b (c ∷ rest) =
    ground (arith, compress_from-length true rest, compress_from-length false rest)

convert-length : (op : ℕ → ℕ) (v : Bytes) → length (convert op v).0 ≡ length v
unfolding convert
convert-length op [] = refl
convert-length op (c ∷ rest) = ap suc (convert-length op rest)

replace_nulls-length : (v : Bytes) → length (replace_nulls v).0 ≡ length v
unfolding replace_nulls
replace_nulls-length [] = refl
replace_nulls-length (c ∷ rest) = ground (arith, replace_nulls-length rest)

hex_bytes-length : (v : Bytes) → length (hex_bytes v) ≤ length v
unfolding hex_bytes
hex_bytes-length [] = omega arith
hex_bytes-length (a ∷ []) = omega arith
hex_bytes-length (a ∷ b ∷ rest) = omega (arith, hex_bytes-length rest)

parity-length : (even : Bool) (v : Bytes) → length (parity even v).0 ≤ length v
unfolding parity
parity-length even [] = omega arith
parity-length even (c ∷ rest) = omega (arith, length-map rest (parity_byte even))

remove_comments-length : (v : Bytes) → length (remove_comments v).0 ≤ length v
unfolding remove_comments
remove_comments-length v =
    let r = scan remove_comments_step outside 0 v in
    let h = scan-length remove_comments_step open_comment outside v remove_comments_step-Fits in
    closed r.final r.value (omega (arith, h))
  where
    closed :
        (s : CommentState) (b : Bytes)
        → length b + open_comment s ≤ length v
        → length (end_comment s b) ≤ length v
    closed in_comment b h = omega (arith, length-append b (b' ' ∷ []))
    closed outside b h = omega arith
    closed left_loop b h = omega arith

replace_comments-length : (v : Bytes) → length (replace_comments v).0 ≤ length v
unfolding replace_comments
replace_comments-length v =
    let r = scan replace_comments_step false 0 v in
    let h = scan-length replace_comments_step open_flag false v replace_comments_step-Fits in
    closed r.final r.value (omega (arith, h))
  where
    closed :
        (s : Bool) (b : Bytes)
        → length b + open_flag s ≤ length v
        → length (if s then b ++ b' ' ∷ [] else b) ≤ length v
    closed true b h = omega (arith, length-append b (b' ' ∷ []))
    closed false b h = omega arith

-- The classes here but hexEncode, urlEncode and length, which build a new string.
abbrev pub IsInPlace : TransformationClass → Type 0
IsInPlace hex_encode_class = ⊥
IsInPlace url_encode_class = ⊥
IsInPlace length_class = ⊥
IsInPlace _ = Unit

-- None of these makes a value longer: cmdLine, compressWhitespace, cssDecode, escapeSeqDecode,
-- hexDecode, jsDecode, lowercase, none, normalisePath, normalisePathWin, parityEven7bit,
-- parityOdd7bit, parityZero7bit, removeComments, removeCommentsChar, removeNulls, removeWhitespace,
-- replaceComments, replaceNulls, sqlHexDecode, trim, trimLeft, trimRight, uppercase and urlDecode.
pub transform-length :
    (k : TransformationClass) (v : Bytes) → IsInPlace k → length (transform k v).0 ≤ length v
unfolding transform
transform-length cmd_line_class v h =
    unfold cmd_line in
    omega (
      arith,
      length-reverse_aux (cmd_line_from v ([], false)).0 [],
      cmd_line_from-length v ([], false),
    )
transform-length compress_whitespace_class v h =
    unfold compress_whitespace in compress_from-length false v
transform-length css_decode_class v h =
    unfold css_decode in
    omega (arith, scan-length css_decode_step nothing tt v css_decode_step-Fits)
transform-length escape_seq_decode_class v h =
    unfold escape_seq_decode in
    omega (arith, scan-length escape_seq_step nothing tt v escape_seq_step-Fits)
transform-length hex_decode_class [] h = unfold hex_decode in omega arith
transform-length hex_decode_class (c ∷ rest) h = unfold hex_decode in hex_bytes-length (c ∷ rest)
transform-length hex_encode_class v h = elim h [ ]
transform-length js_decode_class v h =
    unfold js_decode in omega (arith, scan-length js_decode_step nothing tt v js_decode_step-Fits)
transform-length length_class v h = elim h [ ]
transform-length lower_case_class v h = unfold lower_case in omega (arith, convert-length tolower v)
transform-length none_class v h = unfold unchanged in omega arith
transform-length normalise_path_class v h = normalize_path_inplace-length v false
transform-length normalise_path_win_class v h = normalize_path_inplace-length v true
transform-length parity_even_class v h = parity-length true v
transform-length parity_odd_class v h = parity-length false v
transform-length parity_zero_class [] h = unfold parity_zero in omega arith
transform-length parity_zero_class (c ∷ rest) h =
    unfold parity_zero in omega (arith, length-map rest (λ x. bit_and x 0x7f))
transform-length remove_comments_char_class v h =
    unfold remove_comments_char in
    omega (arith, scan-length remove_comments_char_step nothing tt v remove_comments_char_step-Fits)
transform-length remove_comments_class v h = remove_comments-length v
transform-length remove_nulls_class v h =
    unfold remove_nulls remove_if in length-without (λ c. c == 0) v
transform-length remove_whitespace_class v h =
    unfold remove_whitespace remove_if in length-without is_removed_space v
transform-length replace_comments_class v h = replace_comments-length v
transform-length replace_nulls_class v h = omega (arith, replace_nulls-length v)
transform-length sql_hex_decode_class v h =
    unfold sql_hex_decode in
    omega (arith, scan-length sql_hex_step nothing false v sql_hex_step-Fits)
transform-length trim_left_class v h = unfold ltrim in length-drop_spaces v
transform-length trim_right_class v h = unfold rtrim in length-drop_last_spaces v
transform-length trim_class v h =
    unfold trim ltrim rtrim in
    omega (arith, length-drop_spaces (drop_last_spaces v), length-drop_last_spaces v)
transform-length upper_case_class v h = unfold upper_case in omega (arith, convert-length toupper v)
transform-length url_decode_class v h =
    unfold url_decode urldecode_nonstrict_inplace urldecode_nonstrict_inplace_ext in
    omega (arith, scan-length (url_decode_step true) nothing 0 v (url_decode_step-Fits true))
transform-length url_encode_class v h = elim h [ ]
