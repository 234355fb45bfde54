-- ===== src/Transformation/Classes.antt =====
-- The classes of transformations with their `transform`, as they are called through the base class: those
-- that Transformation::instantiate makes (src/actions/transformations/transformation.cc), but for
-- base64Decode, base64DecodeExt, base64Encode, htmlEntityDecode, md5, sha1, urlDecodeUni and
-- utf8toUnicode.
use mod_security.Prelude.{Bool, false, true}
use mod_security.Prelude.Bytes.{Bytes}
use mod_security.Transformation.Bytewise.{
  length_of, lower_case, parity, parity_zero, remove_nulls, remove_whitespace, replace_nulls,
  unchanged, upper_case,
}
use mod_security.Transformation.Comments.{remove_comments, remove_comments_char, replace_comments}
use mod_security.Transformation.Escapes.{css_decode, escape_seq_decode, js_decode}
use mod_security.Transformation.Hex.{hex_decode, hex_encode, sql_hex_decode}
use mod_security.Transformation.Path.{normalize_path_inplace}
use mod_security.Transformation.Url.{url_decode, url_encode}
use mod_security.Transformation.Whitespace.{cmd_line, compress_whitespace, ltrim, rtrim, trim}

pub data TransformationClass : Type 0 where
  cmd_line_class : TransformationClass
  compress_whitespace_class : TransformationClass
  css_decode_class : TransformationClass
  escape_seq_decode_class : TransformationClass
  hex_decode_class : TransformationClass
  hex_encode_class : TransformationClass
  js_decode_class : TransformationClass
  length_class : TransformationClass
  lower_case_class : TransformationClass
  none_class : TransformationClass
  normalise_path_class : TransformationClass
  normalise_path_win_class : TransformationClass
  parity_even_class : TransformationClass
  parity_odd_class : TransformationClass
  parity_zero_class : TransformationClass
  remove_comments_char_class : TransformationClass
  remove_comments_class : TransformationClass
  remove_nulls_class : TransformationClass
  remove_whitespace_class : TransformationClass
  replace_comments_class : TransformationClass
  replace_nulls_class : TransformationClass
  sql_hex_decode_class : TransformationClass
  trim_left_class : TransformationClass
  trim_right_class : TransformationClass
  trim_class : TransformationClass
  upper_case_class : TransformationClass
  url_decode_class : TransformationClass
  url_encode_class : TransformationClass

unfoldable pub transform : TransformationClass → Bytes → Bytes × Bool
unfolding cmd_line compress_whitespace css_decode escape_seq_decode hex_decode hex_encode js_decode
    length_of lower_case unchanged parity parity_zero remove_comments_char remove_comments
    remove_nulls remove_whitespace replace_comments replace_nulls sql_hex_decode ltrim rtrim trim
    upper_case url_decode url_encode
transform cmd_line_class v = cmd_line v
transform compress_whitespace_class v = compress_whitespace v
transform css_decode_class v = css_decode v
transform escape_seq_decode_class v = escape_seq_decode v
transform hex_decode_class v = hex_decode v
transform hex_encode_class v = hex_encode v
transform js_decode_class v = js_decode v
transform length_class v = length_of v
transform lower_case_class v = lower_case v
transform none_class v = unchanged v
transform normalise_path_class v = normalize_path_inplace v false
transform normalise_path_win_class v = normalize_path_inplace v true
transform parity_even_class v = parity true v
transform parity_odd_class v = parity false v
transform parity_zero_class v = parity_zero v
transform remove_comments_char_class v = remove_comments_char v
transform remove_comments_class v = remove_comments v
transform remove_nulls_class v = remove_nulls v
transform remove_whitespace_class v = remove_whitespace v
transform replace_comments_class v = replace_comments v
transform replace_nulls_class v = replace_nulls v
transform sql_hex_decode_class v = sql_hex_decode v
transform trim_left_class v = ltrim v
transform trim_right_class v = rtrim v
transform trim_class v = trim v
transform upper_case_class v = upper_case v
transform url_decode_class v = url_decode v
transform url_encode_class v = url_encode v
