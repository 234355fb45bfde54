-- ===== src/Request/Arguments.antt =====
-- extractArguments and addArgument, of src/transaction.cc.
pub mod Extract
pub mod RoundTrip
use mod_security.Prelude.{
  Bool, List, Option, [], false, if◌then◌else◌, leb, length, ltb, none, not, some, true, ℕ, ◌&&◌,
  ◌++◌, ◌+◌, ◌-◌, ◌∷◌,
}
use mod_security.Prelude.Bytes.{Bytes, str_eq}
use mod_security.Prelude.Text.{codes}
use mod_security.Request.Anchored.{AnchoredVariable, set_anchored}
use mod_security.Transformation.Url.{urldecode_nonstrict_inplace}
use mod_security.Utils.Number.{to_string}
use mod_security.Utils.Split.{ssplit, ssplit_pair}

-- An argument: its key, its value, and where the value stands in the request.
pub record Argument : Type 0 where
  pub argument_key : Bytes
  pub argument_value : Bytes
  pub argument_offset : ℕ

-- SecArgumentSeparator, by its first byte, and SecArgumentsLimit, where they are set.
pub record ArgumentConfig : Type 0 where
  pub argument_separator : Option ℕ
  pub arguments_limit : Option ℕ

-- ARGS, ARGS_GET and ARGS_POST in the order of insertion, m_ARGScombinedSizeDouble, which only holds
-- whole numbers, ARGS_COMBINED_SIZE, and whether URLENCODED_ERROR was set.
pub record ArgumentState : Type 0 where
  pub args : List Argument
  pub args_get : List Argument
  pub args_post : List Argument
  pub args_combined_size_double : ℕ
  pub args_combined_size : AnchoredVariable
  pub url_encoded_error : Bool

-- std::to_string of a `double` that is a whole number
unfoldable pub to_string_double : ℕ → Bytes
unfolding to_string
to_string_double n = to_string n ++ codes ".000000"

unfoldable pub over_arguments_limit : Option ℕ → ℕ → Bool
over_arguments_limit none size = false
over_arguments_limit (some limit) size = leb limit size

-- With the answer of the function.
unfoldable pub add_argument :
    ArgumentConfig → Bytes → Bytes → Bytes → ℕ → ArgumentState → ArgumentState × Bool
unfolding over_arguments_limit set_anchored to_string_double str_eq
add_argument config orig key value offset s =
    let offset' = offset + length key + 1 in
    let a : Argument = record {
      argument_key = key;
      argument_value = value;
      argument_offset = offset';
    } in
    let combined = s.args_combined_size_double + length key + length value in
    let first =
      set_anchored (to_string_double combined) (offset' - length key - 1) (length key)
        s.args_combined_size in
    let is_get = str_eq orig (codes "GET") in
    let is_post = not is_get && str_eq orig (codes "POST") in
    if over_arguments_limit config.arguments_limit (length s.args) then (s, false) else (
      record s {
        args = s.args ++ a ∷ [];
        args_get = if is_get then s.args_get ++ a ∷ [] else s.args_get;
        args_post = if is_post then s.args_post ++ a ∷ [] else s.args_post;
        args_combined_size_double = combined;
        args_combined_size = set_anchored (to_string_double combined) offset' (length value) first;
      },
      true,
    )

-- The loop over the fields. Decoding the value overwrites the invalid_count of the key.
unfoldable pub extract_fields :
    ArgumentConfig → Bytes → List Bytes → ℕ → ArgumentState → ArgumentState
unfolding ssplit_pair urldecode_nonstrict_inplace add_argument
extract_fields config orig [] offset s = s
extract_fields config orig (t ∷ rest) offset s =
    let key = urldecode_nonstrict_inplace (ssplit_pair t b'=').0 in
    let value = urldecode_nonstrict_inplace (ssplit_pair t b'=').1 in
    let s' : ArgumentState =
      if ltb 0 value.final then record s { url_encoded_error = true } else s in
    extract_fields config orig rest (offset + length t + 1)
      (add_argument config orig key.value value.value offset s').0

unfoldable pub extract_arguments :
    ArgumentConfig → Bytes → Bytes → ℕ → ArgumentState → ArgumentState
unfolding ssplit extract_fields
extract_arguments config orig buf offset s =
    let sep1 : ℕ = elim config.argument_separator [ some c ↦ c | none ↦ b'&' ] in
    extract_fields config orig (ssplit buf sep1) offset s
