-- ===== src/Request/Arguments/RoundTrip.antt =====
-- extractArguments on a query that is written in percent encoding.
use mod_security.Prelude.{
  List, [], ap, append-nil, append_assoc, arith, false, inl, inr, length, length-append, map,
  map-append, none, not, refl, sym, true, ℕ, ◌&&◌, ◌++◌, ◌+◌, ◌<◌, ◌∙◌, ◌∷◌, ◌≡◌, ◌⊎◌,
}
use mod_security.Prelude.Bytes.{All, AreBytes, Bytes}
use mod_security.Request.Arguments.{
  Argument, ArgumentConfig, ArgumentState, add_argument, extract_arguments, extract_fields,
  over_arguments_limit,
}
use mod_security.Transformation.Url.{url_encode, url_encode_byte}
use mod_security.Transformation.Url.RoundTrip.{url_decode-url_encode}
use mod_security.Utils.Hex.{c2x, check_below, check_below_correct}
use mod_security.Utils.Split.{contains_byte, ssplit, ssplit_from, ssplit_pair}
use mod_security.Utils.Split.Fields.{
  after-field, before-field, contains_byte-append, ssplit_from-field, ssplit_from-last,
}

-- Key and value in percent encoding, with an equals sign between them.
abbrev pub field_of : Bytes × Bytes → Bytes
field_of (key, value) = (url_encode key).0 ++ b'=' ∷ (url_encode value).0

-- The fields with ampersands between them.
abbrev pub query_of : List (Bytes × Bytes) → Bytes
query_of [] = []
query_of (p ∷ []) = field_of p
query_of (p ∷ q ∷ rest) = field_of p ++ b'&' ∷ query_of (q ∷ rest)

-- The two bytes that have a meaning in a query.
abbrev IsSeparator : ℕ → Type 0
IsSeparator d = (d ≡ b'&') ⊎ (d ≡ b'=')

encoded_table :
    check_below 256 (λ c.
      not (contains_byte b'&' (url_encode_byte c)) && not (contains_byte b'=' (url_encode_byte c)))
    ≡ true
unfolding check_below contains_byte url_encode_byte c2x
encoded_table = refl

encoded_byte : (c d : ℕ) → c < 256 → IsSeparator d → contains_byte d (url_encode_byte c) ≡ false
encoded_byte c d h s =
    let t = check_below_correct 256 _ encoded_table c h in
    elim s [ inl e ↦ rw e (ground arith) | inr e ↦ rw e (ground arith) ]

-- No separator is left in an encoded string.
encoded :
    (v : Bytes) (d : ℕ) → AreBytes v → IsSeparator d → contains_byte d (url_encode v).0 ≡ false
unfolding url_encode
encoded [] d h s = unfold contains_byte in refl
encoded (c ∷ rest) d h s = ground (
  arith,
  contains_byte-append d (url_encode_byte c) (url_encode rest).0,
  encoded_byte c d h.0 s,
  encoded rest d h.1 s,
)

-- A pair of a key and a value of bytes.
abbrev pub IsBytePair : Bytes × Bytes → Type 0
IsBytePair (key, value) = AreBytes key × AreBytes value

field_of-ampersand : (p : Bytes × Bytes) → IsBytePair p → contains_byte b'&' (field_of p) ≡ false
field_of-ampersand (key, value) h =
    let k = encoded key b'&' h.0 (inl refl) in
    let v = encoded value b'&' h.1 (inl refl) in
    let all = contains_byte-append b'&' (url_encode key).0 (b'=' ∷ (url_encode value).0) in
    unfold contains_byte in ground arith

ssplit-query_of :
    (l : List (Bytes × Bytes)) → All IsBytePair l → ssplit (query_of l) b'&' ≡ map field_of l
unfolding ssplit
ssplit-query_of [] h = unfold ssplit_from in refl
ssplit-query_of (p ∷ []) h =
    let more = length-append (url_encode p.0).0 (b'=' ∷ (url_encode p.1).0) in
    ssplit_from-last b'&' [] (field_of p) (field_of-ampersand p h.0) (omega arith)
ssplit-query_of (p ∷ q ∷ rest) h =
    ssplit_from-field b'&' [] (field_of p) (query_of (q ∷ rest)) (field_of-ampersand p h.0)
    ∙ ap (λ l. field_of p ∷ l) (ssplit-query_of (q ∷ rest) h.1)

abbrev pub pairs_of : List Argument → List (Bytes × Bytes)
pairs_of l = map (λ a. (a.argument_key, a.argument_value)) l

add_argument-unlimited :
    (config : ArgumentConfig) (orig key value : Bytes) (offset : ℕ) (s : ArgumentState)
    → config.arguments_limit ≡ none
    → let s' = (add_argument config orig key value offset s).0 in
      (pairs_of s'.args ≡ pairs_of s.args ++ (key, value) ∷ [])
      × (s'.url_encoded_error ≡ s.url_encoded_error)
unfolding add_argument over_arguments_limit
add_argument-unlimited config orig key value offset s e = rw e (map-append _ s.args _, refl)

extract_fields-step :
    (config : ArgumentConfig) (orig : Bytes) (p : Bytes × Bytes) (l : List Bytes) (offset : ℕ)
    (s : ArgumentState)
    → IsBytePair p
    → extract_fields config orig (field_of p ∷ l) offset s
      ≡ extract_fields config orig l
          (offset + length (field_of p) + 1)
          (add_argument config orig p.0 p.1 offset s).0
unfolding extract_fields ssplit_pair
extract_fields-step config orig (key, value) l offset s h =
    let k = encoded key b'=' h.0 (inr refl) in
    let first = before-field b'=' (url_encode key).0 (url_encode value).0 k in
    let second = after-field b'=' (url_encode key).0 (url_encode value).0 k in
    let d = url_decode-url_encode key h.0 in
    let d' = url_decode-url_encode value h.1 in rw (first, second) (rw (d.0, d'.0, d'.1) refl)

extract_fields-field_of :
    (config : ArgumentConfig) (orig : Bytes) (l : List (Bytes × Bytes)) (offset : ℕ)
    (s : ArgumentState)
    → config.arguments_limit ≡ none
    → All IsBytePair l
    → let s' = extract_fields config orig (map field_of l) offset s in
      (pairs_of s'.args ≡ pairs_of s.args ++ l) × (s'.url_encoded_error ≡ s.url_encoded_error)
extract_fields-field_of config orig [] offset s e h =
    unfold extract_fields in (sym (append-nil (pairs_of s.args)), refl)
extract_fields-field_of config orig (p ∷ rest) offset s e h =
    let s' = (add_argument config orig p.0 p.1 offset s).0 in
    let offset' = offset + length (field_of p) + 1 in
    let ih = extract_fields-field_of config orig rest offset' s' e h.1 in
    let one = add_argument-unlimited config orig p.0 p.1 offset s e in
    rw (extract_fields-step config orig p (map field_of rest) offset s h.0) (
      ih.0 ∙ ap (λ l. l ++ rest) one.0 ∙ append_assoc (pairs_of s.args) (p ∷ []) rest,
      ih.1 ∙ one.1,
    )

-- From a query or a form of percent-encoded keys and values, with equals signs and ampersands,
-- extractArguments adds to ARGS just these keys and values, in their order, where there is no limit
-- on arguments and no other separator; and it does not report an encoding error.
pub extract_arguments-query_of :
    (config : ArgumentConfig) (orig : Bytes) (l : List (Bytes × Bytes)) (offset : ℕ)
    (s : ArgumentState)
    → config.arguments_limit ≡ none
    → config.argument_separator ≡ none
    → All IsBytePair l
    → let s' = extract_arguments config orig (query_of l) offset s in
      (pairs_of s'.args ≡ pairs_of s.args ++ l) × (s'.url_encoded_error ≡ s.url_encoded_error)
unfolding extract_arguments
extract_arguments-query_of config orig l offset s e sep h =
    rw (sep, ssplit-query_of l h) (extract_fields-field_of config orig l offset s e h)
