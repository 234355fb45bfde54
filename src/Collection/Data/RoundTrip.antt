-- ===== src/Collection/Data/RoundTrip.antt =====
-- Reading back what was written to the data base.
use mod_security.Collection.Data.{
  CollectionData, expiry_prefix, get_serialized, parse_behind_expiry, parse_fields, parse_value,
  set_from_serialized, value_prefix,
}
use mod_security.Prelude.{
  Option, [], ap, append_assoc, arith, drop-append_length, get_or-append_length, leb, length,
  length-append, ltb, none, refl, some, suc, sym, take-append_length, true, ℕ, ◌++◌, ◌-◌, ◌<◌, ◌∙◌,
  ◌∷◌, ◌≡◌, ◌≤◌,
}
use mod_security.Prelude.Bytes.{Bytes}
use mod_security.Utils.Number.{to_string}
use mod_security.Utils.Number.Digits.{length-to_string_ten, to_string_facts}

-- The value stands behind its prefix, up to the quote and the bracket.
parse_value-written :
    (expiry : Option ℕ) (value : Bytes)
    → parse_value expiry (value_prefix ++ ((value ++ 34 ∷ []) ++ b'}' ∷ []))
      ≡ some (record { data_value = some value; data_expiry = expiry })
unfolding parse_value
parse_value-written expiry value =
    let tail = append_assoc value (34 ∷ []) (b'}' ∷ []) in
    let n : length (value ++ 34 ∷ b'}' ∷ []) - 2 ≡ length value =
      omega (arith, length-append value (34 ∷ b'}' ∷ [])) in
    let m : leb 2 (length (value ++ 34 ∷ b'}' ∷ [])) ≡ true =
      ground (arith, length-append value (34 ∷ b'}' ∷ [])) in
    rw (
      tail,
      n,
      m,
      get_or-append_length value (b'}' ∷ []) 34 0,
      take-append_length value (34 ∷ b'}' ∷ []) (length value) refl,
    )

-- A text of the format is read as its fields.
braced :
    (fields : Bytes) (d : CollectionData)
    → parse_fields (fields ++ b'}' ∷ []) ≡ some d
    → set_from_serialized (b'{' ∷ (fields ++ b'}' ∷ [])) ≡ d
unfolding set_from_serialized
braced fields d h =
    let n : suc (length (fields ++ b'}' ∷ [])) - 1 ≡ suc (length fields) =
      omega (arith, length-append fields (b'}' ∷ [])) in
    rw (n, get_or-append_length fields [] b'}' 0, h)

-- Ten digits of a time are read as that time.
parse_fields-time :
    (time : ℕ) (rest : Bytes)
    → 1000000000 ≤ time
    → time < 10000000000
    → parse_fields (expiry_prefix ++ (to_string time ++ rest)) ≡ parse_behind_expiry time rest
unfolding parse_fields
parse_fields-time time rest lo hi =
    let ten : length (to_string time) ≡ 10 = length-to_string_ten time lo hi in
    let facts = to_string_facts time in
    let positive : ltb 0 time ≡ true = ground arith in
    rw (
      take-append_length (to_string time) rest 10 ten,
      drop-append_length (to_string time) rest 10 ten,
      facts.0,
      facts.1,
      positive,
    )

-- Something is written: a value, or a time of ten digits, or both.
abbrev pub IsWritten : Option Bytes → Option ℕ → Type 0
IsWritten none none = ⊥
IsWritten (some value) none = Unit
IsWritten value (some time) = (1000000000 ≤ time) × (time < 10000000000)

written_data :
    (value : Option Bytes) (expiry : Option ℕ)
    → IsWritten value expiry
    → set_from_serialized (get_serialized (record { data_value = value; data_expiry = expiry }))
      ≡ record { data_value = value; data_expiry = expiry }
unfolding get_serialized
written_data none none h = elim h [ ]
written_data (some value) none h =
    let field_text = value_prefix ++ (value ++ 34 ∷ []) in
    let parsed : parse_fields (field_text ++ b'}' ∷ [])
        ≡ some (record { data_value = some value; data_expiry = none }) =
      unfold parse_fields in parse_value-written none value in
    braced field_text (record { data_value = some value; data_expiry = none }) parsed
written_data none (some time) h =
    let field_text = expiry_prefix ++ to_string time in
    let d : CollectionData = record { data_value = none; data_expiry = some time } in
    let parsed : parse_fields (field_text ++ b'}' ∷ []) ≡ some d =
      parse_fields-time time (b'}' ∷ []) h.0 h.1 ∙ unfold parse_behind_expiry in refl in
    braced field_text d parsed
written_data (some value) (some time) h =
    let d : CollectionData = record { data_value = some value; data_expiry = some time } in
    let behind = b',' ∷ (value_prefix ++ (value ++ 34 ∷ [])) in
    let regroup = append_assoc (to_string time) behind (b'}' ∷ []) in
    let parsed : parse_behind_expiry time (behind ++ b'}' ∷ []) ≡ some d =
      unfold parse_behind_expiry in parse_value-written (some time) value in
    ap (λ l. set_from_serialized (b'{' ∷ (expiry_prefix ++ l))) (sym regroup)
    ∙ braced (expiry_prefix ++ (to_string time ++ behind)) d (
        ap (λ l. parse_fields (expiry_prefix ++ l)) regroup
        ∙ parse_fields-time time (behind ++ b'}' ∷ []) h.0 h.1
        ∙ parsed)

-- Whatever bytes a value has, quotes and brackets included, it is read back from its text in the data
-- base, with its expiry where it has one, and an expiry is read back that has no value; for times of
-- ten digits, from 2001 on.
pub set_from_serialized-get_serialized :
    (d : CollectionData)
    → IsWritten d.data_value d.data_expiry
    → set_from_serialized (get_serialized d) ≡ d
set_from_serialized-get_serialized d h = written_data d.data_value d.data_expiry h
