-- ===== src/Collection/Data.antt =====
-- CollectionData, of src/collection/backend/collection_data.cc: a value with an expiry, and its text in
-- the data base.
pub mod RoundTrip
use mod_security.Prelude.{
  Bool, Option, [], drop, false, get_or, if◌then◌else◌, leb, length, ltb, none, not, some, take, ℕ,
  ◌&&◌, ◌++◌, ◌+◌, ◌-◌, ◌==◌, ◌∷◌,
}
use mod_security.Prelude.Bytes.{Bytes}
use mod_security.Prelude.Text.{codes}
use mod_security.Utils.Number.{all_digits, leading_digits, to_string}
use mod_security.Utils.Replace.{starts_with}

-- The value where there is one, and the expiry where there is one, in seconds since the epoch.
pub record CollectionData : Type 0 where
  pub data_value : Option Bytes
  pub data_expiry : Option ℕ

abbrev pub new_data : CollectionData
new_data = record { data_value = none; data_expiry = none }

-- setValue
unfoldable pub set_data_value : Bytes → CollectionData → CollectionData
set_data_value value d = record d { data_value = some value }

-- setExpiry, at the time `now`
unfoldable pub set_data_expiry : ℕ → ℕ → CollectionData → CollectionData
set_data_expiry now seconds d = record d { data_expiry = some (now + seconds) }

unfoldable pub is_expired : ℕ → CollectionData → Bool
is_expired now d = elim d.data_expiry [ none ↦ false | some time ↦ leb time now ]

abbrev pub expiry_prefix : Bytes
expiry_prefix = codes "\"__expire_\":"

abbrev pub value_prefix : Bytes
value_prefix = codes "\"__value_\":\""

-- getSerialized
unfoldable pub get_serialized : CollectionData → Bytes
get_serialized d =
    let expiry : Bytes = elim d.data_expiry [
      | none ↦ []
      | some time ↦ expiry_prefix ++ to_string time
    ] in
    let comma : Bytes = elim d.data_expiry [
      | none ↦ []
      | some time ↦ elim d.data_value [ none ↦ [] | some value ↦ b',' ∷ [] ]
    ] in
    let value : Bytes = elim d.data_value [
      | none ↦ []
      | some value ↦ value_prefix ++ (value ++ 34 ∷ [])
    ] in
    b'{' ∷ (expiry ++ (comma ++ (value ++ b'}' ∷ [])))

-- The value at `rest`, up to the quote and the bracket at the end.
unfoldable pub parse_value : Option ℕ → Bytes → Option CollectionData
unfolding starts_with
parse_value expiry rest =
    let tail = drop (length value_prefix) rest in
    let quote = length tail - 2 in
    if starts_with value_prefix rest && (leb 2 (length tail) && get_or tail quote 0 == 34)
    then some (record { data_value = some (take quote tail); data_expiry = expiry })
    else none

-- What stands behind an expiry above 0.
unfoldable pub parse_behind_expiry : ℕ → Bytes → Option CollectionData
unfolding parse_value starts_with
parse_behind_expiry time rest =
    if starts_with (codes ",") rest
    then parse_value (some time) (drop 1 rest)
    else if length rest == 1
    then some (record { data_value = none; data_expiry = some time })
    else none

-- What stands behind the first bracket; `none` is an invalid format.
unfoldable pub parse_fields : Bytes → Option CollectionData
unfolding starts_with parse_behind_expiry parse_value
parse_fields rest =
    let behind = drop (length expiry_prefix) rest in
    let digits = take 10 behind in
    let time = leading_digits 0 digits in
    if not (starts_with expiry_prefix rest)
    then parse_value none rest
    else if not (all_digits digits)
    then none
    else if ltb 0 time
    then parse_behind_expiry time (drop 10 behind)
    else parse_value none (drop 10 behind)

-- setFromSerialized, on a new CollectionData: what is not in the format is a value as it stands.
unfoldable pub set_from_serialized : Bytes → CollectionData
unfolding parse_fields starts_with
set_from_serialized s =
    let plain : CollectionData = record { data_value = some s; data_expiry = none } in
    let parsed : CollectionData = elim (parse_fields (drop 1 s)) [ none ↦ plain | some d ↦ d ] in
    if starts_with (codes "{") s && get_or s (length s - 1) 0 == b'}' then parsed else plain
