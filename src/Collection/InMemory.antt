-- ===== src/Collection/InMemory.antt =====
-- InMemoryPerProcess, of src/collection/backend/in_memory-per_process.cc, between the locks.
pub mod Lookup
pub mod Unique
pub mod Operations
use mod_security.Collection.Data.{
  CollectionData, is_expired, new_data, set_data_expiry, set_data_value,
}
use mod_security.Prelude.{
  Bool, List, Option, [], false, if◌then◌else◌, none, not, some, true, ℕ, ◌&&◌, ◌++◌, ◌||◌, ◌∷◌,
}
use mod_security.Prelude.Bytes.{Bytes, str_eq}
use mod_security.Request.Anchored.{same_key}

-- m_map: the keys are compared without case.
abbrev pub Table : Type 0
Table = List (Bytes × CollectionData)

-- `emplace`
unfoldable pub emplace : Bytes → CollectionData → Table → Table
emplace key d m = m ++ (key, d) ∷ []

-- `find`
unfoldable pub find_data : Bytes → Table → Option CollectionData
find_data key [] = none
find_data key ((k, d) ∷ m) = if same_key k key then some d else find_data key m

-- The first member of the key is changed in place.
unfoldable pub change_first : Bytes → (CollectionData → CollectionData) → Table → Table
change_first key f [] = []
change_first key f ((k, d) ∷ m) =
    if same_key k key then (k, f d) ∷ m else (k, d) ∷ change_first key f m

-- __updateFirst
unfoldable pub update_first : Bytes → Bytes → Table → Table × Bool
unfolding find_data change_first set_data_value
update_first key value m = elim (find_data key m) [
  | none ↦ (m, false)
  | some d ↦ (change_first key (set_data_value value) m, true)
]

unfoldable pub store : Bytes → Bytes → Table → Table
unfolding emplace
store key value m = emplace key (record { data_value = some value; data_expiry = none }) m

unfoldable pub store_or_update_first : Bytes → Bytes → Table → Table
unfolding update_first store
store_or_update_first key value m =
    if (update_first key value m).1 then (update_first key value m).0 else store key value m

-- `erase` takes all members of the key out.
unfoldable pub del : Bytes → Table → Table
del key [] = []
del key ((k, d) ∷ m) = if same_key k key then del key m else (k, d) ∷ del key m

-- The test of delIfExpired compares the key with case.
unfoldable pub has_expired : ℕ → Bytes → Table → Bool
unfolding str_eq is_expired
has_expired now key [] = false
has_expired now key ((k, d) ∷ m) = (str_eq k key && is_expired now d) || has_expired now key m

unfoldable pub del_if_expired : ℕ → Bytes → Table → Table
unfolding has_expired del
del_if_expired now key m = if has_expired now key m then del key m else m

-- The seconds are those of an `int32_t` that is not negative.
unfoldable pub set_expiry : ℕ → Bytes → ℕ → Table → Table
unfolding find_data change_first emplace set_data_expiry
set_expiry now key seconds m = elim (find_data key m) [
  | some d ↦ change_first key (set_data_expiry now seconds) m
  | none ↦ emplace key (set_data_expiry now seconds new_data) m
]

-- The loops of the resolving functions: the keys of the expired members of a key, and the values of the
-- others, with their keys.
unfoldable pub expired_keys : ℕ → Bytes → Table → List Bytes
unfolding is_expired
expired_keys now key [] = []
expired_keys now key ((k, d) ∷ m) =
    if same_key k key && is_expired now d
    then k ∷ expired_keys now key m
    else expired_keys now key m

unfoldable pub live_values : ℕ → Bytes → Table → List (Bytes × Bytes)
unfolding is_expired
live_values now key [] = []
live_values now key ((k, d) ∷ m) =
    let rest = live_values now key m in
    let found : List (Bytes × Bytes) = elim d.data_value [ none ↦ rest | some v ↦ (k, v) ∷ rest ] in
    if same_key k key && not (is_expired now d) then found else rest

unfoldable pub del_all_expired : ℕ → List Bytes → Table → Table
unfolding del_if_expired
del_all_expired now [] m = m
del_all_expired now (k ∷ ks) m = del_all_expired now ks (del_if_expired now k m)

-- resolveSingleMatch
unfoldable pub resolve_single_match : ℕ → Bytes → Table → Table × List (Bytes × Bytes)
unfolding expired_keys live_values del_all_expired
resolve_single_match now key m =
    (del_all_expired now (expired_keys now key m) m, live_values now key m)

-- resolveFirst: the loop keeps the last one.
unfoldable pub last_value : List (Bytes × Bytes) → Option Bytes
last_value [] = none
last_value ((k, v) ∷ []) = some v
last_value (p ∷ q ∷ rest) = last_value (q ∷ rest)

unfoldable pub resolve_first_value : ℕ → Bytes → Table → Table × Option Bytes
unfolding expired_keys live_values del_all_expired last_value
resolve_first_value now key m =
    (del_all_expired now (expired_keys now key m) m, last_value (live_values now key m))
