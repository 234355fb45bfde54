-- ===== src/Collection/InMemory/Operations.antt =====
-- The operations of a collection in the order in which they come, each at its time, and the map that
-- they are meant to keep.
pub mod Refinement
use mod_security.Collection.Data.{CollectionData, is_expired}
use mod_security.Collection.InMemory.{
  Table, del, resolve_first_value, set_expiry, store_or_update_first, update_first,
}
use mod_security.Prelude.{Bool, List, Option, [], false, if◌then◌else◌, none, some, ℕ, ◌+◌, ◌∷◌}
use mod_security.Prelude.Bytes.{Bytes}
use mod_security.Request.Anchored.{same_key}

pub data Operation : Type 0 where
  stores : Bytes → Bytes → Operation
  updates : Bytes → Bytes → Operation
  deletes : Bytes → Operation
  expires : Bytes → ℕ → Operation
  resolves : Bytes → Operation

-- An operation on the table, with the value that a look-up answers.
unfoldable pub run_operation : ℕ → Operation → Table → Table × Option Bytes
run_operation now (stores key value) m = (store_or_update_first key value m, none)
run_operation now (updates key value) m = ((update_first key value m).0, none)
run_operation now (deletes key) m = (del key m, none)
run_operation now (expires key seconds) m = (set_expiry now key seconds m, none)
run_operation now (resolves key) m = resolve_first_value now key m

-- The answers of a sequence of operations, and the table behind it.
unfoldable pub run_operations : List (ℕ × Operation) → Table → Table × List (Option Bytes)
run_operations [] m = (m, [])
run_operations ((now, o) ∷ rest) m =
    let (m', answer) = run_operation now o m in
    let (m'', answers) = run_operations rest m' in (m'', answer ∷ answers)

-- At most one value for a key, with its expiry.
abbrev pub Entries : Type 0
Entries = Bytes → Option CollectionData

-- Whether what a key has is expired, and what is read of it.
abbrev pub found_expired : ℕ → Option CollectionData → Bool
found_expired now none = false
found_expired now (some d) = is_expired now d

abbrev pub found_value : ℕ → Option CollectionData → Option Bytes
found_value now none = none
found_value now (some d) = if is_expired now d then none else d.data_value

-- One key is given something else; `same_key` is how the keys are compared.
abbrev pub put : Bytes → Option CollectionData → Entries → Entries
put key d e = λ j. if same_key key j then d else e j

abbrev pub with_value : Bytes → Option CollectionData → CollectionData
with_value value none = record { data_value = some value; data_expiry = none }
with_value value (some d) = record d { data_value = some value }

abbrev pub with_expiry : ℕ → Option CollectionData → CollectionData
with_expiry time none = record { data_value = none; data_expiry = some time }
with_expiry time (some d) = record d { data_expiry = some time }

-- What each operation means: a value is stored and keeps an expiry that is there, an update does
-- nothing without a value or an expiry, a look-up answers what has not expired and forgets what has.
abbrev pub meaning : ℕ → Operation → Entries → Entries × Option Bytes
meaning now (stores key value) e = (put key (some (with_value value (e key))) e, none)
meaning now (updates key value) e =
    (put key (elim (e key) [ none ↦ none | some d ↦ some (with_value value (some d)) ]) e, none)
meaning now (deletes key) e = (put key none e, none)
meaning now (expires key seconds) e = (put key (some (with_expiry (now + seconds) (e key))) e, none)
meaning now (resolves key) e =
    (put key (if found_expired now (e key) then none else e key) e, found_value now (e key))

abbrev pub meanings : List (ℕ × Operation) → Entries → Entries × List (Option Bytes)
meanings [] e = (e, [])
meanings ((now, o) ∷ rest) e =
    let (e', answer) = meaning now o e in
    let (e'', answers) = meanings rest e' in (e'', answer ∷ answers)
