-- ===== src/Collection/InMemory/Lookup.antt =====
-- What a look-up finds behind each change of a table.
use mod_security.Collection.Data.{CollectionData}
use mod_security.Collection.InMemory.{Table, change_first, del, find_data}
use mod_security.Prelude.{
  [], arith, if◌then◌else◌, map, none, refl, some, true, ◌++◌, ◌↔◌, ◌∷◌, ◌≡◌,
}
use mod_security.Prelude.Bytes.{Bytes, str_eq_iff}
use mod_security.Request.Anchored.{same_key}
use mod_security.Utils.Ctype.{tolower}

pub same_key_iff : (a b : Bytes) → (same_key a b ≡ true) ↔ (map tolower a ≡ map tolower b)
unfolding same_key
same_key_iff a b = str_eq_iff (map tolower a) (map tolower b)

pub find_data-append :
    (j k : Bytes) (d : CollectionData) (m : Table)
    → find_data j (m ++ (k, d) ∷ [])
      ≡ elim (find_data j m) [ some x ↦ some x | none ↦ if same_key k j then some d else none ]
unfolding find_data
find_data-append j k d [] = ground arith
find_data-append j k d ((i, x) ∷ m) = ground (arith, find_data-append j k d m)

pub find_data-change_first :
    (j k : Bytes) (f : CollectionData → CollectionData) (m : Table)
    → find_data j (change_first k f m) ≡ (
        if same_key k j
        then elim (find_data k m) [ none ↦ none | some d ↦ some (f d) ]
        else find_data j m)
unfolding find_data change_first
find_data-change_first j k f [] = ground arith
find_data-change_first j k f ((i, x) ∷ m) =
    ground
      (arith, find_data-change_first j k f m, same_key_iff i j, same_key_iff i k, same_key_iff k j)

pub find_data-del :
    (j k : Bytes) (m : Table)
    → find_data j (del k m) ≡ (if same_key k j then none else find_data j m)
unfolding find_data del
find_data-del j k [] = ground arith
find_data-del j k ((i, x) ∷ m) =
    ground (arith, find_data-del j k m, same_key_iff i j, same_key_iff i k, same_key_iff k j)

-- Keys that are the same are looked up alike.
pub find_data-same_key :
    (j k : Bytes) (m : Table) → same_key k j ≡ true → find_data j m ≡ find_data k m
unfolding find_data
find_data-same_key j k [] h = refl
find_data-same_key j k ((i, x) ∷ m) h =
    ground (arith, find_data-same_key j k m, same_key_iff i j, same_key_iff i k, same_key_iff k j)
