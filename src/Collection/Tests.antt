-- ===== src/Collection/Tests.antt =====
-- Small tables of a collection.
use mod_security.Collection.Data.{get_serialized, new_data, parse_fields, set_from_serialized}
use mod_security.Collection.Data.RoundTrip.{set_from_serialized-get_serialized}
use mod_security.Collection.InMemory.{
  Table, del, find_data, has_expired, resolve_first_value, set_expiry, store_or_update_first,
}
use mod_security.Collection.InMemory.Operations.{
  Operation, expires, meanings, resolves, run_operation, run_operations, stores, updates,
}
use mod_security.Collection.InMemory.Operations.Refinement.{Refines, run_operations-Refines}
use mod_security.Collection.InMemory.Unique.{IsUnique}
use mod_security.Collection.SetVar.{add_scores}
use mod_security.Collection.SetVar.Score.{add_scores-total_from}
use mod_security.Prelude.{List, [], arith, none, refl, some, ℕ, ◌∷◌, ◌≡◌}
use mod_security.Prelude.Text.{codes}
use mod_security.Request.Anchored.{is_empty, same_key}
use mod_security.Utils.Number.{all_digits, leading_digits, to_string}

abbrev expired_table : Table
expired_table =
    (codes "score", record { data_value = some (codes "5"); data_expiry = some 100 }) ∷ []

abbrev steps : List (ℕ × Operation)
steps =
    (1, stores (codes "Score") (codes "7"))
    ∷ (2, expires (codes "score") 10)
    ∷ (3, updates (codes "SCORE") (codes "8"))
    ∷ (4, resolves (codes "score"))
    ∷ (12, resolves (codes "score"))
    ∷ (13, resolves (codes "score"))
    ∷ []

run_operations-Refines_example :
    ((run_operations steps []).1 ≡ (meanings steps (λ k. none)).1)
    × Refines (run_operations steps []).0 (meanings steps (λ k. none)).0
    × IsUnique (run_operations steps []).0
unfolding find_data
run_operations-Refines_example = run_operations-Refines steps [] (λ k. none) tt (λ j. refl)

steps_answers :
    (run_operations steps []).1 ≡ none ∷ none ∷ none ∷ some (codes "8") ∷ none ∷ none ∷ []
unfolding run_operations run_operation same_key store_or_update_first set_expiry resolve_first_value
    has_expired del
steps_answers = refl

-- A value that is stored over one that has expired is not read: it keeps the old expiry.
stored_over_expired :
    (resolve_first_value 200
      (codes "score")
      (store_or_update_first (codes "score") (codes "9") expired_table)).1
    ≡ none
unfolding store_or_update_first resolve_first_value same_key has_expired del
stored_over_expired = refl

set_from_serialized-get_serialized_example :
    set_from_serialized
      (get_serialized (record { data_value = some (codes "a\"}"); data_expiry = some 1700000000 }))
    ≡ record { data_value = some (codes "a\"}"); data_expiry = some 1700000000 }
set_from_serialized-get_serialized_example =
    set_from_serialized-get_serialized
      (record { data_value = some (codes "a\"}"); data_expiry = some 1700000000 })
      (omega arith, omega arith)

-- With neither, what is read back is the text itself.
nothing_written :
    set_from_serialized (get_serialized new_data)
    ≡ record { data_value = some (codes "{}"); data_expiry = none }
unfolding get_serialized set_from_serialized parse_fields all_digits leading_digits
nothing_written = refl

add_scores-total_from_example :
    (m' : Table) × (add_scores 0 (codes "score") (5 ∷ 3 ∷ []) [] ≡ some m')
    × ((resolve_first_value 0 (codes "score") m').1 ≡ some (to_string 8))
unfolding is_empty find_data
add_scores-total_from_example =
    add_scores-total_from 0 (codes "score") refl 5 (3 ∷ []) [] tt refl (omega arith)
