-- ===== src/Collection/SetVar.antt =====
-- SetVar::evaluate, of src/actions/set_var.cc, on the collection of its variable.
pub mod Score
use mod_security.Collection.Data.{is_expired}
use mod_security.Collection.InMemory.{
  Table, del, del_all_expired, expired_keys, live_values, store_or_update_first,
}
use mod_security.Prelude.{
  Bool, List, Option, [], false, if◌then◌else◌, map, none, not, reverse, some, ℕ, ◌&&◌, ◌||◌, ◌∷◌,
}
use mod_security.Prelude.Bytes.{Bytes}
use mod_security.Prelude.Int.{leb_ℤ, negsuc, pos, ℤ, ◌+ℤ◌, ◌-ℤ◌}
use mod_security.Prelude.Text.{codes}
use mod_security.Request.Anchored.{is_empty}
use mod_security.Utils.Number.{stoi, to_string, to_string_ℤ}

pub data SetVarOperation : Type 0 where
  set_operation sum_and_set_operation substract_and_set_operation : SetVarOperation
  set_to_one_operation unset_operation : SetVarOperation

-- The members that are read with no key, where `to_omit` are the exclusions of the variable.
unfoldable pub all_live : ℕ → (Bytes → Bool) → Table → List (Bytes × Bytes)
all_live now to_omit [] = []
all_live now to_omit ((k, d) ∷ m) =
    let rest = all_live now to_omit m in
    let found : List (Bytes × Bytes) = elim d.data_value [ none ↦ rest | some v ↦ (k, v) ∷ rest ] in
    if to_omit k || is_expired now d then rest else found

unfoldable pub all_expired : ℕ → (Bytes → Bool) → Table → List Bytes
all_expired now to_omit [] = []
all_expired now to_omit ((k, d) ∷ m) =
    let rest = all_expired now to_omit m in
    if not (to_omit k) && is_expired now d then k ∷ rest else rest

-- resolveMultiMatches: each value is put before those that were found.
unfoldable pub resolve_multi_matches :
    ℕ → Bytes → (Bytes → Bool) → Table → Table × List (Bytes × Bytes)
unfolding all_live all_expired is_empty
resolve_multi_matches now var to_omit m =
    if is_empty var
    then (del_all_expired now (all_expired now to_omit m) m, reverse (all_live now to_omit m))
    else if to_omit var
    then (m, [])
    else (
      del_all_expired now (expired_keys now var m) m,
      reverse (map (λ p. (var, p.1)) (live_values now var m)),
    )

-- `stoi`, with 0 for its exceptions
unfoldable pub number_or_zero : Bytes → ℤ
number_or_zero s = elim (stoi s) [ none ↦ pos 0 | some n ↦ n ]

-- The first of the values that were found.
unfoldable pub first_number : List (Bytes × Bytes) → ℤ
first_number [] = pos 0
first_number ((k, v) ∷ rest) = number_or_zero v

unfoldable pub is_int : ℤ → Bool
is_int n = leb_ℤ (negsuc 2147483647) n && leb_ℤ n (pos 2147483647)

-- The number that is written; `none` is an overflow of `int`, which the language leaves undefined.
unfoldable pub written_number : ℤ → Option Bytes
unfolding is_int to_string_ℤ
written_number n = if is_int n then some (to_string_ℤ n) else none

unfoldable pub save_number : Bytes → Option Bytes → Table → Option Table
save_number key none m = none
save_number key (some value) m = some (store_or_update_first key value m)

-- Behind the macros of its name and value; the key is that of the collection, and a variable is read
-- before it is counted up or down.
unfoldable pub evaluate_set_var : ℕ → SetVarOperation → Bytes → Bytes → Table → Option Table
evaluate_set_var now set_operation key resolved_pre m =
    some (store_or_update_first key resolved_pre m)
evaluate_set_var now set_to_one_operation key resolved_pre m =
    some (store_or_update_first key (codes "1") m)
evaluate_set_var now unset_operation key resolved_pre m = some (del key m)
evaluate_set_var now sum_and_set_operation key resolved_pre m =
    let found = resolve_multi_matches now key (λ k. false) m in
    save_number key (written_number (first_number found.1 +ℤ number_or_zero resolved_pre)) found.0
evaluate_set_var now substract_and_set_operation key resolved_pre m =
    let found = resolve_multi_matches now key (λ k. false) m in
    save_number key (written_number (first_number found.1 -ℤ number_or_zero resolved_pre)) found.0

-- One `setvar` behind the other.
unfoldable pub add_scores : ℕ → Bytes → List ℕ → Table → Option Table
add_scores now key [] m = some m
add_scores now key (n ∷ rest) m =
    elim (evaluate_set_var now sum_and_set_operation key (to_string n) m) [
      | none ↦ none
      | some m' ↦ add_scores now key rest m'
    ]
