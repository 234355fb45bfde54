-- ===== src/Collection/SetVar/Score.antt =====
-- Scores that rules add up by setvar.
use mod_security.Collection.Data.{is_expired}
use mod_security.Collection.InMemory.{
  Table, del_all_expired, find_data, resolve_first_value, store_or_update_first,
}
use mod_security.Collection.InMemory.Lookup.{same_key_iff}
use mod_security.Collection.InMemory.Operations.Refinement.{
  resolve-IsUnique, resolve-find, store-IsUnique, store-find,
}
use mod_security.Collection.InMemory.Unique.{
  IsUnique, absent_loops, last_value-live_values, live_values-single,
}
use mod_security.Collection.SetVar.{
  add_scores, evaluate_set_var, first_number, number_or_zero, resolve_multi_matches, save_number,
  sum_and_set_operation, written_number,
}
use mod_security.Prelude.{
  List, [], ap, arith, false, inl, inr, none, refl, some, subst, ℕ, ◌+◌, ◌∙◌, ◌∷◌, ◌≡◌, ◌≤◌, ◌⊎◌,
}
use mod_security.Prelude.Bytes.{Bytes}
use mod_security.Prelude.Int.{pos, ◌+ℤ◌}
use mod_security.Request.Anchored.{is_empty}
use mod_security.Utils.Number.{to_string}
use mod_security.Utils.Number.Digits.{stoi-to_string}

abbrev pub total : List ℕ → ℕ
total [] = 0
total (n ∷ rest) = n + total rest

-- The key has the number, with no expiry.
abbrev HasScore : Bytes → ℕ → Table → Type 0
HasScore key v m =
    find_data key m ≡ some (record { data_value = some (to_string v); data_expiry = none })

-- What is read of a key that has a number, or of one that is not there.
abbrev Reads : ℕ → Bytes → ℕ → Table → Type 0
Reads now key v m =
    let found = resolve_multi_matches now key (λ k. false) m in
    (first_number found.1 ≡ pos v)
    × IsUnique found.0
    × ((find_data key found.0 ≡ none) ⊎ HasScore key v found.0)

number_or_zero-to_string : (n : ℕ) → n ≤ 2147483647 → number_or_zero (to_string n) ≡ pos n
unfolding number_or_zero
number_or_zero-to_string n h = ground (arith, stoi-to_string n h)

written_number-pos : (n : ℕ) → n ≤ 2147483647 → written_number (pos n) ≡ some (to_string n)
unfolding written_number
written_number-pos n h = ground arith

sum_pos : (v n : ℕ) → pos v +ℤ pos n ≡ pos (v + n)
unfolding ◌+ℤ◌
sum_pos v n = ground arith

module _ (now : ℕ) (key : Bytes) (named : is_empty key ≡ false) where
  Reads-score :
      (v : ℕ) (m : Table) → IsUnique m → HasScore key v m → v ≤ 2147483647 → Reads now key v m
  unfolding resolve_multi_matches first_number
  Reads-score v m h f b =
      let single = live_values-single now key (to_string v) m h f in
      let same = resolve-find key m now key h in
      let unique = resolve-IsUnique key m now h in
      let kept : HasScore key v (resolve_first_value now key m).0 =
        unfold is_expired in ground (arith, same, f, same_key_iff key key) in
      let number = number_or_zero-to_string v b in
      unfold resolve_first_value in rw (named, single.1) (number, unique, inr kept)

  Reads-absent : (m : Table) → IsUnique m → find_data key m ≡ none → Reads now key 0 m
  unfolding resolve_multi_matches first_number del_all_expired
  Reads-absent m h f =
      let gone = absent_loops now key m f in rw (named, gone.0, gone.1) (refl, h, inl f)

  -- One sum.
  sum_score :
      (v n : ℕ) (m : Table)
      → Reads now key v m
      → v + n ≤ 2147483647
      → (m' : Table) × (evaluate_set_var now sum_and_set_operation key (to_string n) m ≡ some m')
        × HasScore key (v + n) m'
        × IsUnique m'
  unfolding evaluate_set_var save_number
  sum_score v n m r b =
      let found = resolve_multi_matches now key (λ k. false) m in
      let value = to_string (v + n) in
      let saved = store-find key found.0 value key in
      (
        store_or_update_first key value found.0,
        rw (
          r.0,
          number_or_zero-to_string n (omega arith),
          sum_pos v n,
          written_number-pos (v + n) b,
        ),
        elim r.2 [
          | inl n ↦ ground (arith, saved, n, same_key_iff key key)
          | inr y ↦ ground (arith, saved, y, same_key_iff key key)
        ],
        store-IsUnique key found.0 value r.1,
      )

  add_scores-step :
      (n : ℕ) (rest : List ℕ) (m m' : Table)
      → evaluate_set_var now sum_and_set_operation key (to_string n) m ≡ some m'
      → add_scores now key (n ∷ rest) m ≡ add_scores now key rest m'
  unfolding add_scores
  add_scores-step n rest m m' h = ground (arith, h)

  add_scores-total :
      (ns : List ℕ) (v : ℕ) (m : Table)
      → IsUnique m
      → HasScore key v m
      → v + total ns ≤ 2147483647
      → (m' : Table) × (add_scores now key ns m ≡ some m')
        × HasScore key (v + total ns) m'
        × IsUnique m'
  unfolding add_scores
  add_scores-total [] v m h f b = (m, refl, ground (arith, f), h)
  add_scores-total (n ∷ rest) v m h f b =
      let one = sum_score v n m (Reads-score v m h f (omega arith)) (omega arith) in
      let ih = add_scores-total rest (v + n) one.0 one.3 one.2 (omega arith) in
      let sum : v + n + total rest ≡ v + (n + total rest) = omega arith in
      (
        ih.0,
        add_scores-step n rest m one.0 one.1 ∙ ih.1,
        subst (λ k. HasScore key k ih.0) sum ih.2,
        ih.3,
      )

  -- Scores add up: on a key that is not there, with a name that is not empty, in a table that has no key
  -- twice, the setvars that count it up by numbers, at least one, leave the digits of their sum, which
  -- is what a look-up answers; where the sum is an `int` (the setvar reads and writes `int`s).
  pub add_scores-total_from :
      (n : ℕ) (rest : List ℕ) (m : Table)
      → IsUnique m
      → find_data key m ≡ none
      → total (n ∷ rest) ≤ 2147483647
      → (m' : Table) × (add_scores now key (n ∷ rest) m ≡ some m')
        × ((resolve_first_value now key m').1 ≡ some (to_string (total (n ∷ rest))))
  add_scores-total_from n rest m h f b =
      let one = sum_score 0 n m (Reads-absent m h f) (omega arith) in
      let all = add_scores-total rest (0 + n) one.0 one.3 one.2 (omega arith) in
      let read = last_value-live_values now key all.0 all.3 in
      let sum : 0 + n + total rest ≡ n + total rest = omega arith in
      (
        all.0,
        add_scores-step n rest m one.0 one.1 ∙ all.1,
        unfold resolve_first_value is_expired in read ∙ rw all.2 (ap (λ k. some (to_string k)) sum),
      )
