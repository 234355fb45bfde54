-- ===== src/Collection/InMemory/Operations/Refinement.antt =====
-- A table with no key twice refines the map of its keys.
use mod_security.Collection.Data.{new_data, set_data_expiry, set_data_value}
use mod_security.Collection.InMemory.{
  Table, change_first, emplace, find_data, resolve_first_value, set_expiry, store_or_update_first,
  update_first,
}
use mod_security.Collection.InMemory.Lookup.{
  find_data-append, find_data-change_first, find_data-del, find_data-same_key, same_key_iff,
}
use mod_security.Collection.InMemory.Operations.{
  Entries, Operation, deletes, expires, found_expired, found_value, meaning, meanings, put,
  resolves, run_operation, run_operations, stores, updates, with_expiry, with_value,
}
use mod_security.Collection.InMemory.Unique.{
  IsUnique, change_first-IsUnique, del-IsUnique, deleted, emplace-IsUnique, last_value-live_values,
}
use mod_security.Prelude.{
  List, Option-cases, [], ap, arith, if◌then◌else◌, inl, inr, none, refl, some, subst, sym, ℕ, ◌+◌,
  ◌∙◌, ◌∷◌, ◌≡◌,
}
use mod_security.Prelude.Bytes.{Bytes}
use mod_security.Request.Anchored.{same_key}

-- The table finds what the map has.
abbrev pub Refines : Table → Entries → Type 0
Refines m e = (j : Bytes) → find_data j m ≡ e j

module _ (key : Bytes) (m : Table) where
  pub store-find :
      (value j : Bytes)
      → find_data j (store_or_update_first key value m)
        ≡ (if same_key key j then some (with_value value (find_data key m)) else find_data j m)
  unfolding store_or_update_first
  store-find value j = ground (
    arith,
    find_data-append j key (record { data_value = some value; data_expiry = none }) m,
    find_data-change_first j key (set_data_value value) m,
    find_data-same_key j key m,
  )

  pub store-IsUnique : (value : Bytes) → IsUnique m → IsUnique (store_or_update_first key value m)
  unfolding store_or_update_first
  store-IsUnique value h = elim (Option-cases (find_data key m)) [
    | inl n ↦
        let e : store_or_update_first key value m
            ≡ emplace key (record { data_value = some value; data_expiry = none }) m =
          ground (arith, n) in
        subst IsUnique (sym e)
          (emplace-IsUnique key (record { data_value = some value; data_expiry = none }) m n h)
    | inr (d, y) ↦
        let e : store_or_update_first key value m ≡ change_first key (set_data_value value) m =
          ground (arith, y) in
        subst IsUnique (sym e) (change_first-IsUnique key (set_data_value value) m h)
  ]

  update-find :
      (value j : Bytes)
      → find_data j (update_first key value m).0
        ≡ put key
            (elim (find_data key m) [ none ↦ none | some d ↦ some (with_value value (some d)) ])
            (λ i. find_data i m)
            j
  unfolding update_first
  update-find value j =
      ground
        (arith, find_data-change_first j key (set_data_value value) m, find_data-same_key j key m)

  update-IsUnique : (value : Bytes) → IsUnique m → IsUnique (update_first key value m).0
  unfolding update_first
  update-IsUnique value h = elim (Option-cases (find_data key m)) [
    | inl n ↦
        let e : (update_first key value m).0 ≡ m = ground (arith, n) in subst IsUnique (sym e) h
    | inr (d, y) ↦
        let e : (update_first key value m).0 ≡ change_first key (set_data_value value) m =
          ground (arith, y) in
        subst IsUnique (sym e) (change_first-IsUnique key (set_data_value value) m h)
  ]

  expiry-find :
      (now seconds : ℕ) (j : Bytes)
      → find_data j (set_expiry now key seconds m) ≡ (
          if same_key key j
          then some (with_expiry (now + seconds) (find_data key m))
          else find_data j m)
  unfolding set_expiry
  expiry-find now seconds j = ground (
    arith,
    find_data-append j key (set_data_expiry now seconds new_data) m,
    find_data-change_first j key (set_data_expiry now seconds) m,
    find_data-same_key j key m,
  )

  expiry-IsUnique : (now seconds : ℕ) → IsUnique m → IsUnique (set_expiry now key seconds m)
  unfolding set_expiry
  expiry-IsUnique now seconds h = elim (Option-cases (find_data key m)) [
    | inl n ↦
        let e : set_expiry now key seconds m
            ≡ emplace key (set_data_expiry now seconds new_data) m =
          ground (arith, n) in
        subst IsUnique (sym e) (emplace-IsUnique key (set_data_expiry now seconds new_data) m n h)
    | inr (d, y) ↦
        let e : set_expiry now key seconds m ≡ change_first key (set_data_expiry now seconds) m =
          ground (arith, y) in
        subst IsUnique (sym e) (change_first-IsUnique key (set_data_expiry now seconds) m h)
  ]

  pub resolve-find :
      (now : ℕ) (j : Bytes)
      → IsUnique m
      → find_data j (resolve_first_value now key m).0
        ≡ put key
            (if found_expired now (find_data key m) then none else find_data key m)
            (λ i. find_data i m)
            j
  unfolding resolve_first_value
  resolve-find now j h =
      let s = find_data-same_key j key m in
      elim (deleted now key m h) [
        | inl p ↦ rw p.0 (ground (arith, p.1, s))
        | inr q ↦ rw q.1 (
            ground (
              arith,
              q.2,
              q.3,
              q.4,
              find_data-del j q.0 m,
              same_key_iff q.0 key,
              same_key_iff q.0 j,
              same_key_iff key j,
            ))
      ]

  pub resolve-IsUnique : (now : ℕ) → IsUnique m → IsUnique (resolve_first_value now key m).0
  unfolding resolve_first_value
  resolve-IsUnique now h = elim (deleted now key m h) [
    | inl p ↦ rw p.0 h
    | inr q ↦ rw (q.1, q.3) (del-IsUnique q.0 m h)
  ]

-- One operation: what is found, and the answer.
run_operation-Refines :
    (now : ℕ) (o : Operation) (m : Table) (e : Entries)
    → IsUnique m
    → Refines m e
    → IsUnique (run_operation now o m).0
      × Refines (run_operation now o m).0 (meaning now o e).0
      × ((run_operation now o m).1 ≡ (meaning now o e).1)
unfolding run_operation
run_operation-Refines now (stores key value) m e h r =
    (store-IsUnique key m value h, λ j. ground (arith, store-find key m value j, r key, r j), refl)
run_operation-Refines now (updates key value) m e h r = (
  update-IsUnique key m value h,
  λ j. ground (arith, update-find key m value j, r key, r j),
  refl,
)
run_operation-Refines now (deletes key) m e h r =
    (del-IsUnique key m h, λ j. ground (arith, find_data-del j key m, r j), refl)
run_operation-Refines now (expires key seconds) m e h r = (
  expiry-IsUnique key m now seconds h,
  λ j. ground (arith, expiry-find key m now seconds j, r key, r j),
  refl,
)
run_operation-Refines now (resolves key) m e h r = (
  resolve-IsUnique key m now h,
  λ j. ground (arith, resolve-find key m now j h, r key, r j),
  unfold resolve_first_value in last_value-live_values now key m h ∙ ap (found_value now) (r key),
)

-- The in-memory collection keeps its promise: whatever is stored, updated, deleted, set to expire and
-- looked up, in whatever order and at whatever times, from a table with no key twice, each look-up
-- answers what the map from keys (without case) to a value and its expiry answers, and at the end the
-- table finds for each key what that map has, and has no key twice.
pub run_operations-Refines :
    (l : List (ℕ × Operation)) (m : Table) (e : Entries)
    → IsUnique m
    → Refines m e
    → ((run_operations l m).1 ≡ (meanings l e).1)
      × Refines (run_operations l m).0 (meanings l e).0
      × IsUnique (run_operations l m).0
unfolding run_operations
run_operations-Refines [] m e h r = (refl, r, h)
run_operations-Refines ((now, o) ∷ rest) m e h r =
    let one = run_operation-Refines now o m e h r in
    let ih =
      run_operations-Refines rest (run_operation now o m).0 (meaning now o e).0 one.0 one.1 in
    (ground (arith, one.2, ih.0), ih.1, ih.2)
