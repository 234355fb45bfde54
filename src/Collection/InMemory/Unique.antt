-- ===== src/Collection/InMemory/Unique.antt =====
-- Tables that have no key twice, and what a look-up reads and deletes in them.
use mod_security.Collection.Data.{CollectionData, is_expired}
use mod_security.Collection.InMemory.{
  Table, change_first, del, emplace, expired_keys, find_data, has_expired, last_value, live_values,
}
use mod_security.Collection.InMemory.Lookup.{
  find_data-append, find_data-change_first, find_data-del, find_data-same_key, same_key_iff,
}
use mod_security.Collection.InMemory.Operations.{found_expired, found_value}
use mod_security.Prelude.{
  Bool-cases, [], arith, false, inl, inr, none, refl, some, true, ℕ, ◌∷◌, ◌≡◌, ◌⊎◌,
}
use mod_security.Prelude.Bytes.{Bytes, str_eq_iff}
use mod_security.Request.Anchored.{same_key}

-- No key is there twice: `store`, which would put it there, is not called by any rule.
abbrev pub IsUnique : Table → Type 0
IsUnique [] = Unit
IsUnique ((k, d) ∷ m) = (find_data k m ≡ none) × IsUnique m

pub change_first-IsUnique :
    (k : Bytes) (f : CollectionData → CollectionData) (m : Table)
    → IsUnique m
    → IsUnique (change_first k f m)
unfolding change_first
change_first-IsUnique k f [] h = tt
change_first-IsUnique k f ((i, x) ∷ m) h =
    let ih = change_first-IsUnique k f m h.1 in
    let e = find_data-change_first i k f m in
    let s = find_data-same_key i k m in
    elim (Bool-cases (same_key i k)) [ inl y ↦ rw y h | inr n ↦ rw n (ground (arith, e, s), ih) ]

pub emplace-IsUnique :
    (k : Bytes) (d : CollectionData) (m : Table)
    → find_data k m ≡ none
    → IsUnique m
    → IsUnique (emplace k d m)
unfolding emplace find_data
emplace-IsUnique k d [] a h = (refl, tt)
emplace-IsUnique k d ((i, x) ∷ m) a h =
    let ih = emplace-IsUnique k d m (ground arith) h.1 in
    let e = find_data-append i k d m in (ground (arith, e, same_key_iff i k, same_key_iff k i), ih)

pub del-IsUnique : (k : Bytes) (m : Table) → IsUnique m → IsUnique (del k m)
unfolding del
del-IsUnique k [] h = tt
del-IsUnique k ((i, x) ∷ m) h =
    let ih = del-IsUnique k m h.1 in
    let e = find_data-del i k m in
    elim (Bool-cases (same_key i k)) [ inl y ↦ rw y ih | inr n ↦ rw n (ground (arith, e), ih) ]

pub absent_loops :
    (now : ℕ) (k : Bytes) (m : Table)
    → find_data k m ≡ none
    → (live_values now k m ≡ []) × (expired_keys now k m ≡ [])
unfolding find_data live_values expired_keys
absent_loops now k [] h = (refl, refl)
absent_loops now k ((i, x) ∷ m) h =
    let ih = absent_loops now k m (ground arith) in (ground arith, ground arith)

pub last_value-live_values :
    (now : ℕ) (k : Bytes) (m : Table)
    → IsUnique m
    → last_value (live_values now k m) ≡ found_value now (find_data k m)
unfolding find_data live_values last_value
last_value-live_values now k [] h = refl
last_value-live_values now k ((i, x) ∷ m) h =
    let ih = last_value-live_values now k m h.1 in
    let s = find_data-same_key k i m in
    let gone = absent_loops now k m in ground (arith, ih, s, gone)

-- The members that are deleted behind a look-up.
pub deleted :
    (now : ℕ) (k : Bytes) (m : Table)
    → IsUnique m
    → ((expired_keys now k m ≡ []) × (found_expired now (find_data k m) ≡ false))
      ⊎ ((i : Bytes) × (expired_keys now k m ≡ i ∷ [])
          × (same_key i k ≡ true)
          × (has_expired now i m ≡ true)
          × (found_expired now (find_data k m) ≡ true))
unfolding find_data expired_keys has_expired
deleted now k [] h = inl (refl, refl)
deleted now k ((i, x) ∷ m) h =
    let ih = deleted now k m h.1 in
    let s = find_data-same_key k i m in
    let gone = absent_loops now k m in
    elim (Bool-cases (same_key i k)) [
      | inl y ↦ elim (Bool-cases (is_expired now x)) [
        | inl e ↦ inr (i, ground (arith, s, gone), y, ground (arith, str_eq_iff i i), ground arith)
        | inr n ↦ inl (ground (arith, s, gone), ground arith)
      ]
      | inr n ↦ elim ih [
        | inl p ↦ inl (ground (arith, p.0), ground (arith, p.1))
        | inr q ↦ inr (q.0, ground (arith, q.1), q.2, ground (arith, q.3), ground (arith, q.4))
      ]
    ]

-- A member that is found and has not expired is the only one that is read.
pub live_values-single :
    (now : ℕ) (k value : Bytes) (m : Table)
    → IsUnique m
    → find_data k m ≡ some (record { data_value = some value; data_expiry = none })
    → (i : Bytes) × (live_values now k m ≡ (i, value) ∷ [])
unfolding find_data live_values
live_values-single now k value [] h f = absurd (ground arith)
live_values-single now k value ((i, x) ∷ m) h f =
    let s = find_data-same_key k i m in
    let gone = absent_loops now k m in
    let ih = live_values-single now k value m h.1 in
    elim (Bool-cases (same_key i k)) [
      | inl y ↦ (i, ground (arith, s, gone))
      | inr n ↦ let r = ih (ground arith) in (r.0, ground (arith, r.1))
    ]
