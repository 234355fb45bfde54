-- ===== src/Engine/Exceptions/Load.antt =====
-- RulesExceptions::load, which reads the numbers and ranges of SecRuleRemoveById.
use mod_security.Prelude.{
  Bool, List, Option, [], false, if◌then◌else◌, inl, inr, length, none, some, true, ◌++◌, ◌==◌, ◌∷◌,
  ◌⊎◌,
}
use mod_security.Prelude.Bytes.{Bytes, str_lt}
use mod_security.Prelude.Int.{ℤ}
use mod_security.Utils.Number.{stoi}
use mod_security.Utils.Split.{after, before, contains_byte, parser_sanitizer, ssplit}

-- The entry, or what the error says.
pub data LoadError : Type 0 where
  not_a_number : Bytes → LoadError
  invalid_range : Bytes → LoadError
  not_a_number_or_range : Bytes → LoadError

-- Numbers and ranges, in the order in which they are read.
pub record Ids : Type 0 where
  pub loaded_ranges : List (ℤ × ℤ)
  pub loaded_numbers : List ℤ

-- The result of `load`: the ids that were added, also where it fails, and the error.
pub record Loaded : Type 0 where
  pub ids : Ids
  pub added : Bool
  pub error : Option LoadError

-- `b` has a dash. The ends are compared as texts.
unfoldable pub load_range : Bytes → Ids → Ids ⊎ LoadError
unfolding before after stoi str_lt
load_range b e =
    let n1s = before b'-' b in
    let n2s = after b'-' b in
    elim (stoi n1s) [
      | none ↦ inr (not_a_number n1s)
      | some n1n ↦ elim (stoi n2s) [
        | none ↦ inr (not_a_number n2s)
        | some n2n ↦
            if str_lt n2s n1s
            then inr (invalid_range b)
            else inl (record e { loaded_ranges = e.loaded_ranges ++ (n1n, n2n) ∷ [] })
      ]
    ]

unfoldable pub load_number : Bytes → Ids → Ids ⊎ LoadError
unfolding stoi
load_number b e = elim (stoi b) [
  | none ↦ inr (not_a_number_or_range b)
  | some num ↦ inl (record e { loaded_numbers = e.loaded_numbers ++ num ∷ [] })
]

unfoldable pub load_entry : Bytes → Ids → Ids ⊎ LoadError
unfolding load_range load_number contains_byte
load_entry b e = if contains_byte b'-' b then load_range b e else load_number b e

-- The loop over the entries; `added` says whether one has been read.
unfoldable pub load_entries : List Bytes → Bool → Ids → Loaded
unfolding load_entry parser_sanitizer
load_entries [] added e = record { ids = e; added = added; error = none }
load_entries (r ∷ rest) added e =
    let b = parser_sanitizer r in
    let skipped = load_entries rest added e in
    let read : Loaded = elim (load_entry b e) [
      | inl e' ↦ load_entries rest true e'
      | inr why ↦ record { ids = e; added = added; error = some why }
    ] in
    if length b == 0 then skipped else read

unfoldable pub load : Bytes → Ids → Loaded
unfolding load_entries ssplit
load a e =
    let r = load_entries (ssplit a b' ') false e in
    elim r.error [
      | some why ↦ r
      | none ↦ if r.added then r else record r { error = some (not_a_number_or_range a) }
    ]
