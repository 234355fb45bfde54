-- ===== src/Engine/Exceptions/Contains.antt =====
-- Which rules the exceptions take out, after loading and merging.
use mod_security.Engine.Exceptions.{
  RulesExceptions, contains_id, in_numbers, in_ranges, load_ids, merge_exceptions,
}
use mod_security.Engine.Exceptions.Load.{
  Ids, LoadError, Loaded, load, load_entries, load_entry, load_number, load_range,
}
use mod_security.Prelude.{
  Bool, List, Option-cases, [], arith, false, if_ind, inl, inr, length, refl, some, true, ◌++◌,
  ◌==◌, ◌||◌, ◌∷◌, ◌≡◌, ◌⊎◌,
}
use mod_security.Prelude.Bytes.{Bytes, str_lt}
use mod_security.Prelude.Int.{ℤ}
use mod_security.Utils.Number.{stoi}
use mod_security.Utils.Split.{after, before, contains_byte, parser_sanitizer, ssplit}

in_numbers-append :
    (a : ℤ) (xs ys : List ℤ) → in_numbers a (xs ++ ys) ≡ (in_numbers a xs || in_numbers a ys)
unfolding in_numbers
in_numbers-append a [] ys = refl
in_numbers-append a (x ∷ xs) ys = ground (arith, in_numbers-append a xs ys)

in_ranges-append :
    (a : ℤ) (xs ys : List (ℤ × ℤ)) → in_ranges a (xs ++ ys) ≡ (in_ranges a xs || in_ranges a ys)
unfolding in_ranges
in_ranges-append a [] ys = refl
in_ranges-append a ((lo, hi) ∷ xs) ys = ground (arith, in_ranges-append a xs ys)

module _ {S : Type 0} where
  -- Merging two sets of exceptions takes out the rules that either of them takes out, and no other.
  contains-merge :
      (from e : RulesExceptions S) (a : ℤ)
      → contains_id (merge_exceptions from e) a ≡ (contains_id e a || contains_id from a)
  unfolding contains_id merge_exceptions
  contains-merge from e a =
      ground
        (arith, in_numbers-append a e.numbers from.numbers, in_ranges-append a e.ranges from.ranges)

-- What is loaded stays: an identifier in the numbers or in a range.
abbrev pub taken_out : ℤ → Ids → Bool
taken_out a e = in_numbers a e.loaded_numbers || in_ranges a e.loaded_ranges

taken_out-number :
    (a n : ℤ) (e : Ids)
    → taken_out a e ≡ true
    → taken_out a (record e { loaded_numbers = e.loaded_numbers ++ n ∷ [] }) ≡ true
taken_out-number a n e k = ground (arith, in_numbers-append a e.loaded_numbers (n ∷ []))

taken_out-range :
    (a lo hi : ℤ) (e : Ids)
    → taken_out a e ≡ true
    → taken_out a (record e { loaded_ranges = e.loaded_ranges ++ (lo, hi) ∷ [] }) ≡ true
taken_out-range a lo hi e k = ground (arith, in_ranges-append a e.loaded_ranges ((lo, hi) ∷ []))

-- An entry, where it can be read, adds to what is taken out.
abbrev Grows : ℤ → Ids → Ids ⊎ LoadError → Type 0
Grows a e (inl e') = taken_out a e ≡ true → taken_out a e' ≡ true
Grows a e (inr why) = Unit

load_range-Grows : (b : Bytes) (a : ℤ) (e : Ids) → Grows a e (load_range b e)
unfolding load_range
load_range-Grows b a e = elim (Option-cases (stoi (before b'-' b))) [
  | inl z ↦ rw (z, load_range) tt
  | inr (lo, z) ↦ elim (Option-cases (stoi (after b'-' b))) [
    | inl y ↦ rw (z, load_range) (rw (y, load_range) tt)
    | inr (hi, y) ↦
        rw (z, load_range)
          (rw (y, load_range)
            (if_ind (Grows a e) (str_lt (after b'-' b) (before b'-' b)) tt
              (taken_out-range a lo hi e)))
  ]
]

load_number-Grows : (b : Bytes) (a : ℤ) (e : Ids) → Grows a e (load_number b e)
unfolding load_number
load_number-Grows b a e = elim (Option-cases (stoi b)) [
  | inl z ↦ rw (z, load_number) tt
  | inr (n, z) ↦ rw (z, load_number) (taken_out-number a n e)
]

load_entry-Grows : (b : Bytes) (a : ℤ) (e : Ids) → Grows a e (load_entry b e)
unfolding load_entry contains_byte
load_entry-Grows b a e =
    if_ind (Grows a e) (contains_byte b'-' b) (load_range-Grows b a e) (load_number-Grows b a e)

load_entries-taken_out :
    (l : List Bytes) (added : Bool) (a : ℤ) (e : Ids)
    → taken_out a e ≡ true
    → taken_out a (load_entries l added e).ids ≡ true
unfolding load_entries
load_entries-taken_out [] added a e k = k
load_entries-taken_out (r ∷ rest) added a e k =
    let b = parser_sanitizer r in
    if_ind (λ (z : Loaded). taken_out a z.ids ≡ true) (length b == 0)
      (load_entries-taken_out rest added a e k)
      (read (load_entry b e) (load_entry-Grows b a e)
        (λ e' k'. load_entries-taken_out rest true a e' k'))
  where
    read :
        (x : Ids ⊎ LoadError)
        → Grows a e x
        → ((e' : Ids) → taken_out a e' ≡ true → taken_out a (load_entries rest true e').ids ≡ true)
        → taken_out a
            (let y : Loaded = elim x [
              | inl e' ↦ load_entries rest true e'
              | inr why ↦ record { ids = e; added = added; error = some why }
            ] in
              y).ids
          ≡ true
    read (inl e') g later = later e' (g k)
    read (inr why) g later = k

module _ {S : Type 0} where
  -- Loading a list of identifiers and ranges, well-formed or not, never puts a rule back that was
  -- taken out before.
  contains-load_ids :
      (ids_text : Bytes) (e : RulesExceptions S) (a : ℤ)
      → contains_id e a ≡ true
      → contains_id (load_ids ids_text e).0 a ≡ true
  unfolding contains_id load_ids load
  contains-load_ids ids_text e a k =
      let start : Ids = record { loaded_ranges = e.ranges; loaded_numbers = e.numbers } in
      let h = load_entries-taken_out (ssplit ids_text b' ') false a start (ground arith) in
      ground (arith, h)
