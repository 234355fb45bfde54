-- ===== src/Config/Merge.antt =====
-- RulesSetPhases::append: which rules it refuses, and what it leaves behind.
-- Whether some identifier is in both lists.
use mod_security.Config.Identifiers.{
  IsUnique, count, count-absent, count-append, count-all_ids-behind,
}
use mod_security.Config.Phases.{
  RulesSetPhases, all_ids, append_below, append_phases, append_rules, contains_int, find_duplicate,
  ids_below, operator_ids, set_phase_rules,
}
use mod_security.Engine.Rule.{Rule, marker_rule, script, unconditional, with_operator}
use mod_security.Engine.State.{number_of_phases}
use mod_security.Prelude.{
  Bool, Bool-cases, List, Option, Option-cases, [], ap, arith, false, if◌then◌else◌, inl, inr,
  length, ltb, lt→ltb, none, refl, some, subst, suc, sym, true, zero, ℕ, ◌++◌, ◌+◌, ◌<◌, ◌==◌, ◌||◌,
  ◌↔◌, ◌∙◌, ◌∷◌, ◌≡◌, ◌≢◌, ◌≤◌, ◌⊎◌,
}
use mod_security.Prelude.Bytes.{Bytes}
use mod_security.Prelude.Int.{==ℤ_iff, ltb_ℤ, negsuc, pos, ℤ, ◌+ℤ◌, ◌==ℤ◌}

abbrev pub overlaps : List ℤ → List ℤ → Bool
overlaps ids [] = false
overlaps ids (i ∷ rest) = contains_int i ids || overlaps ids rest

overlaps-append : (ids a b : List ℤ) → overlaps ids (a ++ b) ≡ (overlaps ids a || overlaps ids b)
overlaps-append ids [] b = refl
overlaps-append ids (i ∷ a) b = ground (arith, overlaps-append ids a b)

-- What is in one of two lists that do not overlap is not in the other.
overlaps-count :
    (ids l : List ℤ) (n : ℤ) → overlaps ids l ≡ false → contains_int n ids ≡ true → count n l ≡ 0
overlaps-count ids [] n h c = refl
overlaps-count ids (i ∷ l) n h c =
    let ih = overlaps-count ids l n (ground arith) c in
    elim (Bool-cases (n ==ℤ i)) [
      | inl s ↦
          let same : contains_int n ids ≡ contains_int i ids =
            ap (λ x. contains_int x ids) ((==ℤ_iff n i).0 s) in
          ground (arith, same)
      | inr d ↦ ground (arith, ih)
    ]

abbrev is_some : Option ℤ → Bool
is_some none = false
is_some (some n) = true

pub pos-negsuc : (n : ℕ) → pos n ≢ negsuc 0
pos-negsuc n h = ground arith

pos-add : (a b : ℕ) → pos a +ℤ pos b ≡ pos (a + b)
unfolding ◌+ℤ◌
pos-add a b = ground arith

module _ {S : Type 0} where
  find_duplicate-overlaps :
      (ids : List ℤ) (rules : List (Rule S))
      → is_some (find_duplicate ids rules) ≡ overlaps ids (operator_ids rules)
  unfolding find_duplicate operator_ids
  find_duplicate-overlaps ids [] = refl
  find_duplicate-overlaps ids (with_operator r l ∷ rest) =
      ground (arith, find_duplicate-overlaps ids rest)
  find_duplicate-overlaps ids (marker_rule name ∷ rest) = find_duplicate-overlaps ids rest
  find_duplicate-overlaps ids (unconditional r ∷ rest) = find_duplicate-overlaps ids rest
  find_duplicate-overlaps ids (script r lua ∷ rest) = find_duplicate-overlaps ids rest

  find_duplicate-cases :
      (ids : List ℤ) (rules : List (Rule S))
      → ((find_duplicate ids rules ≡ none) × (overlaps ids (operator_ids rules) ≡ false))
        ⊎ ((n : ℤ) × (find_duplicate ids rules ≡ some n)
            × (overlaps ids (operator_ids rules) ≡ true))
  find_duplicate-cases ids rules =
      let e = find_duplicate-overlaps ids rules in
      elim (Option-cases (find_duplicate ids rules)) [
        | inl d ↦ inl (d, sym e ∙ ap is_some d)
        | inr (n, d) ↦ inr (n, d, sym e ∙ ap is_some d)
      ]

  -- how many rules the first `k` phases have
  unfoldable pub size_below : ℕ → RulesSetPhases S → ℕ
  size_below zero p = 0
  size_below (suc k) p = size_below k p + length (p k)

  set_phase_rules-behind :
      (k i : ℕ) (p from to : RulesSetPhases S)
      → p k ≡ (if ltb k k then to k ++ from k else to k)
      → p i ≡ (if ltb i k then to i ++ from i else to i)
      → set_phase_rules k (p k ++ from k) p i ≡ (if ltb i (suc k) then to i ++ from i else to i)
  set_phase_rules-behind k i p from to hk hi =
      let choose = λ (b : Bool) (j : ℕ). if b then to j ++ from j else to j in
      elim (Bool-cases (i == k)) [
        | inl y ↦
            let e : k ≡ i = ground arith in
            let lower : ltb k k ≡ false = ground arith in
            let upper : ltb k (suc k) ≡ true = ground arith in
            let here : p k ++ from k ≡ choose (ltb k (suc k)) k =
              ap (λ l. l ++ from k) (hk ∙ ap (λ b. choose b k) lower)
              ∙ sym (ap (λ b. choose b k) upper) in
            rw y (subst (λ j. p k ++ from k ≡ choose (ltb j (suc k)) j) e here)
        | inr n ↦
            let same : ltb i k ≡ ltb i (suc k) = ground arith in
            rw n (hi ∙ ap (λ b. choose b i) same)
      ]

  module _ (ids : List ℤ) (from to : RulesSetPhases S) (error : Bytes) where
    append_below-count :
        (k : ℕ) (n : ℤ)
        → let a = append_below k ids from to error in
          (count n (all_ids a.phases_after) ≤ count n (all_ids to) + count n (ids_below k from))
          × (contains_int n ids ≡ true → count n (all_ids a.phases_after) ≤ count n (all_ids to))
    unfolding append_below append_rules ids_below
    append_below-count zero n = (omega arith, λ c. omega arith)
    append_below-count (suc k) n =
        let a = append_below k ids from to error in
        let ih = append_below-count k n in
        let e = count-append n (ids_below k from) (operator_ids (from k)) in
        let b = count-all_ids-behind k (from k) a.phases_after n in
        elim (Bool-cases (ltb_ℤ a.amount (pos 0))) [
          | inl y ↦ rw y (omega (arith, e, ih.0), ih.1)
          | inr f ↦ elim (find_duplicate-cases ids (from k)) [
            | inl (d, o) ↦
                rw (f, d)
                  (
                    omega (arith, e, ih.0, b),
                    λ c.
                        let z = overlaps-count ids (operator_ids (from k)) n o c in
                        let i = ih.1 c in omega (arith, i, b, z),
                  )
            | inr (m, d, o) ↦ rw (f, d) (omega (arith, e, ih.0), ih.1)
          ]
        ]

    append_below-taken :
        (k : ℕ)
        → overlaps ids (ids_below k from) ≡ false
        → let a = append_below k ids from to error in
          (a.amount ≡ pos (size_below k from))
          × ((i : ℕ) → a.phases_after i ≡ (if ltb i k then to i ++ from i else to i))
    unfolding append_below append_rules ids_below size_below
    append_below-taken zero h = (refl, λ i. ground arith)
    append_below-taken (suc k) h =
        let a = append_below k ids from to error in
        let o = overlaps-append ids (ids_below k from) (operator_ids (from k)) in
        let ih = append_below-taken k (ground (arith, o)) in
        let going : ltb_ℤ a.amount (pos 0) ≡ false = rw ih.0 (ground arith) in
        elim (find_duplicate-cases ids (from k)) [
          | inl (d, f) ↦
              rw (going, d)
                (
                  rw ih.0 (pos-add (size_below k from) (length (from k))),
                  λ i. set_phase_rules-behind k i a.phases_after from to (ih.1 k) (ih.1 i),
                )
          | inr (m, d, f) ↦ ground (arith, o)
        ]

    append_below-refused :
        (k : ℕ)
        → overlaps ids (ids_below k from) ≡ true
        → (append_below k ids from to error).amount ≡ negsuc 0
    unfolding append_below append_rules ids_below
    append_below-refused zero h = ground arith
    append_below-refused (suc k) h =
        let a = append_below k ids from to error in
        let o = overlaps-append ids (ids_below k from) (operator_ids (from k)) in
        elim (Bool-cases (overlaps ids (ids_below k from))) [
          | inl y ↦
              let e = append_below-refused k y in
              let stopped : ltb_ℤ a.amount (pos 0) ≡ true = rw e refl in rw stopped e
          | inr z ↦
              let t = append_below-taken k z in
              let going : ltb_ℤ a.amount (pos 0) ≡ false = rw t.0 (ground arith) in
              elim (find_duplicate-cases ids (from k)) [
                | inl (d, f) ↦ ground (arith, o)
                | inr (m, d, f) ↦ rw (going, d) refl
              ]
        ]

  -- To append rules whose identifiers differ to rules whose identifiers differ leaves rules whose
  -- identifiers differ, whether they are refused or not.
  pub append_phases-IsUnique :
      (from to : RulesSetPhases S) (error : Bytes)
      → IsUnique from
      → IsUnique to
      → IsUnique (append_phases from to error).phases_after
  unfolding append_phases
  append_phases-IsUnique from to error f t n =
      let b = append_below-count (all_ids to) from to error number_of_phases n in
      let fn = f n in
      let tn = t n in
      elim (Bool-cases (contains_int n (all_ids to))) [
        | inl y ↦ let c = b.1 y in omega (arith, c, tn)
        | inr z ↦ let c = count-absent n (all_ids to) z in omega (arith, c, fn, b.0)
      ]

  -- RulesSetPhases::append answers -1 exactly where the identifier of some rule with an operator that
  -- stands in a phase of `from` is that of one that stands in a phase of `to` (rules that are chained to
  -- others do not count); where there is none, it answers how many rules the phases of `from` have, and
  -- each phase has the rules of `to` and behind them those of `from`.
  pub append_phases-overlaps :
      (from to : RulesSetPhases S) (error : Bytes)
      → let a = append_phases from to error in
        ((a.amount ≡ negsuc 0) ↔ (overlaps (all_ids to) (all_ids from) ≡ true))
        × (overlaps (all_ids to) (all_ids from) ≡ false
            → (a.amount ≡ pos (size_below number_of_phases from))
              × ((i : ℕ) → i < number_of_phases → a.phases_after i ≡ to i ++ from i))
  unfolding append_phases
  append_phases-overlaps from to error =
      let t = append_below-taken (all_ids to) from to error number_of_phases in
      let r = append_below-refused (all_ids to) from to error number_of_phases in
      (
        (
          λ h. elim (Bool-cases (overlaps (all_ids to) (all_ids from))) [
            | inl y ↦ y
            | inr z ↦ let e = (t z).0 in absurd (pos-negsuc _ (sym e ∙ h))
          ],
          r,
        ),
        λ z.
            let w = t z in
            (
              w.0,
              λ i h.
                  w.1 i
                  ∙ ap (λ b. if b then to i ++ from i else to i) (lt→ltb i number_of_phases h),
            ),
      )
