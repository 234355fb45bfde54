-- ===== src/Config/Identifiers.antt =====
-- The identifiers of the rules of a rule set: how often each is there, and what the driver and
-- RulesSetPhases::append do to that.
use mod_security.Config.Phases.{
  RulesSetPhases, all_ids, contains_int, ids_below, insert_rule, operator_ids, set_phase_rules,
}
use mod_security.Engine.Rule.{Rule, marker_rule, script, unconditional, with_operator}
use mod_security.Engine.State.{number_of_phases}
use mod_security.Prelude.{
  Bool-cases, List, [], ap, arith, false, if◌then◌else◌, inl, inr, leb, refl, suc, true, zero, ℕ,
  ◌++◌, ◌+◌, ◌<◌, ◌==◌, ◌∙◌, ◌∷◌, ◌≡◌, ◌≤◌,
}
use mod_security.Prelude.Int.{ℤ, ◌==ℤ◌}

abbrev pub count : ℤ → List ℤ → ℕ
count n [] = 0
count n (i ∷ ids) = if n ==ℤ i then suc (count n ids) else count n ids

pub count-append : (n : ℤ) (a b : List ℤ) → count n (a ++ b) ≡ count n a + count n b
count-append n [] b = omega arith
count-append n (i ∷ a) b = ground (arith, count-append n a b)

pub count-absent : (n : ℤ) (ids : List ℤ) → contains_int n ids ≡ false → count n ids ≡ 0
count-absent n [] h = refl
count-absent n (i ∷ ids) h = ground (arith, count-absent n ids)

pub contains_int-count : (n : ℤ) (ids : List ℤ) → contains_int n ids ≡ true → 1 ≤ count n ids
contains_int-count n [] h = ground arith
contains_int-count n (i ∷ ids) h = ground (arith, contains_int-count n ids)

module _ {S : Type 0} where
  -- No two rules with an operator, chain starters that is, have the same identifier.
  abbrev pub IsUnique : RulesSetPhases S → Type 0
  IsUnique phases = (n : ℤ) → count n (all_ids phases) ≤ 1

  pub operator_ids-append :
      (a b : List (Rule S)) → operator_ids (a ++ b) ≡ operator_ids a ++ operator_ids b
  unfolding operator_ids
  operator_ids-append [] b = refl
  operator_ids-append (with_operator r c ∷ a) b =
      ap (λ l. r.actions.info.rule_id ∷ l) (operator_ids-append a b)
  operator_ids-append (marker_rule name ∷ a) b = operator_ids-append a b
  operator_ids-append (unconditional r ∷ a) b = operator_ids-append a b
  operator_ids-append (script r lua ∷ a) b = operator_ids-append a b

  pub count-operator_ids-append :
      (n : ℤ) (a b : List (Rule S))
      → count n (operator_ids (a ++ b)) ≡ count n (operator_ids a) + count n (operator_ids b)
  count-operator_ids-append n a b =
      ap (count n) (operator_ids-append a b) ∙ count-append n (operator_ids a) (operator_ids b)

  count-ids_below-beyond :
      (k phase : ℕ) (rules : List (Rule S)) (p : RulesSetPhases S) (n : ℤ)
      → k ≤ phase
      → count n (ids_below k (set_phase_rules phase rules p)) ≡ count n (ids_below k p)
  unfolding ids_below
  count-ids_below-beyond zero phase rules p n h = refl
  count-ids_below-beyond (suc k) phase rules p n h =
      let ih = count-ids_below-beyond k phase rules p n (omega arith) in
      let new = count-append n (ids_below k (set_phase_rules phase rules p)) in
      let old = count-append n (ids_below k p) (operator_ids (p k)) in
      elim (Bool-cases (k == phase)) [
        | inl y ↦ ground arith
        | inr e ↦ rw e (omega (arith, ih, new (operator_ids (p k)), old))
      ]

  set_phase_rules-same :
      (k phase : ℕ) (rules : List (Rule S)) (p : RulesSetPhases S)
      → (k == phase) ≡ true
      → set_phase_rules phase rules p k ≡ rules
  set_phase_rules-same k phase rules p y = rw y refl

  set_phase_rules-other :
      (k phase : ℕ) (rules : List (Rule S)) (p : RulesSetPhases S)
      → (k == phase) ≡ false
      → set_phase_rules phase rules p k ≡ p k
  set_phase_rules-other k phase rules p y = rw y refl

  -- To set the rules of a phase changes the count by what it changes there.
  pub count-ids_below-set_phase_rules :
      (k phase : ℕ) (rules : List (Rule S)) (p : RulesSetPhases S) (n : ℤ)
      → phase < k
      → count n (ids_below k (set_phase_rules phase rules p)) + count n (operator_ids (p phase))
        ≡ count n (ids_below k p) + count n (operator_ids rules)
  unfolding ids_below
  count-ids_below-set_phase_rules zero phase rules p n h = ground arith
  count-ids_below-set_phase_rules (suc k) phase rules p n h =
      let q = set_phase_rules phase rules p in
      let new = count-append n (ids_below k q) (operator_ids (q k)) in
      let old = count-append n (ids_below k p) (operator_ids (p k)) in
      elim (Bool-cases (k == phase)) [
        | inl y ↦
            let e : k ≡ phase = ground arith in
            let b = count-ids_below-beyond k phase rules p n (omega (arith, e)) in
            let new_here =
              ap (λ l. count n (operator_ids l)) (set_phase_rules-same k phase rules p y) in
            let old_here = ap (λ i. count n (operator_ids (p i))) e in
            omega (arith, new, old, b, new_here, old_here)
        | inr e ↦
            let ih = count-ids_below-set_phase_rules k phase rules p n (ground arith) in
            let new_here =
              ap (λ l. count n (operator_ids l)) (set_phase_rules-other k phase rules p e) in
            omega (arith, new, old, ih, new_here)
      ]

  -- What rules that are put behind those of a phase add to the count.
  pub count-all_ids-behind :
      (phase : ℕ) (rules : List (Rule S)) (p : RulesSetPhases S) (n : ℤ)
      → count n (all_ids (set_phase_rules phase (p phase ++ rules) p))
        ≤ count n (all_ids p) + count n (operator_ids rules)
  count-all_ids-behind phase rules p n =
      let new = p phase ++ rules in
      let e = count-operator_ids-append n (p phase) rules in
      elim (Bool-cases (leb number_of_phases phase)) [
        | inl y ↦
            let b = count-ids_below-beyond number_of_phases phase new p n (ground arith) in
            omega (arith, b)
        | inr h ↦
            let b = count-ids_below-set_phase_rules number_of_phases phase new p n (ground arith) in
            omega (arith, b, e)
      ]

  pub count-all_ids-insert_rule :
      (phase : ℕ) (rule : Rule S) (p : RulesSetPhases S) (n : ℤ)
      → count n (all_ids (insert_rule phase rule p).0)
        ≤ count n (all_ids p) + count n (operator_ids (rule ∷ []))
  unfolding insert_rule
  count-all_ids-insert_rule phase rule p n =
      let b = count-all_ids-behind phase (rule ∷ []) p n in
      elim (Bool-cases (leb number_of_phases phase)) [ inl y ↦ rw y (omega arith) | inr h ↦ rw h b ]

  -- The rules of a phase replaced by others with the same identifiers.
  pub count-all_ids-set_phase_rules :
      (phase : ℕ) (rules : List (Rule S)) (p : RulesSetPhases S) (n : ℤ)
      → operator_ids rules ≡ operator_ids (p phase)
      → count n (all_ids (set_phase_rules phase rules p)) ≡ count n (all_ids p)
  count-all_ids-set_phase_rules phase rules p n h =
      let e = ap (count n) h in
      elim (Bool-cases (leb number_of_phases phase)) [
        | inl y ↦ count-ids_below-beyond number_of_phases phase rules p n (ground arith)
        | inr f ↦
            let s =
              count-ids_below-set_phase_rules number_of_phases phase rules p n (ground arith) in
            omega (arith, s, e)
      ]
