-- ===== src/Config/Accepted.antt =====
-- RulesSet::load of rules that are all fit to be taken.
use mod_security.Config.Driver.{
  Driver, RulesBase, add_directive, add_sec_rule, add_starter, chain_end, chain_or_start, find_last,
  load_rules, merge_rules, new_base, new_driver, open_chain, parse, parse_rest, rule_end, sec_rule,
  with_phases,
}
use mod_security.Config.Identifiers.{contains_int-count, count, count-all_ids-insert_rule}
use mod_security.Config.Merge.{append_phases-overlaps, overlaps, pos-negsuc}
use mod_security.Config.Phases.{
  RulesSetPhases, all_ids, append_phases, contains_int, ids_below, insert_rule, operator_ids,
  set_phase_rules,
}
use mod_security.Engine.Rule.{Rule, RuleWithOperator, with_operator}
use mod_security.Engine.State.{number_of_phases}
use mod_security.Prelude.{
  Bool-cases, List, [], ap, append-nil, append_assoc, arith, false, get_elem?, if◌then◌else◌, inl,
  inr, leb, length, map, none, refl, some, sym, true, ℕ, ◌++◌, ◌<◌, ◌==◌, ◌∙◌, ◌∷◌, ◌≡◌, ◌≢◌, ◌≤◌,
}
use mod_security.Prelude.Int.{==ℤ_iff, negsuc, pos, ℤ, ◌==ℤ◌}

get_elem?-length {ℓ} :
    {A : Type ℓ} (xs : List A) (x : A) → get_elem? (xs ++ x ∷ []) (length xs) ≡ some x
get_elem?-length [] x = refl
get_elem?-length (y ∷ xs) x = get_elem?-length xs x

not_contained : (n : ℤ) (ids : List ℤ) → count n ids ≡ 0 → contains_int n ids ≡ false
not_contained n ids h = elim (Bool-cases (contains_int n ids)) [
  | inl y ↦ let c = contains_int-count n ids y in absurd (omega (arith, c, h))
  | inr z ↦ z
]

overlaps-apart :
    (ids l : List ℤ)
    → ((n : ℤ) → contains_int n ids ≡ true → count n l ≡ 0)
    → overlaps ids l ≡ false
overlaps-apart ids [] h = refl
overlaps-apart ids (i ∷ l) h =
    let rest = overlaps-apart ids l (λ n c. let z = h n c in ground (arith, z)) in
    let same = (==ℤ_iff i i).1 refl in
    elim (Bool-cases (contains_int i ids)) [
      | inl y ↦ let z = h i y in ground (arith, z, same)
      | inr n ↦ ground (arith, rest)
    ]

not_head :
    (n i : ℤ) (ids : List ℤ)
    → contains_int n (i ∷ ids) ≡ false
    → ((n ==ℤ i) ≡ false) × (contains_int n ids ≡ false)
not_head n i ids h = elim (Bool-cases (n ==ℤ i)) [
  | inl y ↦ ground (arith, y)
  | inr z ↦ (z, ground (arith, z))
]

in_tail : (n i : ℤ) (ids : List ℤ) → contains_int n ids ≡ true → contains_int n (i ∷ ids) ≡ true
in_tail n i ids h = ground (arith, h)

apart :
    (n i : ℤ) (ids : List ℤ)
    → contains_int n ids ≡ true
    → contains_int i ids ≡ false
    → (n ==ℤ i) ≡ false
apart n i ids h k = elim (Bool-cases (n ==ℤ i)) [
  | inl y ↦
      let same : contains_int n ids ≡ contains_int i ids =
        ap (λ x. contains_int x ids) ((==ℤ_iff n i).0 y) in
      ground (arith, same)
  | inr z ↦ z
]

module _ {S : Type 0} where
  -- Rules that begin no chain, each of a phase that there is and with an identifier of its own, which
  -- is not one of `ids`.
  abbrev pub AreAcceptable : List ℤ → List (RuleWithOperator S) → Type 0
  AreAcceptable ids [] = Unit
  AreAcceptable ids (r ∷ rest) =
      (r.actions.info.phase < number_of_phases)
      × (r.actions.info.rule_id ≢ pos 0)
      × (r.actions.is_chained ≡ false)
      × (contains_int r.actions.info.rule_id ids ≡ false)
      × AreAcceptable (r.actions.info.rule_id ∷ ids) rest

  -- The rules of a phase among them, in their order.
  abbrev pub of_phase : ℕ → List (RuleWithOperator S) → List (Rule S)
  of_phase i [] = []
  of_phase i (r ∷ rest) =
      if r.actions.info.phase == i then with_operator r [] ∷ of_phase i rest else of_phase i rest

  of_phase-cons :
      (i : ℕ) (r : RuleWithOperator S) (rest : List (RuleWithOperator S))
      → of_phase i (r ∷ []) ++ of_phase i rest ≡ of_phase i (r ∷ rest)
  of_phase-cons i r rest = elim (Bool-cases (r.actions.info.phase == i)) [
    | inl y ↦ rw y refl
    | inr n ↦ rw n refl
  ]

  insert_rule-inside :
      (phase : ℕ) (rule : Rule S) (p : RulesSetPhases S)
      → phase < number_of_phases
      → (insert_rule phase rule p).0 ≡ set_phase_rules phase (p phase ++ rule ∷ []) p
  unfolding insert_rule
  insert_rule-inside phase rule p b =
      let inside : leb number_of_phases phase ≡ false = ground arith in rw inside refl

count-new_driver :
    (S U : Type 0) (n : ℤ) → count n (all_ids (new_driver {S = S} {U = U}).phases) ≡ 0
unfolding new_driver new_base ids_below operator_ids
count-new_driver S U n = refl

module _ {S U : Type 0} where
  -- What one such rule makes of the driver.
  abbrev started : RuleWithOperator S → Driver S U → Driver S U
  started r d =
      record (with_phases (insert_rule r.actions.info.phase (with_operator r []) d.phases).0 d) {
        last_rule = some (record {
          last_phase = r.actions.info.phase;
          last_index = length (d.phases r.actions.info.phase);
        });
      }

  add_sec_rule-started :
      (r : RuleWithOperator S) (d : Driver S U)
      → r.actions.info.phase < number_of_phases
      → r.actions.info.rule_id ≢ pos 0
      → contains_int r.actions.info.rule_id (all_ids d.phases) ≡ false
      → open_chain (find_last d.last_rule d.phases) ≡ none
      → add_sec_rule r d ≡ (started r d, true)
  unfolding add_sec_rule chain_or_start add_starter
  add_sec_rule-started r d b i c o =
      let inside : leb number_of_phases r.actions.info.phase ≡ false = ground arith in
      let given : (r.actions.info.rule_id ==ℤ pos 0) ≡ false =
        elim (Bool-cases (r.actions.info.rule_id ==ℤ pos 0)) [
          | inl y ↦ absurd (i ((==ℤ_iff r.actions.info.rule_id (pos 0)).0 y))
          | inr n ↦ n
        ] in
      simp (inside, given, c, o)

  started-phases :
      (r : RuleWithOperator S) (d : Driver S U) (i : ℕ)
      → r.actions.info.phase < number_of_phases
      → (started r d).phases i ≡ d.phases i ++ of_phase i (r ∷ [])
  started-phases r d i b =
      let phase = r.actions.info.phase in
      ap (λ q. q i) (insert_rule-inside phase (with_operator r []) d.phases b)
      ∙ elim (Bool-cases (phase == i)) [
        | inl y ↦
            let e : phase ≡ i = ground arith in
            let s : (i == phase) ≡ true = ground arith in
            rw (y, s) (ap (λ j. d.phases j ++ with_operator r [] ∷ []) e)
        | inr n ↦
            let s : (i == phase) ≡ false = ground arith in rw (n, s) (sym (append-nil (d.phases i)))
      ]

  started-closed :
      (r : RuleWithOperator S) (d : Driver S U)
      → r.actions.info.phase < number_of_phases
      → r.actions.is_chained ≡ false
      → open_chain (find_last (started r d).last_rule (started r d).phases) ≡ none
  unfolding find_last rule_end chain_end open_chain
  started-closed r d b c =
      let phase = r.actions.info.phase in
      let rule = with_operator r [] in
      let self : (phase == phase) ≡ true = ground arith in
      let rules : (started r d).phases phase ≡ d.phases phase ++ rule ∷ [] =
        ap (λ q. q phase) (insert_rule-inside phase rule d.phases b) ∙ rw self refl in
      ap (λ l. open_chain (rule_end (get_elem? l (length (d.phases phase))))) rules
      ∙ ap (λ o. open_chain (rule_end o)) (get_elem?-length (d.phases phase) rule)
      ∙ rw c refl

  count-started :
      (r : RuleWithOperator S) (d : Driver S U) (n : ℤ)
      → (n ==ℤ r.actions.info.rule_id) ≡ false
      → count n (all_ids (started r d).phases) ≤ count n (all_ids d.phases)
  unfolding operator_ids
  count-started r d n h =
      let b = count-all_ids-insert_rule r.actions.info.phase (with_operator r []) d.phases n in
      ground (arith, b, h)

  -- What has happened to the driver behind such rules.
  parse_rest-AreAcceptable :
      (rules : List (RuleWithOperator S)) (ids : List ℤ) (d : Driver S U)
      → AreAcceptable ids rules
      → open_chain (find_last d.last_rule d.phases) ≡ none
      → ((n : ℤ) → contains_int n ids ≡ false → count n (all_ids d.phases) ≡ 0)
      → let p = parse_rest (map sec_rule rules) (d, true) in
        (p.1 ≡ true)
        × ((i : ℕ) → p.0.phases i ≡ d.phases i ++ of_phase i rules)
        × ((n : ℤ)
            → contains_int n ids ≡ true
            → count n (all_ids p.0.phases) ≤ count n (all_ids d.phases))
  unfolding parse_rest add_directive
  parse_rest-AreAcceptable [] ids d a o h =
      (refl, λ i. sym (append-nil (d.phases i)), λ n c. omega arith)
  parse_rest-AreAcceptable (r ∷ rest) ids d (b, i, c, f, a) o h =
      let id = r.actions.info.rule_id in
      let step = add_sec_rule-started r d b i (not_contained id (all_ids d.phases) (h id f)) o in
      let ih =
        parse_rest-AreAcceptable rest (id ∷ ids) (started r d) a (started-closed r d b c) (λ n g.
          let m = count-started r d n (not_head n id ids g).0 in
          let z = h n (not_head n id ids g).1 in omega (arith, m, z)) in
      rw step (
        ih.0,
        λ j.
            ih.1 j
            ∙ ap (λ l. l ++ of_phase j rest) (started-phases r d j b)
            ∙ append_assoc (d.phases j) (of_phase j (r ∷ [])) (of_phase j rest)
            ∙ ap (λ l. d.phases j ++ l) (of_phase-cons j r rest),
        λ n g.
            let m = count-started r d n (apart n id ids g f) in
            let k = ih.2 n (in_tail n id ids g) in omega (arith, m, k),
      )

  -- A configuration of rules that begin no chain, each of a phase that there is, and with an
  -- identifier of its own that is not 0 and that no rule with an operator in a phase of the rule set
  -- has (rules that are chained to others do not count), is taken: the answer is not -1, and each phase has the rules that it had and behind them those of
  -- the configuration that are of it, in their order.
  pub load_rules-AreAcceptable :
      (rules : List (RuleWithOperator S)) (to : RulesBase S U)
      → AreAcceptable (all_ids to.phases) rules
      → let l = load_rules (map sec_rule rules) to in
        (l.1 ≢ negsuc 0)
        × ((i : ℕ) → i < number_of_phases → l.0.phases i ≡ to.phases i ++ of_phase i rules)
  unfolding load_rules parse merge_rules
  load_rules-AreAcceptable rules to a =
      let d : Driver S U = record new_driver { last_rule = none } in
      let p =
        parse_rest-AreAcceptable rules (all_ids to.phases) d a refl
          (λ n h. count-new_driver S U n) in
      let from = (parse_rest (map sec_rule rules) (d, true)).0.phases in
      let disjoint =
        overlaps-apart (all_ids to.phases) (all_ids from)
          (λ n h. let c = p.2 n h in let z = count-new_driver S U n in omega (arith, c, z)) in
      let m = (append_phases-overlaps from to.phases to.parser_error).1 disjoint in
      let good : ((append_phases from to.phases to.parser_error).amount ==ℤ negsuc 0) ≡ false =
        rw m.0 (ground arith) in
      rw (p.0, good)
        (
          λ e. pos-negsuc _ (sym m.0 ∙ e),
          λ i h. m.1 i h ∙ ap (λ l. to.phases i ++ l) (p.1 i ∙ refl),
        )
