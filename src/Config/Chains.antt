-- ===== src/Config/Chains.antt =====
-- RulesSet::load: the phase that each rule is in, and the rules that are chained to it.
use mod_security.Config.Driver.{
  Directive, Driver, LastRule, RulesBase, add_chained, add_directive, add_sec_action,
  add_sec_marker, add_sec_rule, add_sec_rule_script, add_starter, chain_end, chain_or_start,
  chain_rule_at, chained_rule, complain, find_last, insert_markers, load_rules, merge_rules,
  new_base, new_driver, open_chain, parse, parse_rest, rule_end, sec_action, sec_marker, sec_rule,
  sec_rule_script, unknown_phase,
}
use mod_security.Config.Phases.{
  RulesSetPhases, all_ids, append_below, append_phases, append_rules, contains_int, find_duplicate,
  insert_rule, set_phase_rules,
}
use mod_security.Engine.Action.{Action}
use mod_security.Engine.Rule.{
  Rule, RuleWithOperator, marker_rule, script, unconditional, with_operator,
}
use mod_security.Engine.State.{number_of_phases}
use mod_security.Prelude.{
  Bool, Bool-cases, List, Option, Option-cases, [], ap, arith, false, get_elem?, if_ind,
  if◌then◌else◌, inl, inr, leb, none, refl, some, subst, suc, sym, true, true≢false, zero, ℕ, ◌++◌,
  ◌==◌, ◌∙◌, ◌∷◌, ◌≡◌, ◌≢◌,
}
use mod_security.Prelude.Bytes.{All, Bytes}
use mod_security.Prelude.Int.{==ℤ_iff, ltb_ℤ, negsuc, pos, ℤ, ◌==ℤ◌}

All-append {ℓ κ} : {A : Type ℓ} (P : A → Type κ) (a b : List A) → All P a → All P b → All P (a ++ b)
All-append P [] b h k = k
All-append P (x ∷ a) b h k = (h.0, All-append P a b h.1 k)

some_injective {ℓ} : {A : Type ℓ} (a : A) {b : A} → some a ≡ some b → a ≡ b
some_injective a e = ap (λ o. elim o [ none ↦ a | some c ↦ c ]) e

get_elem?-All {ℓ κ} :
    {A : Type ℓ} (P : A → Type κ) (xs : List A) (n : ℕ) (x : A)
    → All P xs
    → get_elem? xs n ≡ some x
    → P x
get_elem?-All P [] n x h e = ground arith
get_elem?-All P (y ∷ xs) zero x h e = (subst P (some_injective y e) h.0)
get_elem?-All P (y ∷ xs) (suc n) x h e = get_elem?-All P xs n x h.1 e

guarded-some {ℓ} :
    {A : Type ℓ} (b : Bool) (o : Option A) (a : A) → (if b then o else none) ≡ some a → o ≡ some a
guarded-some true o a e = e
guarded-some false none a e = e
guarded-some false (some c) a e = ground arith

module _ {S : Type 0} where
  -- A rule that is chained to one of a phase.
  abbrev pub IsChained : ℕ → RuleWithOperator S → Type 0
  IsChained i c =
      (c.actions.disruptive_action ≡ none)
      × (c.actions.info.phase ≡ i)
      × (c.actions.has_parent ≡ true)

  -- A rule with an operator as it should be in a phase: with an identifier, of that phase, and all
  -- rules of its chain as they should be.
  abbrev pub IsPlaced : ℕ → Rule S → Type 0
  IsPlaced i (with_operator r children) =
      (r.actions.info.rule_id ≢ pos 0) × (r.actions.info.phase ≡ i) × All (IsChained i) children
  IsPlaced i (marker_rule name) = Unit
  IsPlaced i (unconditional r) = Unit
  IsPlaced i (script r lua) = Unit

  abbrev pub ArePlaced : RulesSetPhases S → Type 0
  ArePlaced p = (i : ℕ) → All (IsPlaced i) (p i)

  set_phase_rules-ArePlaced :
      (k : ℕ) (rules : List (Rule S)) (p : RulesSetPhases S)
      → All (IsPlaced k) rules
      → ArePlaced p
      → ArePlaced (set_phase_rules k rules p)
  set_phase_rules-ArePlaced k rules p h u i = elim (Bool-cases (i == k)) [
    | inl y ↦ let e : k ≡ i = ground arith in rw y (subst (λ j. All (IsPlaced j) rules) e h)
    | inr n ↦ rw n (u i)
  ]

  insert_rule-ArePlaced :
      (k : ℕ) (rule : Rule S) (p : RulesSetPhases S)
      → IsPlaced k rule
      → ArePlaced p
      → ArePlaced (insert_rule k rule p).0
  unfolding insert_rule
  insert_rule-ArePlaced k rule p h u =
      if_ind (λ (z : RulesSetPhases S × Bool). ArePlaced z.0) (leb number_of_phases k) u
        (set_phase_rules-ArePlaced k (p k ++ rule ∷ []) p
          (All-append (IsPlaced k) (p k) (rule ∷ []) (u k) (h, tt)) u)

  insert_markers-ArePlaced :
      (k : ℕ) (name : Bytes) (p : RulesSetPhases S)
      → ArePlaced p
      → ArePlaced (insert_markers k name p)
  unfolding insert_markers
  insert_markers-ArePlaced zero name p u = u
  insert_markers-ArePlaced (suc k) name p u =
      insert_rule-ArePlaced k (marker_rule name) (insert_markers k name p) tt
        (insert_markers-ArePlaced k name p u)

  chain_rule_at-ArePlaced :
      (c : RuleWithOperator S) (i n : ℕ) (rules : List (Rule S))
      → IsChained i c
      → All (IsPlaced i) rules
      → All (IsPlaced i) (chain_rule_at c n rules)
  unfolding chain_rule_at
  chain_rule_at-ArePlaced c i n [] h u = tt
  chain_rule_at-ArePlaced c i zero (with_operator r l ∷ rest) h u =
      ((u.0.0, u.0.1, All-append (IsChained i) l (c ∷ []) u.0.2 (h, tt)), u.1)
  chain_rule_at-ArePlaced c i zero (marker_rule name ∷ rest) h u = u
  chain_rule_at-ArePlaced c i zero (unconditional r ∷ rest) h u = u
  chain_rule_at-ArePlaced c i zero (script r lua ∷ rest) h u = u
  chain_rule_at-ArePlaced c i (suc n) (rule ∷ rest) h u =
      (u.0, chain_rule_at-ArePlaced c i n rest h u.1)

  chain_end-phase :
      (i : ℕ) (r : RuleWithOperator S) (l : List (RuleWithOperator S))
      → r.actions.info.phase ≡ i
      → All (IsChained i) l
      → (chain_end r l).actions.info.phase ≡ i
  unfolding chain_end
  chain_end-phase i r [] e h = e
  chain_end-phase i r (c ∷ l) e h = chain_end-phase i c l h.0.1 h.1

  -- The rule that m_lastRule points to is in the phase that it points into.
  rule_end-phase :
      (i : ℕ) (o : Option (Rule S)) (parent : RuleWithOperator S)
      → ((rule : Rule S) → o ≡ some rule → IsPlaced i rule)
      → rule_end o ≡ some parent
      → parent.actions.info.phase ≡ i
  unfolding rule_end
  rule_end-phase i none parent h e = ground arith
  rule_end-phase i (some (with_operator r l)) parent h e =
      let u = h (with_operator r l) refl in
      ap (λ c. c.actions.info.phase) (sym (some_injective (chain_end r l) e))
      ∙ chain_end-phase i r l u.1 u.2
  rule_end-phase i (some (marker_rule name)) parent h e = ground arith
  rule_end-phase i (some (unconditional r)) parent h e = ground arith
  rule_end-phase i (some (script r lua)) parent h e = ground arith

  abbrev PointsInto : Option LastRule → RuleWithOperator S → Type 0
  PointsInto last parent = (l : LastRule) → last ≡ some l → parent.actions.info.phase ≡ l.last_phase

  open_chain-some :
      (o : Option (RuleWithOperator S)) (parent : RuleWithOperator S)
      → open_chain o ≡ some parent
      → o ≡ some parent
  unfolding open_chain
  open_chain-some none parent e = e
  open_chain-some (some r) parent e = guarded-some r.actions.is_chained (some r) parent e

  open_chain-PointsInto :
      (last : Option LastRule) (p : RulesSetPhases S) (parent : RuleWithOperator S)
      → ArePlaced p
      → open_chain (find_last last p) ≡ some parent
      → PointsInto last parent
  unfolding find_last
  open_chain-PointsInto none p parent u e l d = ground arith
  open_chain-PointsInto (some k) p parent u e l d =
      let here =
        rule_end-phase k.last_phase (get_elem? (p k.last_phase) k.last_index) parent
          (λ rule f.
            get_elem?-All (IsPlaced k.last_phase) (p k.last_phase) k.last_index rule
              (u k.last_phase) f)
          (open_chain-some (find_last (some k) p) parent e) in
      here ∙ ap (λ j. j.last_phase) (some_injective k d)

new_driver-ArePlaced : (S U : Type 0) → ArePlaced (new_driver {S = S} {U = U}).phases
unfolding new_driver new_base
new_driver-ArePlaced S U i = tt

module _ {S U : Type 0} where
  add_chained-ArePlaced :
      (a : Option (Action S)) (l : Option LastRule) (parent r : RuleWithOperator S) (d : Driver S U)
      → r.actions.disruptive_action ≡ a
      → PointsInto l parent
      → ArePlaced d.phases
      → ArePlaced (add_chained a l parent r d).0.phases
  unfolding add_chained complain
  add_chained-ArePlaced (some a) l parent r d e h u = u
  add_chained-ArePlaced none none parent r d e h u = u
  add_chained-ArePlaced none (some l) parent r d e h u =
      let rules = chain_rule_at (chained_rule parent r) l.last_index (d.phases l.last_phase) in
      set_phase_rules-ArePlaced l.last_phase rules d.phases
        (chain_rule_at-ArePlaced (chained_rule parent r) l.last_phase l.last_index
          (d.phases l.last_phase) (e, h l refl, refl) (u l.last_phase))
        u

  add_starter-ArePlaced :
      (r : RuleWithOperator S) (d : Driver S U)
      → ArePlaced d.phases
      → ArePlaced (add_starter r d).0.phases
  unfolding add_starter complain
  add_starter-ArePlaced r d u = elim (Bool-cases (r.actions.info.rule_id ==ℤ pos 0)) [
    | inl y ↦ rw y u
    | inr z ↦
        let given : r.actions.info.rule_id ≢ pos 0 =
          λ e. true≢false (sym ((==ℤ_iff r.actions.info.rule_id (pos 0)).1 e) ∙ z) in
        rw z (
          if_ind (λ (s : Driver S U × Bool). ArePlaced s.0.phases)
            (contains_int r.actions.info.rule_id (all_ids d.phases)) u
            (insert_rule-ArePlaced r.actions.info.phase (with_operator r []) d.phases
              (given, refl, tt) u))
  ]

  chain_or_start-ArePlaced :
      (o : Option (RuleWithOperator S)) (r : RuleWithOperator S) (d : Driver S U)
      → ((parent : RuleWithOperator S) → o ≡ some parent → PointsInto d.last_rule parent)
      → ArePlaced d.phases
      → ArePlaced (chain_or_start o r d).0.phases
  unfolding chain_or_start
  chain_or_start-ArePlaced none r d h u = add_starter-ArePlaced r d u
  chain_or_start-ArePlaced (some parent) r d h u =
      add_chained-ArePlaced r.actions.disruptive_action d.last_rule parent r d refl (h parent refl)
        u

  add_directive-ArePlaced :
      (i : Directive S) (d : Driver S U)
      → ArePlaced d.phases
      → ArePlaced (add_directive i d).0.phases
  unfolding add_directive add_sec_rule add_sec_action add_sec_rule_script add_sec_marker
      unknown_phase complain
  add_directive-ArePlaced (sec_rule r) d u =
      if_ind (λ (s : Driver S U × Bool). ArePlaced s.0.phases)
        (leb number_of_phases r.actions.info.phase) u
        (chain_or_start-ArePlaced (open_chain (find_last d.last_rule d.phases)) r d
          (λ parent e. open_chain-PointsInto d.last_rule d.phases parent u e) u)
  add_directive-ArePlaced (sec_action r) d u =
      if_ind (λ (s : Driver S U × Bool). ArePlaced s.0.phases) (leb number_of_phases r.info.phase) u
        (insert_rule-ArePlaced r.info.phase (unconditional r) d.phases tt u)
  add_directive-ArePlaced (sec_rule_script r lua) d u =
      insert_rule-ArePlaced r.info.phase (script r lua) d.phases tt u
  add_directive-ArePlaced (sec_marker name) d u =
      insert_markers-ArePlaced number_of_phases name d.phases u

  parse_rest-ArePlaced :
      (directives : List (Directive S)) (s : Driver S U × Bool)
      → ArePlaced s.0.phases
      → ArePlaced (parse_rest directives s).0.phases
  unfolding parse_rest
  parse_rest-ArePlaced [] s u = u
  parse_rest-ArePlaced (i ∷ rest) s u =
      if_ind (λ (z : Driver S U × Bool). ArePlaced z.0.phases) s.1
        (parse_rest-ArePlaced rest (add_directive i s.0) (add_directive-ArePlaced i s.0 u)) u

module _ {S : Type 0} where
  append_below-ArePlaced :
      (k : ℕ) (ids : List ℤ) (from to : RulesSetPhases S) (error : Bytes)
      → ArePlaced from
      → ArePlaced to
      → ArePlaced (append_below k ids from to error).phases_after
  unfolding append_below append_rules
  append_below-ArePlaced zero ids from to error f t = t
  append_below-ArePlaced (suc k) ids from to error f t =
      let a = append_below k ids from to error in
      let ih = append_below-ArePlaced k ids from to error f t in
      elim (Bool-cases (ltb_ℤ a.amount (pos 0))) [
        | inl y ↦ rw y ih
        | inr n ↦ elim (Option-cases (find_duplicate ids (from k))) [
          | inr (m, d) ↦ rw (n, d) ih
          | inl d ↦
              rw (n, d)
                (set_phase_rules-ArePlaced k (a.phases_after k ++ from k) a.phases_after
                  (All-append (IsPlaced k) (a.phases_after k) (from k) (ih k) (f k)) ih)
        ]
      ]

module _ {S U : Type 0} where
  -- Whatever directives are loaded into a rule set, whether they are taken or refused: behind it,
  -- each rule with an operator that is not chained to another has an identifier and stands in the rules
  -- of its own phase, and each rule that is chained to it is of that phase, knows that it is chained and has no disruptive
  -- action; if that was so before.
  pub load_rules-ArePlaced :
      (directives : List (Directive S)) (to : RulesBase S U)
      → ArePlaced to.phases
      → ArePlaced (load_rules directives to).0.phases
  unfolding load_rules parse merge_rules append_phases
  load_rules-ArePlaced directives to u =
      let s : Driver S U × Bool = (record new_driver { last_rule = none }, true) in
      let p = parse_rest directives s in
      let new = parse_rest-ArePlaced directives s (new_driver-ArePlaced S U) in
      let m =
        append_below-ArePlaced number_of_phases (all_ids to.phases) p.0.phases to.phases
          to.parser_error new u in
      if_ind (λ (z : RulesBase S U × ℤ). ArePlaced z.0.phases) p.1
        (if_ind (λ (z : RulesBase S U × ℤ). ArePlaced z.0.phases)
          ((merge_rules p.0.base to).1 ==ℤ negsuc 0) m m)
        u
