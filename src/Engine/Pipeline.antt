-- ===== src/Engine/Pipeline.antt =====
-- Which transformations are applied to a value, and which values are tested.
use mod_security.Engine.Action.{Transformation}
use mod_security.Engine.Rule.{RuleWithActions, RulesConfig}
use mod_security.Engine.State.{Transaction}
use mod_security.Engine.Transform.{
  Progress, count_none, default_transformations, execute_transformation, execute_transformations,
  run_all, run_transformations, updated_transformations,
}
use mod_security.Prelude.{
  ==_iff, Bool, Bool-cases, List, [], ap, append-nil, append_assoc, arith, false, if◌then◌else◌,
  inl, inr, map, map-append, refl, sym, true, ◌++◌, ◌==◌, ◌∙◌, ◌∷◌, ◌≡◌,
}
use mod_security.Prelude.Bytes.{Bytes}

module _ {S : Type 0} where
  -- The transformations behind the last `none`; all of them where there is none.
  abbrev pub after_last_none : List (Transformation S) → List (Transformation S)
  after_last_none [] = []
  after_last_none (a ∷ rest) = if count_none (a ∷ rest) == 0 then a ∷ rest else after_last_none rest

  -- What is applied to the values that a rule looks at: the default transformations of the phase,
  -- unless the rule has a `none`; those of the rule behind its last `none`; and those of the
  -- directives that update the rule, behind the last `none` of theirs.
  abbrev pub effective : RulesConfig S → RuleWithActions S → List (Transformation S)
  effective config r =
      (if count_none r.transformations == 0
        then default_transformations (config.default_actions r.info.phase)
        else [])
      ++ (after_last_none r.transformations
          ++ after_last_none (
              updated_transformations r.info.rule_id
                config.exceptions.action_pre_update_target_by_id))

  -- The value behind all of them.
  abbrev pub apply_all : Transaction S → List (Transformation S) → Bytes → Bytes
  apply_all t [] v = v
  apply_all t (a ∷ rest) v = apply_all t rest (a.transform t v).0

  -- The values behind those that report a change.
  abbrev pub reported : Transaction S → List (Transformation S) → Bytes → List Bytes
  reported t [] v = []
  reported t (a ∷ rest) v =
      let value = (a.transform t v).0 in
      let later = reported t rest value in if (a.transform t v).1 then value ∷ later else later

  run_transformations-zero :
      (multi : Bool) (t : Transaction S) (l : List (Transformation S)) (p : Progress)
      → run_transformations multi t 0 l p ≡ run_all multi t l p
  unfolding run_transformations run_all
  run_transformations-zero multi t [] p = refl
  run_transformations-zero multi t (a ∷ rest) p =
      let p' = execute_transformation multi t a p in
      elim (Bool-cases a.is_none) [
        | inl e ↦ rw e (run_transformations-zero multi t rest p')
        | inr e ↦ rw e (run_transformations-zero multi t rest p')
      ]

  run_transformations-after_last_none :
      (multi : Bool) (t : Transaction S) (l : List (Transformation S)) (p : Progress)
      → run_transformations multi t (count_none l) l p ≡ run_all multi t (after_last_none l) p
  run_transformations-after_last_none multi t [] p = unfold run_transformations run_all in refl
  run_transformations-after_last_none multi t (a ∷ rest) p =
      elim (Bool-cases (count_none (a ∷ rest) == 0)) [
        | inl e ↦
            rw (e, (==_iff (count_none (a ∷ rest)) 0).0 e)
              (run_transformations-zero multi t (a ∷ rest) p)
        | inr e ↦ rw e (skip_first e ∙ run_transformations-after_last_none multi t rest p)
      ]
    where
      skip_first :
          (count_none (a ∷ rest) == 0) ≡ false
          → run_transformations multi t (count_none (a ∷ rest)) (a ∷ rest) p
            ≡ run_transformations multi t (count_none rest) rest p
      skip_first e =
          unfold run_transformations in
          rw e (ap (λ k. run_transformations multi t k rest p) (unfold count_none in ground arith))

  run_all-append :
      (multi : Bool) (t : Transaction S) (l k : List (Transformation S)) (p : Progress)
      → run_all multi t k (run_all multi t l p) ≡ run_all multi t (l ++ k) p
  unfolding run_all
  run_all-append multi t [] k p = refl
  run_all-append multi t (a ∷ rest) k p =
      run_all-append multi t rest k (execute_transformation multi t a p)

  run_all-current :
      (multi : Bool) (t : Transaction S) (l : List (Transformation S)) (p : Progress)
      → (run_all multi t l p).current ≡ apply_all t l p.current
  unfolding run_all execute_transformation
  run_all-current multi t [] p = refl
  run_all-current multi t (a ∷ rest) p =
      run_all-current multi t rest (execute_transformation multi t a p)

  run_all-results :
      (t : Transaction S) (l : List (Transformation S)) (p : Progress)
      → map (λ x. x.transformed) (run_all true t l p).results
        ≡ map (λ x. x.transformed) p.results ++ reported t l p.current
  unfolding run_all execute_transformation
  run_all-results t [] p = sym (append-nil (map (λ x. x.transformed) p.results))
  run_all-results t (a ∷ rest) p =
      run_all-results t rest (execute_transformation true t a p)
      ∙ (elim (Bool-cases (a.transform t p.current).1) [
        | inl e ↦ rw e (simp (map-append, append_assoc))
        | inr e ↦ rw e
      ])

  run_all-results_single :
      (t : Transaction S) (l : List (Transformation S)) (p : Progress)
      → (run_all false t l p).results ≡ p.results
  unfolding run_all execute_transformation
  run_all-results_single t [] p = refl
  run_all-results_single t (a ∷ rest) p =
      run_all-results_single t rest (execute_transformation false t a p)
      ∙ (elim (Bool-cases (a.transform t p.current).1) [ inl e ↦ rw e | inr e ↦ rw e ])

  execute-run_all :
      (multi : Bool) (config : RulesConfig S) (r : RuleWithActions S) (t : Transaction S)
      (p : Progress)
      → run_transformations multi t
          (count_none (
            updated_transformations r.info.rule_id
              config.exceptions.action_pre_update_target_by_id))
          (updated_transformations r.info.rule_id config.exceptions.action_pre_update_target_by_id)
          (run_transformations multi t (count_none r.transformations) r.transformations (
            if count_none r.transformations == 0
            then run_all multi t (default_transformations (config.default_actions r.info.phase)) p
            else p))
        ≡ run_all multi t (effective config r) p
  execute-run_all multi config r t p =
      rw (run_transformations-after_last_none, run_transformations-after_last_none)
        (elim (Bool-cases (count_none r.transformations == 0)) [
          | inl e ↦ rw e (rw (run_all-append, run_all-append))
          | inr e ↦ rw e (rw run_all-append (unfold run_all in refl))
        ])

  -- The values that the operator of a rule is tested on: without multiMatch the one value behind all
  -- effective transformations, with it the value itself and the value behind each effective
  -- transformation that reports a change, in order.
  pub execute_transformations-effective :
      (config : RulesConfig S) (r : RuleWithActions S) (t : Transaction S) (input : Bytes)
      → map (λ x. x.transformed) (execute_transformations config r t input) ≡ (
          if r.contains_multi_match_action
          then input ∷ reported t (effective config r) input
          else apply_all t (effective config r) input ∷ [])
  unfolding execute_transformations
  execute_transformations-effective config r t input =
      elim (Bool-cases r.contains_multi_match_action) [
        | inl e ↦
            let start : Progress = record {
              current = input;
              results = record { transformed = input; path_text = [] } ∷ [];
              path = [];
            } in
            rw e (
              ap (λ p. map (λ x. x.transformed) p.results) (execute-run_all true config r t start)
              ∙ run_all-results t (effective config r) start)
        | inr e ↦
            let start : Progress = record { current = input; results = []; path = [] } in
            let run = run_all false t (effective config r) start in
            rw e (
              ap
                (λ p.
                  map (λ x. x.transformed)
                    (p.results ++ record { transformed = p.current; path_text = p.path } ∷ []))
                (execute-run_all false config r t start)
              ∙ rw run_all-results_single
                  (ap (λ v. v ∷ []) (run_all-current false t (effective config r) start)))
      ]
