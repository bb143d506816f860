-- ===== src/Policy/Rules/Modify.antt =====
-- policy/rule-evaluator.ts: what a modifying rule contributes when nothing denies.
use runcor.Common.{
  ◌≡◌, refl, sym, ap, ◌∙◌, inl, inr, Option, none, some, List, [], ◌∷◌, filter_by, arith, AnyOf,
  AnyOf-filter_by, map,
}
use runcor.Common.Sort.{sort_by, sort_by-AnyOf}
use runcor.Policy.Context.{PolicyContext}
use runcor.Policy.Rules.{
  Action, modify, threw, returned, PolicyRule, RuleEvaluationResult, allow_all, result_or, of_rule,
  go_on, after_rule, evaluate_sorted, applies, evaluate_rules,
}
use runcor.Policy.Rules.FailClosed.{Blocks, IsDenying}

module _ {V : Type 0} where
  abbrev modification : Action → RuleEvaluationResult V → Option (RuleEvaluationResult V)
  modification modify r = some r
  modification _ r = none

  -- The result that a rule's modification makes, if it makes one.
  abbrev pub modified : PolicyContext V → PolicyRule V → Option (RuleEvaluationResult V)
  modified context r = elim (r.evaluate context) [
    | threw ↦ none
    | returned d ↦ modification d.action (of_rule d r.name)
  ]

  -- The last entry that is there.
  abbrev pub last_of :
      Option (RuleEvaluationResult V)
      → List (Option (RuleEvaluationResult V))
      → Option (RuleEvaluationResult V)
  last_of last [] = last
  last_of last (none ∷ xs) = last_of last xs
  last_of last (some x ∷ xs) = last_of (some x) xs

  pass_rule :
      (context : PolicyContext V) (r : PolicyRule V) (last : Option (RuleEvaluationResult V))
      → ¬ Blocks (r.evaluate context)
      → after_rule (r.evaluate context) r.name last ≡ go_on (last_of last (modified context r ∷ []))
  unfolding after_rule
  pass_rule context r last n = ground arith

  last_of-cons :
      (last x : Option (RuleEvaluationResult V)) (xs : List (Option (RuleEvaluationResult V)))
      → last_of last (x ∷ xs) ≡ last_of (last_of last (x ∷ [])) xs
  last_of-cons last none xs = refl
  last_of-cons last (some x) xs = refl

  evaluate_sorted-modify :
      (context : PolicyContext V) (rs : List (PolicyRule V))
      (last : Option (RuleEvaluationResult V))
      → ¬ AnyOf (λ r. Blocks (r.evaluate context)) rs
      → evaluate_sorted context rs last
        ≡ result_or (last_of last (map (modified context) rs)) allow_all
  unfolding evaluate_sorted
  evaluate_sorted-modify context [] last n = refl
  evaluate_sorted-modify context (r ∷ rs) last n =
      rw (pass_rule context r last (λ b. n (inl b)), evaluate_sorted)
        (evaluate_sorted-modify context rs (last_of last (modified context r ∷ [])) (λ b. n (inr b))
          ∙ sym (
              ap (λ o. result_or o allow_all)
                (last_of-cons last (modified context r) (map (modified context) rs))))

  -- When no rule that applies denies, throws or answers with an unknown action, the result is the
  -- decision of the last modifying rule in order of priority, under that rule's name, and a plain
  -- `allow` if no rule modifies.
  pub evaluate_rules-modify :
      (rules : List (PolicyRule V)) (context : PolicyContext V)
      → ¬ AnyOf (λ r. IsDenying context r) rules
      → evaluate_rules rules context
        ≡ result_or
            (last_of none (
              map
                (modified context)
                (sort_by (λ r. r.priority) (filter_by (applies context) rules))))
            allow_all
  unfolding evaluate_rules
  evaluate_rules-modify rules context n =
      let kept = filter_by (applies context) rules in
      let P : PolicyRule V → Type 0 = λ r. Blocks (r.evaluate context) in
      evaluate_sorted-modify context (sort_by (λ r. r.priority) kept) none (λ h. n (
        (AnyOf-filter_by P (applies context) rules).0
          ((sort_by-AnyOf (λ r. r.priority) P kept).0 h)))
