-- ===== src/Policy/Rules/FailClosed.antt =====
-- policy/rule-evaluator.ts: one denying rule denies, whatever the order, and rules that fail deny.
use runcor.Common.{
  ◌≡◌, refl, ◌⊎◌, inl, inr, ◌↔◌, Text, Option, none, some, List, [], ◌∷◌, true, includes, filter_by,
  arith, AnyOf, AnyOf-filter_by,
}
use runcor.Common.Sort.{sort_by, sort_by-AnyOf}
use runcor.Policy.Context.{operation_eq, PolicyContext}
use runcor.Policy.Rules.{
  Action, allow, deny, modify, invalid, RuleOutcome, threw, returned, PolicyRule,
  RuleEvaluationResult, of_rule, fail_closed, invalid_action, stop, go_on, after_rule,
  evaluate_sorted, applies, evaluate_rules,
}

module _ {V : Type 0} where
  -- The outcomes that must stop an operation.
  abbrev pub Blocks : RuleOutcome V → Type 0
  Blocks threw = Unit
  Blocks (returned d) = (d.action ≡ deny) ⊎ (d.action ≡ invalid)

  abbrev pub IsDenying : PolicyContext V → PolicyRule V → Type 0
  IsDenying context r =
      (includes r.operations context.operation ≡ true) × Blocks (r.evaluate context)

  -- A last modify that is carried along is none or a modify.
  abbrev IsCarried : Option (RuleEvaluationResult V) → Type 0
  IsCarried none = Unit
  IsCarried (some r) = r.action ≡ modify

  after_rule_cases :
      (o : RuleOutcome V) (name : Text) (last : Option (RuleEvaluationResult V))
      → IsCarried last
      → (Blocks o
          × ((res : RuleEvaluationResult V) × (after_rule o name last ≡ stop res)
              × (res.action ≡ deny)))
        ⊎ ((¬ Blocks o)
            × ((next : Option (RuleEvaluationResult V)) × (after_rule o name last ≡ go_on next)
                × IsCarried next))
  unfolding after_rule
  after_rule_cases threw name last c = inl (tt, (_, refl, refl))
  after_rule_cases (returned d) name last c = go d.action refl
    where
      go :
          (a : Action)
          → d.action ≡ a
          → (Blocks (returned d)
              × ((res : RuleEvaluationResult V) × (after_rule (returned d) name last ≡ stop res)
                  × (res.action ≡ deny)))
            ⊎ ((¬ Blocks (returned d))
                × ((next : Option (RuleEvaluationResult V)) × (after_rule (returned d) name last
                      ≡ go_on next)
                    × IsCarried next))
      go allow e = inr (ground arith, (last, rw e, c))
      go deny e = inl (inl e, (of_rule d name, rw e, e))
      go modify e = inr (ground arith, (some (of_rule d name), rw e, e))
      go invalid e = inl (inr e, (fail_closed invalid_action name, rw e, refl))

  evaluate_sorted-deny :
      (context : PolicyContext V) (rs : List (PolicyRule V))
      (last : Option (RuleEvaluationResult V))
      → IsCarried last
      → ((evaluate_sorted context rs last).action ≡ deny)
        ↔ AnyOf (λ r. Blocks (r.evaluate context)) rs
  unfolding evaluate_sorted
  evaluate_sorted-deny context [] none c = (λ h. cc, λ h. absurd h)
  evaluate_sorted-deny context [] (some x) c = (λ h. cc, λ h. absurd h)
  evaluate_sorted-deny context (r ∷ rs) last c =
      elim (after_rule_cases (r.evaluate context) r.name last c) [
        | inl (b, (res, e, d)) ↦ rw (e, evaluate_sorted) (λ _. inl b, λ _. d)
        | inr (n, (next, e, c')) ↦
            rw (e, evaluate_sorted)
              (
                λ h. inr ((evaluate_sorted-deny context rs next c').0 h),
                elim [
                  | inl b ↦ absurd (n b)
                  | inr b ↦ (evaluate_sorted-deny context rs next c').1 b
                ],
              )
      ]

  -- The decision is to deny exactly if some rule that applies to the operation denies, throws or
  -- returns an unknown action, wherever it stands and whatever its priority.
  pub evaluate_rules-deny :
      (rules : List (PolicyRule V)) (context : PolicyContext V)
      → ((evaluate_rules rules context).action ≡ deny) ↔ AnyOf (λ r. IsDenying context r) rules
  unfolding evaluate_rules
  evaluate_rules-deny rules context =
      let kept = filter_by (applies context) rules in
      let P : PolicyRule V → Type 0 = λ r. Blocks (r.evaluate context) in
      let e = evaluate_sorted-deny context (sort_by (λ r. r.priority) kept) none tt in
      let s = sort_by-AnyOf (λ r. r.priority) P kept in
      let f = AnyOf-filter_by P (applies context) rules in
      (λ h. f.0 (s.0 (e.0 h)), λ h. e.1 (s.1 (f.1 h)))
