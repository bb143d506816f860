-- ===== src/Policy/Rules.antt =====
-- policy/rule-evaluator.ts. A rule's `evaluate` is a function of the context that returns a decision
-- or throws; the messages of the two fail-closed denials are named by their kind.
pub mod FailClosed
pub mod Modify
use runcor.Common.{
  Text, Option, none, some, List, [], ◌∷◌, Bool, true, false, if◌then◌else◌, includes, filter_by,
}
use runcor.Common.Int.{ℤ}
use runcor.Common.Sort.{sort_by}
use runcor.Policy.Context.{OperationType, operation_eq, PolicyContext}

-- `invalid` stands for every other action that a rule may return.
pub data Action : Type 0 where
  allow deny modify invalid : Action

pub record PolicyDecision (V : Type 0) : Type 0 where
  pub action : Action
  pub reason : Option Text
  pub modified_input : Option V

pub data RuleOutcome (V : Type 0) : Type 0 where
  threw : RuleOutcome V
  returned : PolicyDecision V → RuleOutcome V

pub record PolicyRule (V : Type 0) : Type 0 where
  pub name : Text
  pub priority : ℤ
  pub operations : List OperationType
  pub evaluate : PolicyContext V → RuleOutcome V

pub data Reason : Type 0 where
  given : Option Text → Reason
  rule_threw invalid_action : Reason

pub record RuleEvaluationResult (V : Type 0) : Type 0 where
  pub action : Action
  pub reason : Reason
  pub modified_input : Option V
  pub rule_name : Option Text

-- What one rule's outcome does to the loop: end it with a result, or go on with a last modify.
pub data Next (V : Type 0) : Type 0 where
  stop : RuleEvaluationResult V → Next V
  go_on : Option (RuleEvaluationResult V) → Next V

module _ {V : Type 0} where
  abbrev pub allow_all : RuleEvaluationResult V
  allow_all = record {
    action = allow;
    reason = given none;
    modified_input = none;
    rule_name = none;
  }

  abbrev pub fail_closed : Reason → Text → RuleEvaluationResult V
  fail_closed why name = record {
    action = deny;
    reason = why;
    modified_input = none;
    rule_name = some name;
  }

  -- `{ ...decision, ruleName: rule.name }`.
  abbrev pub of_rule : PolicyDecision V → Text → RuleEvaluationResult V
  of_rule d name = record {
    action = d.action;
    reason = given d.reason;
    modified_input = d.modified_input;
    rule_name = some name;
  }

  abbrev pub result_or :
      Option (RuleEvaluationResult V) → RuleEvaluationResult V → RuleEvaluationResult V
  result_or none d = d
  result_or (some r) d = r

  by_action : Action → PolicyDecision V → Text → Option (RuleEvaluationResult V) → Next V
  by_action invalid d name last = stop (fail_closed invalid_action name)
  by_action deny d name last = stop (of_rule d name)
  by_action modify d name last = go_on (some (of_rule d name))
  by_action allow d name last = go_on last

  unfoldable pub after_rule : RuleOutcome V → Text → Option (RuleEvaluationResult V) → Next V
  unfolding by_action
  after_rule threw name last = stop (fail_closed rule_threw name)
  after_rule (returned d) name last = by_action d.action d name last

  -- The loop over the sorted rules.
  unfoldable pub evaluate_sorted :
      PolicyContext V
      → List (PolicyRule V)
      → Option (RuleEvaluationResult V)
      → RuleEvaluationResult V
  evaluate_sorted context [] last = result_or last allow_all
  evaluate_sorted context (r ∷ rs) last = elim (after_rule (r.evaluate context) r.name last) [
    | stop result ↦ result
    | go_on last' ↦ evaluate_sorted context rs last'
  ]

  abbrev pub applies : PolicyContext V → PolicyRule V → Bool
  applies context r = includes r.operations context.operation

  -- The two early returns for an empty list give what the loop gives on it.
  unfoldable pub evaluate_rules : List (PolicyRule V) → PolicyContext V → RuleEvaluationResult V
  evaluate_rules rules context =
      evaluate_sorted context (sort_by (λ r. r.priority) (filter_by (applies context) rules)) none
