-- ===== src/Policy/Examples.antt =====
-- The policies at concrete requests: a user with an own access policy, a rule that changes the
-- input, and guardrails on the input.
use runcor.Common.{
  ℕ, ◌≡◌, refl, inl, ◌↔◌, Text, none, some, List, [], ◌∷◌, map, true, false, arith, codes, AnyOf,
  filter_by, suc, text_eq,
}
use runcor.Common.Dict
use runcor.Common.Dict.{Dict, values}
use runcor.Common.Int.{pos}
use runcor.Common.Sort.{sort_by, insert}
use runcor.Errors.{ok, err, guardrail_blocked, access_denied}
use runcor.Policy.Context.{trigger, replay, PolicyContext, operation_eq}
use runcor.Policy.AccessControl.{AccessPolicy, evaluate_access}
use runcor.Policy.AccessControl.Correct.{InForce, by_user, Permits, evaluate_access-allowed}
use runcor.Policy.Rules.{
  deny, modify, PolicyRule, returned, threw, evaluate_rules, evaluate_sorted, after_rule, applies,
  result_or, allow_all,
}
use runcor.Policy.Rules.FailClosed.{IsDenying, evaluate_rules-deny}
use runcor.Policy.Rules.Modify.{modified, last_of, evaluate_rules-modify}
use runcor.Policy.Guardrails.{
  input, GuardrailContext, Guardrail, GuardrailWarning, blocks, warns, run_guardrails,
}
use runcor.Policy.Guardrails.Run.{Passage, in_order, run_guardrails-Passage}
use runcor.Policy.RateLimiter
use runcor.Policy.RateLimiter.{RateLimitConfig, Scope, global}
use runcor.Policy.Engine.Registry.Valid.{
  Change, adds_policy, adds_guardrail, adds_rate_limit, removes_guardrail, changes, IsValid,
  changes-IsValid,
}
use runcor.Policy.Engine.{
  PolicyEngine, proceeds, throws, evaluate_pre_execution, has_any_policies, access_allows,
  limit_step, applicable_limits, rule_step,
}
use runcor.Policy.RateLimiter.{Settlement, CheckResult, resolved}
use runcor.Policy.Engine.{after_wait}
use runcor.Policy.Engine.Gate.{after_wait-permitted, proceeds-permitted, access_denied-frame}

abbrev for_ann : AccessPolicy
for_ann = record {
  identity = codes "ann";
  allowed_flows = some (codes "brief" ∷ []);
  denied_flows = none;
  allowed_operations = none;
  denied_operations = some (replay ∷ []);
}

abbrev access : Dict Text AccessPolicy
access = (codes "ann", for_ann) ∷ []

abbrev ann_briefs : PolicyContext ℕ
ann_briefs = record {
  operation = trigger;
  flow_name = codes "brief";
  user_id = some (codes "ann");
  tenant_id = none;
  input = 5;
  execution_id = none;
  metadata = 0;
}

-- A rule that raises the input, and one that fails.
abbrev raising : PolicyRule ℕ
raising = record {
  name = codes "raise";
  priority = pos 10;
  operations = trigger ∷ [];
  evaluate = λ c.
      returned (record { action = modify; reason = none; modified_input = some (suc c.input) });
}

abbrev failing : PolicyRule ℕ
failing = record raising { name = codes "fail"; priority = pos 20; evaluate = λ c. threw }

abbrev checking : GuardrailContext
checking = record {
  execution_id = codes "e1";
  flow_name = codes "brief";
  user_id = none;
  tenant_id = none;
  phase = input;
}

abbrev doubting : Guardrail ℕ
doubting = record {
  name = codes "doubt";
  guards = input;
  priority = pos 5;
  handler = λ x c. warns none;
  failure_mode = none;
  flow_name = none;
}

abbrev stopping : Guardrail ℕ
stopping = record doubting { name = codes "stop"; priority = pos 1; handler = λ x c. blocks }

abbrev gate : PolicyEngine ℕ ℕ
gate = record {
  rules = (codes "raise", raising) ∷ [];
  guardrails = doubting ∷ [];
  rate_limits = [];
  access_policies = access;
  tenants = [];
  rate_limiter = RateLimiter.new;
  events = [];
}

evaluate_access-allowed_example :
    ((evaluate_access access (some (codes "ann")) none trigger (codes "brief")).allowed ≡ true) ↔ (
      (p : AccessPolicy)
      → InForce access (some (codes "ann")) none p
      → Permits p trigger (codes "brief"))
evaluate_access-allowed_example =
    evaluate_access-allowed access (some (codes "ann")) none trigger (codes "brief")

evaluate_rules-deny_example :
    ((evaluate_rules (raising ∷ failing ∷ []) ann_briefs).action ≡ deny)
    ↔ AnyOf (λ r. IsDenying ann_briefs r) (raising ∷ failing ∷ [])
evaluate_rules-deny_example = evaluate_rules-deny (raising ∷ failing ∷ []) ann_briefs

nothing_denies : ¬ AnyOf (λ r. IsDenying ann_briefs r) (raising ∷ [])
nothing_denies h = ground arith

evaluate_rules-modify_example :
    evaluate_rules (raising ∷ []) ann_briefs
    ≡ result_or
        (last_of none (
          map
            (modified ann_briefs)
            (sort_by (λ r. r.priority) (filter_by (applies ann_briefs) (raising ∷ [])))))
        allow_all
evaluate_rules-modify_example = evaluate_rules-modify (raising ∷ []) ann_briefs nothing_denies

run_guardrails-Passage_example :
    ((run_guardrails (doubting ∷ stopping ∷ []) 7 checking ≡ ok (7, []))
      ↔ Passage checking (in_order checking (doubting ∷ stopping ∷ [])) 7 7 [])
    × ((run_guardrails (doubting ∷ stopping ∷ []) 7 checking ≡ err guardrail_blocked) ↔ (
        (y : ℕ) (ws : List GuardrailWarning)
        → ¬ Passage checking (in_order checking (doubting ∷ stopping ∷ [])) 7 y ws))
run_guardrails-Passage_example = run_guardrails-Passage checking (doubting ∷ stopping ∷ []) 7 7 []

goes_on : (evaluate_pre_execution ann_briefs false 100 gate).0 ≡ proceeds 6
unfolding evaluate_pre_execution has_any_policies access_allows limit_step applicable_limits
    rule_step evaluate_access evaluate_rules evaluate_sorted after_rule sort_by insert Dict.has
    Dict.get
goes_on = refl

proceeds-permitted_example :
    ((p : AccessPolicy)
      → InForce access (some (codes "ann")) none p
      → Permits p trigger (codes "brief"))
    × (¬ AnyOf (λ r. IsDenying ann_briefs r) (raising ∷ []))
proceeds-permitted_example = proceeds-permitted ann_briefs false 100 gate 6 goes_on

abbrev ann_replays : PolicyContext ℕ
ann_replays = record ann_briefs { operation = replay }

of_ann : InForce access (some (codes "ann")) none for_ann
unfolding Dict.get
of_ann = by_user (λ h. cc, refl)

not_replay : ¬ Permits for_ann replay (codes "brief")
not_replay p = p.operation_free (inl refl)

access_denied-frame_example :
    evaluate_pre_execution ann_replays false 100 gate ≡ (throws access_denied, gate)
access_denied-frame_example =
    access_denied-frame ann_replays false 100 gate for_ann of_ann not_replay

abbrev bare : PolicyEngine ℕ ℕ
bare = record gate { rules = []; guardrails = []; access_policies = [] }

abbrev per_minute : RateLimitConfig
per_minute = record {
  name = codes "minute";
  scope = global;
  limit = 3;
  window_ms = 60000;
  behavior = none;
  max_queue_depth = none;
  queue_timeout_ms = none;
  flow_name = none;
}

abbrev setup : List (Change ℕ ℕ)
setup =
    adds_policy raising
    ∷ adds_policy raising
    ∷ adds_guardrail doubting
    ∷ adds_rate_limit per_minute
    ∷ removes_guardrail (codes "doubt")
    ∷ []

bare-IsValid : IsValid bare
bare-IsValid = record { rules_valid = tt; limits_valid = tt; names_unique = tt }

changes-IsValid_example : IsValid (changes setup bare)
changes-IsValid_example = changes-IsValid setup bare bare-IsValid

abbrev released : Settlement
released = resolved (record { allowed = true; current_count = 1; config_name = codes "minute" })

goes_on_released : (after_wait released ann_briefs 100 gate).0 ≡ proceeds 6
unfolding after_wait rule_step evaluate_rules evaluate_sorted after_rule sort_by insert
goes_on_released = refl

after_wait-permitted_example :
    ((result : CheckResult) × (released ≡ resolved result))
    × (¬ AnyOf (λ r. IsDenying ann_briefs r) (raising ∷ []))
after_wait-permitted_example = after_wait-permitted released ann_briefs 100 gate 6 goes_on_released
