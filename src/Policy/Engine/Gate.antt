-- ===== src/Policy/Engine/Gate.antt =====
-- policy/policy-engine.ts: what a request has passed when `evaluatePreExecution` lets it proceed.
use runcor.Common.{
  ℕ, ◌≡◌, refl, inl, inr, Text, Option, none, some, List, [], ◌∷◌, Bool, true, false, arith, AnyOf,
  Bool-cases, ◌||◌,
}
use runcor.Common.Dict
use runcor.Common.Dict.{Dict, values}
use runcor.Errors.{access_denied}
use runcor.Policy.Context.{PolicyContext}
use runcor.Policy.AccessControl.{AccessPolicy}
use runcor.Policy.AccessControl.Correct.{
  InForce, by_user, by_tenant, by_default, Selects, Permits, evaluate_access-allowed,
}
use runcor.Policy.RateLimiter.{
  Settlement, CheckResult, resolved, rejected, RateLimitConfig, Verdict, answered, refused, pending,
}
use runcor.Policy.RateLimiter.Calls.{check_multiple}
use runcor.Policy.Rules.{PolicyRule}
use runcor.Policy.Rules.FailClosed.{IsDenying, evaluate_rules-deny}
use runcor.Policy.Engine.{
  after_wait, PolicyEngine, proceeds, throws, is_nil, has_any_policies, access_allows,
  applicable_limits, rule_step, after_verdict, limit_step, evaluate_pre_execution,
}

no_rule :
    {V : Type 0} (P : PolicyRule V → Type 0) (m : Dict Text (PolicyRule V))
    → is_nil m ≡ true
    → ¬ AnyOf P (values m)
no_rule P [] h b = b
no_rule P (r ∷ m) h b = cc

not-Selects : (u : Option Text) (p : AccessPolicy) → ¬ Selects [] u p
unfolding Dict.get
not-Selects none p h = h
not-Selects (some k) p h = cc (h.1)

no_policy :
    (m : Dict Text AccessPolicy) (u t : Option Text) (p : AccessPolicy)
    → is_nil m ≡ true
    → ¬ InForce m u t p
unfolding Dict.get
no_policy [] u t p h (by_user s) = not-Selects u p s
no_policy [] u t p h (by_tenant n s) = not-Selects t p s
no_policy [] u t p h (by_default n m s) = cc s
no_policy (x ∷ m) u t p h f = cc

module _ {V C : Type 0} where
  access_allows-Permits :
      (e : PolicyEngine V C) (context : PolicyContext V)
      → access_allows e context ≡ true
      → (p : AccessPolicy) → InForce e.access_policies context.user_id context.tenant_id p
      → Permits p context.operation context.flow_name
  unfolding access_allows
  access_allows-Permits e context h p f = elim (Bool-cases (is_nil e.access_policies)) [
    | inl n ↦ absurd (no_policy e.access_policies context.user_id context.tenant_id p n f)
    | inr n ↦
        (evaluate_access-allowed e.access_policies context.user_id context.tenant_id
            context.operation context.flow_name).0
          (ground arith) p f
  ]

  rule_step-proceeds :
      (context : PolicyContext V) (e : PolicyEngine V C) (v : V)
      → (rule_step context e).0 ≡ proceeds v
      → ¬ AnyOf (λ r. IsDenying context r) (values e.rules)
  unfolding rule_step
  rule_step-proceeds context e v h = elim (Bool-cases (is_nil e.rules)) [
    | inl n ↦ no_rule (λ r. IsDenying context r) e.rules n
    | inr n ↦ λ b. ground (arith, evaluate_rules-deny (values e.rules) context)
  ]

  after_verdict-proceeds :
      (verdict : Option Verdict) (cs : List RateLimitConfig) (context : PolicyContext V) (now : ℕ)
      (e : PolicyEngine V C) (v : V)
      → (after_verdict verdict cs context now e).0 ≡ proceeds v
      → (rule_step context e).0 ≡ proceeds v
  unfolding after_verdict
  after_verdict-proceeds none cs context now e v h = h
  after_verdict-proceeds (some (answered r)) cs context now e v h = h
  after_verdict-proceeds (some (refused c)) cs context now e v h = cc
  after_verdict-proceeds (some (pending t)) cs context now e v h = cc

  limit_step-proceeds :
      (skip : Bool) (context : PolicyContext V) (now : ℕ) (e : PolicyEngine V C) (v : V)
      → (limit_step skip context now e).0 ≡ proceeds v
      → ¬ AnyOf (λ r. IsDenying context r) (values e.rules)
  unfolding limit_step
  limit_step-proceeds skip context now e v h =
      let cs = applicable_limits e context in
      let (verdict, l) = check_multiple cs context.user_id context.flow_name now e.rate_limiter in
      elim (Bool-cases (skip || is_nil cs)) [
        | inl q ↦ rule_step-proceeds context e v (ground arith)
        | inr q ↦
            rule_step-proceeds context (record e { rate_limiter = l }) v
              (after_verdict-proceeds verdict cs context now (record e { rate_limiter = l }) v
                (ground arith))
      ]

  no_access : (e : PolicyEngine V C) → has_any_policies e ≡ false → is_nil e.access_policies ≡ true
  unfolding has_any_policies
  no_access e h = ground arith

  no_rules : (e : PolicyEngine V C) → has_any_policies e ≡ false → is_nil e.rules ≡ true
  unfolding has_any_policies
  no_rules e h = ground arith

  -- A request that `evaluatePreExecution` lets proceed at once is permitted by the access policy in
  -- force, should there be one, and no rule that applies to its operation denies it, fails or
  -- answers with an unknown action.
  pub proceeds-permitted :
      (context : PolicyContext V) (skip : Bool) (now : ℕ) (e : PolicyEngine V C) (v : V)
      → (evaluate_pre_execution context skip now e).0 ≡ proceeds v
      → ((p : AccessPolicy)
          → InForce e.access_policies context.user_id context.tenant_id p
          → Permits p context.operation context.flow_name)
        × (¬ AnyOf (λ r. IsDenying context r) (values e.rules))
  unfolding evaluate_pre_execution
  proceeds-permitted context skip now e v h = elim (Bool-cases (has_any_policies e)) [
    | inl q ↦ elim (Bool-cases (access_allows e context)) [
      | inl a ↦ (
        access_allows-Permits e context a,
        limit_step-proceeds skip context now e v (ground arith),
      )
      | inr a ↦ absurd (ground arith)
    ]
    | inr q ↦ (
      λ p f.
          absurd
            (no_policy e.access_policies context.user_id context.tenant_id p (no_access e q) f),
      no_rule (λ r. IsDenying context r) e.rules (no_rules e q),
    )
  ]

  -- A request that was left waiting for a rate limit proceeds only if it is released from the queue,
  -- not if it times out or is flushed, and if no rule that then applies to its operation denies it,
  -- fails or answers with an unknown action.
  pub after_wait-permitted :
      (settlement : Settlement) (context : PolicyContext V) (now : ℕ) (e : PolicyEngine V C) (v : V)
      → (after_wait settlement context now e).0 ≡ proceeds v
      → ((result : CheckResult) × (settlement ≡ resolved result))
        × (¬ AnyOf (λ r. IsDenying context r) (values e.rules))
  unfolding after_wait
  after_wait-permitted (resolved result) context now e v h =
      ((result, refl), rule_step-proceeds context e v h)
  after_wait-permitted (rejected code) context now e v h = cc

  -- A request that the access policy in force does not permit ends in ACCESS_DENIED, and uses up
  -- nothing: the rate limiter and all else of the policy engine stay as they are, and no event is
  -- emitted.
  pub access_denied-frame :
      (context : PolicyContext V) (skip : Bool) (now : ℕ) (e : PolicyEngine V C) (p : AccessPolicy)
      → InForce e.access_policies context.user_id context.tenant_id p
      → ¬ Permits p context.operation context.flow_name
      → evaluate_pre_execution context skip now e ≡ (throws access_denied, e)
  unfolding evaluate_pre_execution has_any_policies
  access_denied-frame context skip now e p f n = elim (Bool-cases (access_allows e context)) [
    | inl a ↦ absurd (n (access_allows-Permits e context a p f))
    | inr a ↦ elim (Bool-cases (is_nil e.access_policies)) [
      | inl q ↦ absurd (no_policy e.access_policies context.user_id context.tenant_id p q f)
      | inr q ↦ ground arith
    ]
  ]
