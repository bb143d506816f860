-- ===== src/Policy/Engine.antt =====
-- policy/policy-engine.ts: the registries and the checks before an execution. Every method that
-- reads the clock takes its reading; `events` lists what `emitEvent` was called with, oldest first,
-- by the fields that identify the event.
pub mod Gate
pub mod Registry
use runcor.Common.{
  ℕ, ◌≡◌, refl, ◌⊎◌, inl, inr, Text, Option, none, some, List, [], ◌∷◌, ◌++◌, map, Bool, true,
  false, if◌then◌else◌, ◌||◌, ◌&&◌, not, filter_by, any, text_eq, ◌==◌, nat_beq,
}
use runcor.Common.Dict
use runcor.Common.Dict.{Dict, values}
use runcor.Errors.{
  Result, ok, err, ErrorCode, access_denied, rate_limited, policy_denied, duplicate_policy,
  duplicate_guardrail, duplicate_rate_limit, invalid_policy_config, ◌>>=◌,
}
use runcor.Policy.Context.{PolicyContext}
use runcor.Policy.AccessControl.{AccessPolicy, AccessResult, evaluate_access}
use runcor.Policy.RateLimiter.{
  RateLimiter, RateLimitConfig, Scope, user, Verdict, answered, refused, pending, Settlement,
  resolved, rejected,
}
use runcor.Policy.RateLimiter.Calls.{check_multiple, get_current_count, release_queued, clear}
use runcor.Policy.Rules.{
  PolicyRule, Action, allow, deny, modify, invalid, RuleEvaluationResult, evaluate_rules,
}
use runcor.Policy.Guardrails.{Guardrail, GuardrailContext, GuardrailWarning, Phase, run_guardrails}

pub data Event : Type 0 where
  rate_limited_event : Text → ℕ → Event
  violation : Option Text → Text → Event
  warning : GuardrailWarning → Event

pub record PolicyEngine (V C : Type 0) : Type 0 where
  pub rules : Dict Text (PolicyRule V)
  pub guardrails : List (Guardrail V)
  pub rate_limits : Dict Text RateLimitConfig
  pub access_policies : Dict Text AccessPolicy
  pub tenants : Dict Text C
  pub rate_limiter : RateLimiter
  pub events : List Event

-- What `evaluatePreExecution` comes to: the input to go on with, an exception, or a wait for a
-- queued rate limit, after which `after_wait` goes on.
pub data PreExecution (V : Type 0) : Type 0 where
  proceeds : V → PreExecution V
  throws : ErrorCode → PreExecution V
  waits : ℕ → PreExecution V

pub PreExecution-cases :
    {V : Type 0} (p : PreExecution V)
    → (((v : V) × (p ≡ proceeds v)) ⊎ ((c : ErrorCode) × (p ≡ throws c)))
      ⊎ ((t : ℕ) × (p ≡ waits t))
PreExecution-cases (proceeds v) = inl (inl (v, refl))
PreExecution-cases (throws c) = inl (inr (c, refl))
PreExecution-cases (waits t) = inr (t, refl)

abbrev pub is_nil {ℓ} : {A : Type ℓ} → List A → Bool
is_nil [] = true
is_nil (x ∷ xs) = false

abbrev needs_user : Scope → Bool
needs_user user = true
needs_user _ = false

abbrev is_null : Option Text → Bool
is_null none = true
is_null (some t) = false

abbrev modified_or : {V : Type 0} → Action → Option V → V → V
modified_or modify (some v) input = v
modified_or _ _ input = input

module _ {V C : Type 0} where
  unfoldable pub has_any_policies : PolicyEngine V C → Bool
  has_any_policies e =
      not (is_nil e.rules)
      || not (is_nil e.guardrails)
      || not (is_nil e.rate_limits)
      || not (is_nil e.access_policies)
      || not (is_nil e.tenants)

  abbrev pub emit : Event → PolicyEngine V C → PolicyEngine V C
  emit event e = record e { events = e.events ++ event ∷ [] }

  -- Step 1.
  unfoldable pub access_allows : PolicyEngine V C → PolicyContext V → Bool
  access_allows e context =
      is_nil e.access_policies
      || (evaluate_access e.access_policies context.user_id context.tenant_id context.operation
          context.flow_name).allowed

  unfoldable pub applicable_limits : PolicyEngine V C → PolicyContext V → List RateLimitConfig
  applicable_limits e context =
      filter_by (λ c. not (needs_user c.scope && is_null context.user_id)) (values e.rate_limits)

  -- The handler of RATE_LIMITED: the event of the first applicable limit, whose count evicts.
  unfoldable pub report_limited :
      List RateLimitConfig → PolicyContext V → ℕ → PolicyEngine V C → PolicyEngine V C
  report_limited [] context now e = e
  report_limited (c ∷ cs) context now e =
      let (count, l) = get_current_count c context.user_id context.flow_name now e.rate_limiter in
      emit (rate_limited_event c.name count) (record e { rate_limiter = l })

  decide :
      RuleEvaluationResult V
      → PolicyContext V
      → PolicyEngine V C
      → PreExecution V × PolicyEngine V C
  decide d context e = elim d.action [
    | deny ↦ (throws policy_denied, emit (violation d.rule_name context.flow_name) e)
    | other ↦ (proceeds (modified_or d.action d.modified_input context.input), e)
  ]

  -- Step 3.
  unfoldable pub rule_step : PolicyContext V → PolicyEngine V C → PreExecution V × PolicyEngine V C
  unfolding decide
  rule_step context e =
      if is_nil e.rules
      then (proceeds context.input, e)
      else decide (evaluate_rules (values e.rules) context) context e

  -- What the `await` of step 2 gives.
  unfoldable pub after_verdict :
      Option Verdict
      → List RateLimitConfig
      → PolicyContext V
      → ℕ
      → PolicyEngine V C
      → PreExecution V × PolicyEngine V C
  after_verdict (some (refused code)) cs context now e =
      (throws code, report_limited cs context now e)
  after_verdict (some (pending ticket)) cs context now e = (waits ticket, e)
  after_verdict _ cs context now e = rule_step context e

  -- Step 2.
  unfoldable pub limit_step :
      Bool → PolicyContext V → ℕ → PolicyEngine V C → PreExecution V × PolicyEngine V C
  limit_step skip context now e =
      let cs = applicable_limits e context in
      let (verdict, l) = check_multiple cs context.user_id context.flow_name now e.rate_limiter in
      if skip || is_nil cs
      then rule_step context e
      else after_verdict verdict cs context now (record e { rate_limiter = l })

  unfoldable pub evaluate_pre_execution :
      PolicyContext V → Bool → ℕ → PolicyEngine V C → PreExecution V × PolicyEngine V C
  evaluate_pre_execution context skip_rate_limits now e =
      let checked = limit_step skip_rate_limits context now e in
      if not (has_any_policies e)
      then (proceeds context.input, e)
      else if access_allows e context
      then checked
      else (throws access_denied, e)

  -- The rest of the call when the queued promise is settled.
  unfoldable pub after_wait :
      Settlement → PolicyContext V → ℕ → PolicyEngine V C → PreExecution V × PolicyEngine V C
  after_wait (resolved result) context now e = rule_step context e
  after_wait (rejected code) context now e =
      (throws code, report_limited (applicable_limits e context) context now e)

  warned :
      Result ErrorCode (V × List GuardrailWarning)
      → PolicyEngine V C
      → Result ErrorCode V × PolicyEngine V C
  warned (ok (content, ws)) e = (ok content, record e { events = e.events ++ map warning ws })
  warned (err code) e = (err code, e)

  -- `evaluateInputGuardrails` and `evaluateOutputGuardrails`, by the phase.
  unfoldable pub evaluate_guardrails :
      Phase → V → GuardrailContext → PolicyEngine V C → Result ErrorCode V × PolicyEngine V C
  unfolding warned
  evaluate_guardrails phase content context e =
      if is_nil e.guardrails
      then (ok content, e)
      else warned (run_guardrails e.guardrails content (record context { phase = phase })) e
