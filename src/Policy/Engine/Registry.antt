-- ===== src/Policy/Engine/Registry.antt =====
-- policy/policy-engine.ts: the management of rules, guardrails, limits, access policies and tenants.
pub mod Valid
use runcor.Common.{ℕ, Text, List, [], ◌∷◌, ◌++◌, if◌then◌else◌, any, text_eq, ◌==◌, nat_beq, ◌||◌}
use runcor.Common.Dict
use runcor.Common.Dict.{Dict}
use runcor.Errors.{
  Result, ok, err, ErrorCode, duplicate_policy, duplicate_guardrail, duplicate_rate_limit,
  invalid_policy_config,
}
use runcor.Policy.AccessControl.{AccessPolicy}
use runcor.Policy.RateLimiter.{RateLimitConfig}
use runcor.Policy.RateLimiter.Calls
use runcor.Policy.Rules.{PolicyRule}
use runcor.Policy.Guardrails.{Guardrail}
use runcor.Policy.Engine.{PolicyEngine, is_nil}

-- `findIndex` and `splice`.
unfoldable remove_first : {V : Type 0} → Text → List (Guardrail V) → List (Guardrail V)
remove_first name [] = []
remove_first name (g ∷ gs) = if g.name == name then gs else g ∷ remove_first name gs

module _ {V C : Type 0} where
  unfoldable pub add_policy : PolicyRule V → PolicyEngine V C → Result ErrorCode (PolicyEngine V C)
  add_policy r e =
      if Dict.has r.name e.rules
      then err duplicate_policy
      else if is_nil r.operations
      then err invalid_policy_config
      else ok (record e { rules = Dict.set r.name r e.rules })

  unfoldable pub remove_policy : Text → PolicyEngine V C → PolicyEngine V C
  remove_policy name e = record e { rules = Dict.delete name e.rules }

  unfoldable pub add_guardrail :
      Guardrail V → PolicyEngine V C → Result ErrorCode (PolicyEngine V C)
  add_guardrail g e =
      if any (λ h. h.name == g.name) e.guardrails
      then err duplicate_guardrail
      else ok (record e { guardrails = e.guardrails ++ g ∷ [] })

  unfoldable pub remove_guardrail : Text → PolicyEngine V C → PolicyEngine V C
  unfolding remove_first
  remove_guardrail name e = record e { guardrails = remove_first name e.guardrails }

  unfoldable pub add_rate_limit :
      RateLimitConfig → PolicyEngine V C → Result ErrorCode (PolicyEngine V C)
  add_rate_limit c e =
      if Dict.has c.name e.rate_limits
      then err duplicate_rate_limit
      else if nat_beq c.limit 0 || nat_beq c.window_ms 0
      then err invalid_policy_config
      else ok (record e { rate_limits = Dict.set c.name c e.rate_limits })

  unfoldable pub remove_rate_limit : Text → ℕ → PolicyEngine V C → PolicyEngine V C
  remove_rate_limit name now e =
      if Dict.has name e.rate_limits
      then record e {
        rate_limiter = Calls.release_queued name now e.rate_limiter;
        rate_limits = Dict.delete name e.rate_limits;
      }
      else e

  unfoldable pub set_access_policy : AccessPolicy → PolicyEngine V C → PolicyEngine V C
  set_access_policy p e = record e { access_policies = Dict.set p.identity p e.access_policies }

  unfoldable pub remove_access_policy : Text → PolicyEngine V C → PolicyEngine V C
  remove_access_policy identity e = record e {
    access_policies = Dict.delete identity e.access_policies;
  }

  unfoldable pub set_tenant_config : Text → C → PolicyEngine V C → PolicyEngine V C
  set_tenant_config tenant_id config e = record e { tenants = Dict.set tenant_id config e.tenants }

  unfoldable pub remove_tenant_config : Text → PolicyEngine V C → PolicyEngine V C
  remove_tenant_config tenant_id e = record e { tenants = Dict.delete tenant_id e.tenants }

  unfoldable pub clear : PolicyEngine V C → PolicyEngine V C
  clear e = record e { rate_limiter = Calls.clear e.rate_limiter }
