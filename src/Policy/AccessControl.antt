-- ===== src/Policy/AccessControl.antt =====
-- policy/access-control.ts and policy/tenant-resolver.ts: which access policy is in force for an
-- identity, and what it permits. The text of a denial's reason is named by its kind.
pub mod Correct
use runcor.Common.{
  Text, codes, Option, none, some, List, [], ◌∷◌, Bool, true, false, if◌then◌else◌, truthy,
  includes, text_eq, ◌||◌, Eq, not,
}
use runcor.Common.Dict
use runcor.Common.Dict.{Dict}
use runcor.Policy.Context.{OperationType, operation_eq}

pub record AccessPolicy : Type 0 where
  pub identity : Text
  pub allowed_flows : Option (List Text)
  pub denied_flows : Option (List Text)
  pub allowed_operations : Option (List OperationType)
  pub denied_operations : Option (List OperationType)

pub data Reason : Type 0 where
  operation_denied operation_not_allowed flow_denied flow_not_allowed : Reason

pub record AccessResult : Type 0 where
  pub allowed : Bool
  pub reason : Option Reason

abbrev pub allow : AccessResult
allow = record { allowed = true; reason = none }

abbrev pub deny : Reason → AccessResult
deny r = record { allowed = false; reason = some r }

module _ {A : Type 0} ⦃e : Eq A⦄ where
  -- `list && list.includes(x)`.
  abbrev pub listed : Option (List A) → A → Bool
  listed none x = false
  listed (some xs) x = includes xs x

  -- `list && !list.includes(x)`.
  abbrev pub unlisted : Option (List A) → A → Bool
  unlisted none x = false
  unlisted (some xs) x = not (includes xs x)

-- The checks behind the lookup of the policy.
apply_policy : AccessPolicy → OperationType → Text → AccessResult
apply_policy p operation flow_name =
    if listed p.denied_operations operation
    then deny operation_denied
    else if unlisted p.allowed_operations operation
    then deny operation_not_allowed
    else if listed p.denied_flows flow_name
    then deny flow_denied
    else if unlisted p.allowed_flows flow_name
    then deny flow_not_allowed
    else allow

-- `if (id) policy = policies.get(id)`.
get_truthy : Dict Text AccessPolicy → Option Text → Option AccessPolicy
get_truthy policies none = none
get_truthy policies (some []) = none
get_truthy policies (some (c ∷ cs)) = Dict.get (c ∷ cs) policies

abbrev pub or_policy : Option AccessPolicy → Option AccessPolicy → Option AccessPolicy
or_policy (some p) q = some p
or_policy none q = q

find_policy : Dict Text AccessPolicy → Option Text → Option Text → Option AccessPolicy
unfolding get_truthy
find_policy policies user_id tenant_id =
    or_policy (get_truthy policies user_id)
      (or_policy (get_truthy policies tenant_id) (Dict.get (codes "*") policies))

decide_by : Option AccessPolicy → OperationType → Text → AccessResult
unfolding apply_policy
decide_by none operation flow_name = allow
decide_by (some p) operation flow_name = apply_policy p operation flow_name

unfoldable pub evaluate_access :
    Dict Text AccessPolicy → Option Text → Option Text → OperationType → Text → AccessResult
unfolding find_policy decide_by
evaluate_access policies user_id tenant_id operation flow_name =
    let by_policy = decide_by (find_policy policies user_id tenant_id) operation flow_name in
    if truthy user_id || truthy tenant_id
    then by_policy
    else if Dict.has (codes "*") policies
    then by_policy
    else allow

-- `resolveTenantId`, of the resolver and of the policy engine.
unfoldable pub resolve_tenant_id : Option Text → Option Text → Option Text
resolve_tenant_id tenant_id user_id =
    if truthy tenant_id then tenant_id else if truthy user_id then user_id else none

-- `lookupTenantConfig`, and `getTenantConfig` of the policy engine.
unfoldable pub lookup_tenant_config {ℓ} : {C : Type ℓ} → Dict Text C → Option Text → Option C
lookup_tenant_config tenants none = none
lookup_tenant_config tenants (some []) = none
lookup_tenant_config tenants (some (c ∷ cs)) = Dict.get (c ∷ cs) tenants
