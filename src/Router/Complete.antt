-- ===== src/Router/Complete.antt =====
-- model/router.ts: `ModelRouter.complete` with its construction and the clean-up of its request. Telemetry
-- spans are left out.
use runcor.Common.{
  ℕ, ◌+◌, ◌-◌, Text, Option, none, some, List, [], ◌∷◌, ◌++◌, Bool, true, false, if◌then◌else◌,
  ◌&&◌, not, ◌==◌, text_eq, filter_by, find_by, take, length, truthy, min, nat_beq,
}
use runcor.Common.Dict
use runcor.Common.Dict.{Dict}
use runcor.CircuitBreaker.{CircuitBreaker, is_available, record_success, record_failure, shutdown}
use runcor.CircuitBreaker
use runcor.Errors.{
  ErrorCode, Result, ok, err, invalid_request, provider_not_found, no_healthy_providers,
}
use runcor.Router.{
  Provider, ProviderError, responded, raised, Network, Health, update_breaker, complete_with_retry,
}
use runcor.Router.Strategies.{
  Message, CleanRequest, Strategy, StrategyChoice, named_priority, apply_strategy, resolve_strategy,
}

-- The overrides of a request, and the rest of it.
pub record ModelRequest (Q : Type 0) : Type 0 where
  pub provider : Option Text
  pub strategy : Option (StrategyChoice Q)
  pub body : CleanRequest Q

pub record ProviderFailure : Type 0 where
  pub provider_name : Text
  pub error : ProviderError
  pub timestamp : ℕ

pub data RouterError : Type 0 where
  engine_error : ErrorCode → RouterError
  strategy_threw : ProviderError → RouterError
  all_providers_failed : List ProviderFailure → RouterError

pub record Router (Q : Type 0) : Type 0 where
  pub providers : List Provider
  pub strategy : Strategy Q
  pub max_fallback_attempts : ℕ
  pub health : Health

new_breakers :
    Option ℕ → Option ℕ → List Provider → Dict Text CircuitBreaker → Dict Text CircuitBreaker
new_breakers threshold cooldown [] m = m
new_breakers threshold cooldown (p ∷ ps) m =
    new_breakers threshold cooldown ps (Dict.set p.name (CircuitBreaker.new threshold cooldown) m)

abbrev choice_or : {Q : Type 0} → Option (StrategyChoice Q) → StrategyChoice Q
choice_or none = named_priority
choice_or (some c) = c

abbrev attempts_or : Option ℕ → ℕ → ℕ
attempts_or none d = d
attempts_or (some n) d = n

-- The default of `maxFallbackAttempts` is `providers.length - 1`; the -1 of no provider and the 0
-- here both lead to no attempt.
unfoldable pub new_router :
    {Q : Type 0}
    → List Provider
    → Option (StrategyChoice Q)
    → Option ℕ
    → Option ℕ
    → Option ℕ
    → Router Q
unfolding new_breakers
new_router ps choice fallbacks threshold cooldown = record {
  providers = ps;
  strategy = resolve_strategy (choice_or choice);
  max_fallback_attempts = attempts_or fallbacks (length ps - 1);
  health = record {
    breakers = new_breakers threshold cooldown ps [];
    last_resolved = none;
    trace = [];
  };
}

abbrev non_empty : Option (List Message) → Bool
non_empty none = false
non_empty (some []) = false
non_empty (some (m ∷ ms)) = true

abbrev without_system : Option (List Message) → Option (List Message)
without_system none = none
without_system (some ms) = some (filter_by (λ m. not m.is_system) ms)

abbrev available : Dict Text CircuitBreaker → Provider → Bool
available m p = elim (Dict.get p.name m) [ none ↦ true | some b ↦ is_available b ]

-- `getProviderHealthMap` and the filter of `complete`.
unfoldable pub available_providers : {Q : Type 0} → Router Q → List Provider
available_providers r = filter_by (available r.health.breakers) r.providers

unfoldable pub succeed : Text → Health → Health
succeed name h = record (update_breaker name (λ b. (record_success b).0) h) {
  last_resolved = some name;
}

unfoldable pub fail : Text → ℕ → Health → Health
fail name now h = update_breaker name (λ b. (record_failure b now).0) h

-- The order of a request, by its own strategy or by the router's, whose counter moves on.
unfoldable pub active_order :
    {Q : Type 0}
    → Option (StrategyChoice Q)
    → Router Q
    → List Provider
    → CleanRequest Q
    → Result ProviderError (List Provider) × Router Q
active_order (some choice) r ps q = ((apply_strategy (resolve_strategy choice) ps q).0, r)
active_order none r ps q =
    let (order, s) = apply_strategy r.strategy ps q in (order, record r { strategy = s })

-- `err instanceof Error ? err : new Error(String(err))`.
abbrev pub as_error : ProviderError → ProviderError
as_error e =
    if e.is_error
    then e
    else record { is_error = true; status_code = none; status = none; code = none }

module _ {Q R W : Type 0} (net : Network (CleanRequest Q) R W) where
  unfoldable pub normalize_request : ModelRequest Q → Result RouterError (CleanRequest Q)
  normalize_request q =
      let b = q.body in
      if not (truthy b.prompt) && not (non_empty b.messages)
      then err (engine_error invalid_request)
      else ok (record b {
        messages =
            if truthy b.system_prompt && non_empty b.messages
            then without_system b.messages
            else b.messages;
      })

  -- The fallback loop, over the providers that it may still try.
  unfoldable pub try_providers :
      List Provider
      → CleanRequest Q
      → List ProviderFailure
      → Health
      → W
      → Result RouterError R × Health × W
  try_providers [] q failures h w = (err (all_providers_failed failures), h, w)
  try_providers (p ∷ ps) q failures h w =
      let (reply, h', w') = complete_with_retry net p.name q h w in
      elim reply [
        | responded r ↦ (ok r, succeed p.name h', w')
        | raised e ↦
            try_providers ps q
              (failures
                ++ record { provider_name = p.name; error = as_error e; timestamp = net.clock w' }
                  ∷ [])
              (fail p.name (net.clock w') h') w'
      ]

  -- The fallback over what the strategy has given, or what it has thrown.
  unfoldable pub try_ordered :
      Result ProviderError (List Provider)
      → CleanRequest Q
      → Router Q
      → W
      → Result RouterError R × Router Q × W
  try_ordered (ok ordered) q r w =
      let allowed = take (min (length ordered) (r.max_fallback_attempts + 1)) ordered in
      let (result, h, w') = try_providers allowed q [] r.health w in
      (result, record r { health = h }, w')
  try_ordered (err thrown) q r w = (err (strategy_threw thrown), r, w)

  -- Normal routing.
  unfoldable pub route :
      Option (StrategyChoice Q)
      → CleanRequest Q
      → Router Q
      → W
      → Result RouterError R × Router Q × W
  unfolding active_order try_ordered
  route choice q r w =
      let ps = available_providers r in
      let (ordered, r') = active_order choice r ps q in
      if nat_beq (length ps) 0
      then (err (engine_error no_healthy_providers), r, w)
      else try_ordered ordered q r' w

  -- The override: its provider is tried first, and a failure falls through to normal routing.
  override :
      Option Provider
      → Option (StrategyChoice Q)
      → CleanRequest Q
      → Router Q
      → W
      → Result RouterError R × Router Q × W
  override none choice q r w = (err (engine_error provider_not_found), r, w)
  override (some p) choice q r w =
      let (reply, h, w') = complete_with_retry net p.name q r.health w in
      elim reply [
        | responded x ↦ (ok x, record r { health = succeed p.name h }, w')
        | raised e ↦ route choice q (record r { health = fail p.name (net.clock w') h }) w'
      ]

  dispatch :
      Option Text
      → Option (StrategyChoice Q)
      → CleanRequest Q
      → Router Q
      → W
      → Result RouterError R × Router Q × W
  unfolding override
  dispatch none choice q r w = route choice q r w
  dispatch (some []) choice q r w = route choice q r w
  dispatch (some (c ∷ cs)) choice q r w =
      override (find_by (λ p. p.name == (c ∷ cs)) r.providers) choice q r w

  unfoldable pub complete : ModelRequest Q → Router Q → W → Result RouterError R × Router Q × W
  unfolding dispatch
  complete q r w = elim (normalize_request q) [
    | ok clean ↦ dispatch q.provider q.strategy clean r w
    | err e ↦ (err e, r, w)
  ]
