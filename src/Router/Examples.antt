-- ===== src/Router/Examples.antt =====
-- Two providers, of which the first fails each call with a transient status.
use runcor.Common.{
  ℕ, suc, ◌≤◌, ◌≡◌, refl, inl, inr, none, some, [], ◌∷◌, ◌++◌, true, codes, AnyOf, text_beq,
  text_eq, if◌then◌else◌,
}
use runcor.Common.Dict
use runcor.Common.Int.{pos}
use runcor.Common.Sort.{sort_by, insert}
use runcor.Errors.{ok}
use runcor.Router.{
  Provider, ProviderError, responded, raised, Network, Health, is_transient, complete_with_retry,
}
use runcor.Router.Strategies.{CleanRequest, by_priority, priority_order, apply_strategy}
use runcor.Router.Complete.{Router, available_providers, route, active_order}
use runcor.Router.Retry.{attempts, complete_with_retry-bounded}
use runcor.Router.Attempts.{Responds}
use runcor.Router.Fallback.{candidates, route-Responds}

abbrev backup : Provider
backup = record { name = codes "b"; priority = pos 2 }

abbrev primary : Provider
primary = record { name = codes "a"; priority = pos 1 }

abbrev overloaded : ProviderError
overloaded = record { is_error = true; status_code = some 503; status = none; code = none }

-- The world counts the calls.
abbrev services : Network (CleanRequest ℕ) ℕ ℕ
services = record {
  call = λ name q w.
      ((if text_beq name (codes "b") then responded 42 else raised overloaded), [], suc w);
  sleep = λ ms w. ([], w);
  clock = λ w. w;
}

abbrev question : CleanRequest ℕ
question = record { prompt = some (codes "hi"); messages = none; system_prompt = none; rest = 0 }

abbrev idle : Health
idle = record { breakers = []; last_resolved = none; trace = [] }

abbrev router : Router ℕ
router = record {
  providers = backup ∷ primary ∷ [];
  strategy = by_priority;
  max_fallback_attempts = 1;
  health = idle;
}

complete_with_retry-bounded_example :
    let (reply, h', w') = complete_with_retry services (codes "a") question idle 0 in
    (k : ℕ) × (k ≤ 2)
    × (h'.trace ≡ [] ++ attempts (codes "a") 1 k)
    × ((e : ProviderError) → reply ≡ raised e → is_transient e ≡ true → k ≡ 2)
complete_with_retry-bounded_example =
    complete_with_retry-bounded services (codes "a") question idle 0

both_available : available_providers router ≡ backup ∷ primary ∷ []
unfolding available_providers Dict.get
both_available = refl

backup-Responds : AnyOf (Responds services question) (candidates none question router)
unfolding available_providers active_order apply_strategy priority_order sort_by insert Dict.get
backup-Responds = inr (inl (λ w. (42, refl)))

route-Responds_example : (x : ℕ) × ((route services none question router 0).0 ≡ ok x)
route-Responds_example =
    route-Responds services question none router 0 (λ h. cc (both_available, h)) backup-Responds
