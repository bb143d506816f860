-- ===== src/Router.antt =====
-- model/router.ts and model/strategies.ts: routing a completion over providers with retries, circuit
-- breakers and fallback. The providers' services are the parameter `Network`; while the router
-- awaits one, timers and other requests may touch the shared state, which the network lists.
pub mod Strategies
pub mod Complete
pub mod Retry
pub mod Attempts
pub mod Fallback
mod Examples
use runcor.Common.{
  ℕ, zero, suc, ◌+◌, ◌-◌, ◌*◌, ◌^◌, Text, codes, Option, none, some, List, [], ◌∷◌, ◌++◌, Bool,
  true, false, if◌then◌else◌, ◌||◌, ◌&&◌, nat_beq, leb, ltb, ◌==◌, text_eq,
}
use runcor.Common.Dict
use runcor.Common.Dict.{Dict}
use runcor.Common.Int.{ℤ}
use runcor.CircuitBreaker.{CircuitBreaker, record_success, record_failure, on_timer, shutdown}

pub record Provider : Type 0 where
  pub name : Text
  pub priority : ℤ

-- What a provider's call may throw, by the fields that `isTransient` reads.
pub record ProviderError : Type 0 where
  pub is_error : Bool
  pub status_code : Option ℕ
  pub status : Option ℕ
  pub code : Option Text

abbrev pub transient_status : ℕ → Bool
transient_status s = nat_beq s 429 || (leb 500 s && ltb s 600)

abbrev pub transient_code : Option Text → Bool
transient_code none = false
transient_code (some c) =
    c == codes "ETIMEDOUT"
    || c == codes "ECONNRESET"
    || c == codes "ENOTFOUND"
    || c == codes "ECONNREFUSED"

abbrev pub by_status : Option ℕ → Option ℕ → Option Text → Bool
by_status (some s) status code = transient_status s
by_status none (some s) code = transient_status s
by_status none none code = transient_code code

unfoldable pub is_transient : ProviderError → Bool
is_transient e = if e.is_error then by_status e.status_code e.status e.code else false

-- The thrown `undefined` that `lastError` starts as.
abbrev pub undefined : ProviderError
undefined = record { is_error = false; status_code = none; status = none; code = none }

pub data Reply (R : Type 0) : Type 0 where
  responded : R → Reply R
  raised : ProviderError → Reply R

-- What others do to the router's state while it waits.
pub data Interference : Type 0 where
  succeeds fails : Text → ℕ → Interference
  timer_fires : Text → ℕ → Interference
  resolves : Text → Interference

-- The providers' services, the timer and the clock, over the state `W` of the world.
pub record Network (Q R W : Type 0) : Type 0 where
  pub call : Text → Q → W → Reply R × List Interference × W
  pub sleep : ℕ → W → List Interference × W
  pub clock : W → ℕ

-- What the router asked of the network, oldest first.
pub data Action : Type 0 where
  called : Text → Action
  slept : ℕ → Action

pub record Health : Type 0 where
  pub breakers : Dict Text CircuitBreaker
  pub last_resolved : Option Text
  pub trace : List Action

update_entry : Option CircuitBreaker → Text → (CircuitBreaker → CircuitBreaker) → Health → Health
update_entry none name f h = h
update_entry (some b) name f h = record h { breakers = Dict.set name (f b) h.breakers }

-- `this.breakers.get(name)?.f()`.
unfoldable pub update_breaker : Text → (CircuitBreaker → CircuitBreaker) → Health → Health
unfolding update_entry
update_breaker name f h = update_entry (Dict.get name h.breakers) name f h

unfoldable pub interfere : List Interference → Health → Health
interfere [] h = h
interfere (succeeds n now ∷ is) h = interfere is (update_breaker n (λ b. (record_success b).0) h)
interfere (fails n now ∷ is) h = interfere is (update_breaker n (λ b. (record_failure b now).0) h)
interfere (timer_fires n now ∷ is) h = interfere is (update_breaker n (λ b. (on_timer b now).0) h)
interfere (resolves n ∷ is) h = interfere is (record h { last_resolved = some n })

abbrev pub note : Action → Health → Health
note a h = record h { trace = h.trace ++ a ∷ [] }

abbrev pub retry_max_attempts : ℕ
retry_max_attempts = 3

abbrev pub retry_backoff_base_ms : ℕ
retry_backoff_base_ms = 200

module _ {Q R W : Type 0} (net : Network Q R W) where
  -- The loop of `completeWithRetry`, with the rounds that are left and the number of this one.
  unfoldable pub retry_loop : ℕ → ℕ → Text → Q → ProviderError → Health → W → Reply R × Health × W
  retry_loop zero attempt name q last h w = (raised last, h, w)
  retry_loop (suc n) attempt name q last h w =
      let (reply, is, w') = net.call name q w in
      let h' = interfere is (note (called name) h) in
      elim reply [
        | responded r ↦ (responded r, h', w')
        | raised e ↦
            let delay = retry_backoff_base_ms * 2 ^ (attempt - 1) in
            let (js, w'') = net.sleep delay w' in
            let rest =
              retry_loop n (attempt + 1) name q e (interfere js (note (slept delay) h')) w'' in
            elim (is_transient e) [
              | false ↦ (raised e, h', w')
              | true ↦ if nat_beq attempt retry_max_attempts then (raised e, h', w') else rest
            ]
      ]

  unfoldable pub complete_with_retry : Text → Q → Health → W → Reply R × Health × W
  unfolding retry_loop
  complete_with_retry name q h w = retry_loop retry_max_attempts 1 name q undefined h w
