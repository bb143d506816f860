-- ===== src/CircuitBreaker.antt =====
-- model/circuit-breaker.ts: the health of one provider. Time is an argument; the cooldown timer is
-- the time at which it fires. A call returns the new state and its `onHealthChange` notifications.
pub mod Health
pub mod Recovery
mod Examples
use runcor.Common.{
  ℕ, ◌+◌, Option, none, some, List, [], ◌∷◌, Bool, true, false, if◌then◌else◌, leb, ◌&&◌,
}

pub data HealthState : Type 0 where
  healthy unhealthy half_open : HealthState

pub record HealthChange : Type 0 where
  pub from : HealthState
  pub to : HealthState

pub record CircuitBreaker : Type 0 where
  pub state : HealthState
  pub failure_count : ℕ
  pub failure_threshold : ℕ
  pub cooldown_ms : ℕ
  pub cooldown_timer : Option ℕ

abbrev pub option_or {ℓ} : {A : Type ℓ} → Option A → A → A
option_or none d = d
option_or (some a) d = a

unfoldable pub new : Option ℕ → Option ℕ → CircuitBreaker
new threshold cooldown = record {
  state = healthy;
  failure_count = 0;
  failure_threshold = option_or threshold 5;
  cooldown_ms = option_or cooldown 30000;
  cooldown_timer = none;
}

abbrev pub available : HealthState → Bool
available healthy = true
available half_open = true
available unhealthy = false

unfoldable pub is_available : CircuitBreaker → Bool
is_available b = available b.state

unfoldable pub clear_cooldown : CircuitBreaker → CircuitBreaker
clear_cooldown b = record b { cooldown_timer = none }

unfoldable pub start_cooldown : CircuitBreaker → ℕ → CircuitBreaker
unfolding clear_cooldown
start_cooldown b now = record (clear_cooldown b) { cooldown_timer = some (now + b.cooldown_ms) }

-- The reset that `transition` makes on the way to `healthy`.
unfoldable pub enter : HealthState → CircuitBreaker → CircuitBreaker
unfolding clear_cooldown
enter healthy b = clear_cooldown (record b { state = healthy; failure_count = 0 })
enter to b = record b { state = to }

unfoldable pub transition : HealthState → CircuitBreaker → CircuitBreaker × List HealthChange
unfolding enter
transition to b = (enter to b, record { from = b.state; to = to } ∷ [])

succeed_in : HealthState → CircuitBreaker → CircuitBreaker × List HealthChange
unfolding transition
succeed_in half_open b = transition healthy b
succeed_in _ b = (b, [])

unfoldable pub record_success : CircuitBreaker → CircuitBreaker × List HealthChange
unfolding succeed_in
record_success b = succeed_in b.state (record b { failure_count = 0 })

-- `transition('unhealthy')`, then `startCooldown()`.
trip : CircuitBreaker → ℕ → CircuitBreaker × List HealthChange
unfolding transition start_cooldown
trip b now = let (b', log) = transition unhealthy b in (start_cooldown b' now, log)

-- The part of `recordFailure` behind `failureCount++`.
count_failure : HealthState → CircuitBreaker → ℕ → CircuitBreaker × List HealthChange
unfolding trip
count_failure healthy b now =
    if leb b.failure_threshold b.failure_count then trip b now else (b, [])
count_failure _ b now = (b, [])

fail_in : HealthState → CircuitBreaker → ℕ → CircuitBreaker × List HealthChange
unfolding trip count_failure
fail_in half_open b now = trip b now
fail_in s b now = count_failure s (record b { failure_count = b.failure_count + 1 }) now

unfoldable pub record_failure : CircuitBreaker → ℕ → CircuitBreaker × List HealthChange
unfolding fail_in
record_failure b now = fail_in b.state b now

unfoldable pub shutdown : CircuitBreaker → CircuitBreaker
shutdown b = record b { cooldown_timer = none }

-- The callback of `setTimeout`, run only while the timer is armed and due.
fire : Option ℕ → CircuitBreaker → ℕ → CircuitBreaker × List HealthChange
unfolding transition
fire none b now = (b, [])
fire (some due) b now =
    if leb due now then transition half_open (record b { cooldown_timer = none }) else (b, [])

unfoldable pub on_timer : CircuitBreaker → ℕ → CircuitBreaker × List HealthChange
unfolding fire
on_timer b now = fire b.cooldown_timer b now
