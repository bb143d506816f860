-- ===== src/CircuitBreaker/Health.antt =====
-- model/circuit-breaker.ts: a breaker under any sequence of calls and timer callbacks.
use runcor.Common.{ℕ, ◌<◌, ◌≡◌, refl, ◌≢◌, Option, none, List, [], ◌∷◌, ◌++◌, arith}
use runcor.CircuitBreaker.{
  HealthState, HealthChange, CircuitBreaker, healthy, unhealthy, half_open, new, record_success,
  record_failure, on_timer, shutdown,
}

pub data Event : Type 0 where
  succeeds fails timer_due stops : Event

unfoldable pub step : CircuitBreaker → Event → ℕ → CircuitBreaker × List HealthChange
step b succeeds now = record_success b
step b fails now = record_failure b now
step b timer_due now = on_timer b now
step b stops now = (shutdown b, [])

unfoldable pub run : CircuitBreaker → List (Event × ℕ) → CircuitBreaker × List HealthChange
run b [] = (b, [])
run b ((e, now) ∷ es) =
    let (b', log) = step b e now in let (b'', rest) = run b' es in (b'', log ++ rest)

-- The health graph that observers may rely on.
pub data Edge : HealthState → HealthState → Type 0 where
  opens : Edge healthy unhealthy
  probes : Edge unhealthy half_open
  closes : Edge half_open healthy
  reopens : Edge half_open unhealthy

ruleset edges = (opens, probes, closes, reopens)

-- A list of notifications that leads from `s` to `t`.
abbrev pub Trace : HealthState → List HealthChange → HealthState → Type 0
Trace s [] t = s ≡ t
Trace s (c ∷ cs) t = (c.from ≡ s) × Edge c.from c.to × Trace c.to cs t

Trace-append :
    (s t u : HealthState) (xs ys : List HealthChange)
    → Trace s xs t
    → Trace t ys u
    → Trace s (xs ++ ys) u
Trace-append s t u [] ys p q = rw p q
Trace-append s t u (x ∷ xs) ys p q = (p.0, p.1, Trace-append x.to t u xs ys p.2 q)

-- The counter of a healthy breaker is below its threshold, and a timer is pending only while the
-- breaker is unhealthy.
pub record IsConsistent (b : CircuitBreaker) : Type 0 where
  pub below : b.state ≡ healthy → b.failure_count < b.failure_threshold
  pub timer_open : b.state ≢ unhealthy → b.cooldown_timer ≡ none
  pub threshold_pos : 0 < b.failure_threshold

pub step-IsConsistent :
    (b : CircuitBreaker) (e : Event) (now : ℕ) → IsConsistent b → IsConsistent (step b e now).0
unfolding step record_success record_failure on_timer shutdown
step-IsConsistent b succeeds now v = ground arith
step-IsConsistent b _ now v = ground arith

step-Trace :
    (b : CircuitBreaker) (e : Event) (now : ℕ)
    → IsConsistent b
    → Trace b.state (step b e now).1 (step b e now).0.state
unfolding step record_success record_failure on_timer shutdown
step-Trace b stops now v = refl
step-Trace b _ now v = grind (arith, edges)

run-IsConsistent :
    (b : CircuitBreaker) (es : List (Event × ℕ)) → IsConsistent b → IsConsistent (run b es).0
unfolding run
run-IsConsistent b [] v = v
run-IsConsistent b ((e, now) ∷ es) v =
    run-IsConsistent (step b e now).0 es (step-IsConsistent b e now v)

run-Trace :
    (b : CircuitBreaker) (es : List (Event × ℕ))
    → IsConsistent b
    → Trace b.state (run b es).1 (run b es).0.state
unfolding run
run-Trace b [] v = refl
run-Trace b ((e, now) ∷ es) v =
    Trace-append b.state (step b e now).0.state _ (step b e now).1 _ (step-Trace b e now v)
      (run-Trace (step b e now).0 es (step-IsConsistent b e now v))

new-IsConsistent :
    (threshold cooldown : Option ℕ)
    → 0 < (new threshold cooldown).failure_threshold
    → IsConsistent (new threshold cooldown)
unfolding new
new-IsConsistent threshold cooldown h = record {
  below = λ _. h;
  timer_open = λ _. refl;
  threshold_pos = h;
}

-- A breaker whose threshold is not 0, after any calls and timer callbacks in any order: while it is
-- healthy its failure count is below the threshold, a cooldown timer is pending only while it is
-- unhealthy, and its notifications lead step by step from `healthy` to its state, each along an
-- edge of the health graph.
pub run-new-IsConsistent :
    (threshold cooldown : Option ℕ) (es : List (Event × ℕ))
    → 0 < (new threshold cooldown).failure_threshold
    → let (b, log) = run (new threshold cooldown) es in IsConsistent b × Trace healthy log b.state
run-new-IsConsistent threshold cooldown es h = (
  run-IsConsistent (new threshold cooldown) es (new-IsConsistent threshold cooldown h),
  unfold new in run-Trace (new threshold cooldown) es (new-IsConsistent threshold cooldown h),
)
