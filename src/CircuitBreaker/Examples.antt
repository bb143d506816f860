-- ===== src/CircuitBreaker/Examples.antt =====
-- A breaker with a threshold of 3 and a cooldown of 1000 ms.
use runcor.Common.{ℕ, ◌≡◌, refl, some, List, [], ◌∷◌, true, false, ◌+◌, arith}
use runcor.CircuitBreaker.{
  CircuitBreaker, healthy, unhealthy, new, record_success, record_failure, on_timer, is_available,
}
use runcor.CircuitBreaker.Health.{
  Event, succeeds, fails, timer_due, run, step, IsConsistent, Trace, run-new-IsConsistent,
}
use runcor.CircuitBreaker.Recovery.{failures, failures_open, cooldown_recovers}

abbrev fresh : CircuitBreaker
unfolding new
fresh = new (some 3) (some 1000)

abbrev opened : CircuitBreaker
opened = record {
  state = unhealthy;
  failure_count = 3;
  failure_threshold = 3;
  cooldown_ms = 1000;
  cooldown_timer = some 1010;
}

opens_after_three : (run (new (some 3) (some 1000)) (failures (10 ∷ 10 ∷ 10 ∷ []))).0 ≡ opened
unfolding run step new record_failure
opens_after_three = refl

abbrev outage : List (Event × ℕ)
outage =
    (fails, 10)
    ∷ (fails, 10)
    ∷ (fails, 10)
    ∷ (timer_due, 1010)
    ∷ (fails, 1011)
    ∷ (timer_due, 2011)
    ∷ (succeeds, 2012)
    ∷ []

recovers : (run (new (some 3) (some 1000)) outage).0.state ≡ healthy
unfolding run step new record_failure record_success on_timer
recovers = refl

run-new-IsConsistent_example :
    IsConsistent (run (new (some 3) (some 1000)) outage).0
    × Trace healthy
        (run (new (some 3) (some 1000)) outage).1
        (run (new (some 3) (some 1000)) outage).0.state
run-new-IsConsistent_example =
    run-new-IsConsistent (some 3) (some 1000) outage (unfold new in omega arith)

failures_open_example :
    let b = new (some 3) (some 1000) in
    let opened = (record_failure (run b (failures (10 ∷ 14 ∷ []))).0 19).0 in
    ((run b (failures (10 ∷ []))).0.state ≡ healthy)
    × (opened.state ≡ unhealthy)
    × (is_available opened ≡ false)
    × (opened.cooldown_timer ≡ some 1019)
unfolding new
failures_open_example = failures_open (new (some 3) (some 1000)) (10 ∷ []) (14 ∷ []) 19 refl refl

cooldown_recovers_example :
    let b = (run opened ((fails, 500) ∷ (succeeds, 900) ∷ (timer_due, 901) ∷ [])).0 in
    let probing = (on_timer b 1015).0 in
    (is_available b ≡ false)
    × (is_available probing ≡ true)
    × ((record_success probing).0.state ≡ healthy)
    × ((record_success probing).0.failure_count ≡ 0)
    × ((record_failure probing 1015).0.state ≡ unhealthy)
    × ((record_failure probing 1015).0.cooldown_timer ≡ some (1015 + probing.cooldown_ms))
cooldown_recovers_example =
    cooldown_recovers opened 1010 1015 ((fails, 500) ∷ (succeeds, 900) ∷ (timer_due, 901) ∷ []) refl
      refl (tt, (tt, (omega arith, tt))) (omega arith)
