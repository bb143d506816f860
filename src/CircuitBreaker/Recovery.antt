-- ===== src/CircuitBreaker/Recovery.antt =====
-- model/circuit-breaker.ts: when a breaker opens, and how it comes back.
use runcor.Common.{
  ℕ, ◌+◌, ◌≤◌, ◌<◌, ◌≡◌, refl, none, some, List, [], ◌∷◌, true, false, arith, All, ap, ◌∙◌, ◌++◌,
  length, length-append,
}
use runcor.CircuitBreaker.{
  CircuitBreaker, healthy, unhealthy, record_success, record_failure, on_timer, shutdown,
  is_available,
}
use runcor.CircuitBreaker.Health.{Event, succeeds, fails, timer_due, stops, step, run}

-- Failures at any times.
abbrev pub failures : List ℕ → List (Event × ℕ)
failures [] = []
failures (t ∷ ts) = (fails, t) ∷ failures ts

fail_below :
    (b : CircuitBreaker) (now : ℕ)
    → b.state ≡ healthy
    → b.failure_count + 1 < b.failure_threshold
    → (record_failure b now).0 ≡ record b { failure_count = b.failure_count + 1 }
unfolding record_failure
fail_below b now h l = ground arith

fail_last :
    (b : CircuitBreaker) (now : ℕ)
    → b.state ≡ healthy
    → b.failure_count + 1 ≡ b.failure_threshold
    → ((record_failure b now).0.state ≡ unhealthy)
      × (is_available (record_failure b now).0 ≡ false)
      × ((record_failure b now).0.cooldown_timer ≡ some (now + b.cooldown_ms))
unfolding record_failure is_available
fail_last b now h l = ground arith

fail_counts :
    (b : CircuitBreaker) (ts : List ℕ)
    → b.state ≡ healthy
    → b.failure_count + length ts < b.failure_threshold
    → (run b (failures ts)).0 ≡ record b { failure_count = b.failure_count + length ts }
unfolding run step
fail_counts b [] h l = ground arith
fail_counts b (t ∷ ts) h l =
    let c = record b { failure_count = b.failure_count + 1 } in
    let counted : b.failure_count + 1 + length ts ≡ b.failure_count + length (t ∷ ts) =
      omega arith in
    ap (λ d. (run d (failures ts)).0) (fail_below b t h (omega (arith, l)))
    ∙ fail_counts c ts h (omega (arith, l))
    ∙ ap (λ n. record b { failure_count = n }) counted

-- Failures at any times, which together bring the count of a healthy breaker to one below the
-- threshold: after any first part of them its state is healthy; the failure after all of them, at
-- any time, makes it unhealthy and so unavailable, and sets the cooldown timer for `cooldown_ms`
-- later.
pub failures_open :
    (b : CircuitBreaker) (front back : List ℕ) (now : ℕ)
    → b.state ≡ healthy
    → b.failure_count + length (front ++ back) + 1 ≡ b.failure_threshold
    → let below = (run b (failures front)).0 in
      let opened = (record_failure (run b (failures (front ++ back))).0 now).0 in
      (below.state ≡ healthy)
      × (opened.state ≡ unhealthy)
      × (is_available opened ≡ false)
      × (opened.cooldown_timer ≡ some (now + b.cooldown_ms))
failures_open b front back now h l =
    let ts = front ++ back in
    let last = record b { failure_count = b.failure_count + length ts } in
    let part = fail_counts b front h (omega (arith, l, length-append front back)) in
    let all = fail_counts b ts h (omega (arith, l)) in
    let (state, shut, timer) = fail_last last now h l in
    let same = ap (λ c. (record_failure c now).0) all in
    (
      ap (λ c. c.state) part ∙ h,
      ap (λ c. c.state) same ∙ state,
      ap (λ c. is_available c) same ∙ shut,
      ap (λ c. c.cooldown_timer) same ∙ timer,
    )

-- Not a timer callback that is due, nor `shutdown`.
abbrev pub WaitsUntil : ℕ → Event × ℕ → Type 0
WaitsUntil due (succeeds, now) = Unit
WaitsUntil due (fails, now) = Unit
WaitsUntil due (timer_due, now) = now < due
WaitsUntil due (stops, now) = ⊥

wait_step :
    (b : CircuitBreaker) (due : ℕ) (e : Event) (now : ℕ)
    → b.state ≡ unhealthy
    → b.cooldown_timer ≡ some due
    → WaitsUntil due (e, now)
    → ((step b e now).0.state ≡ unhealthy) × ((step b e now).0.cooldown_timer ≡ some due)
unfolding step record_failure record_success on_timer
wait_step b due succeeds now s t w = ground arith
wait_step b due fails now s t w = ground arith
wait_step b due timer_due now s t w = ground arith
wait_step b due stops now s t w = absurd w

wait_run :
    (b : CircuitBreaker) (due : ℕ) (es : List (Event × ℕ))
    → b.state ≡ unhealthy
    → b.cooldown_timer ≡ some due
    → All (WaitsUntil due) es
    → ((run b es).0.state ≡ unhealthy) × ((run b es).0.cooldown_timer ≡ some due)
unfolding run
wait_run b due [] s t w = (s, t)
wait_run b due ((e, now) ∷ es) s t w =
    let (s', t') = wait_step b due e now s t w.0 in wait_run (step b e now).0 due es s' t' w.1

-- An unhealthy breaker whose timer is set for `due` takes no requests, whatever successes and
-- failures of requests under way are recorded, until the timer fires at or after `due`. Then it
-- probes: it is available, the probe's success makes it healthy with a count of 0, and the
-- probe's failure closes it for another cooldown.
pub cooldown_recovers :
    (b : CircuitBreaker) (due now : ℕ) (es : List (Event × ℕ))
    → b.state ≡ unhealthy
    → b.cooldown_timer ≡ some due
    → All (WaitsUntil due) es
    → due ≤ now
    → let b' = (run b es).0 in
      let probing = (on_timer b' now).0 in
      (is_available b' ≡ false)
      × (is_available probing ≡ true)
      × ((record_success probing).0.state ≡ healthy)
      × ((record_success probing).0.failure_count ≡ 0)
      × ((record_failure probing now).0.state ≡ unhealthy)
      × ((record_failure probing now).0.cooldown_timer ≡ some (now + probing.cooldown_ms))
unfolding is_available on_timer record_success record_failure
cooldown_recovers b due now es s t w l = let (s', t') = wait_run b due es s t w in ground arith

stranded_step :
    (b : CircuitBreaker) (e : Event) (now : ℕ)
    → b.state ≡ unhealthy
    → b.cooldown_timer ≡ none
    → ((step b e now).0.state ≡ unhealthy) × ((step b e now).0.cooldown_timer ≡ none)
unfolding step record_failure record_success on_timer shutdown
stranded_step b succeeds now s t = ground arith
stranded_step b _ now s t = ground arith

stranded_run :
    (b : CircuitBreaker) (es : List (Event × ℕ))
    → b.state ≡ unhealthy
    → b.cooldown_timer ≡ none
    → (run b es).0.state ≡ unhealthy
unfolding run
stranded_run b [] s t = s
stranded_run b ((e, now) ∷ es) s t =
    let (s', t') = stranded_step b e now s t in stranded_run (step b e now).0 es s' t'

-- A breaker that is unhealthy when it is shut down stays unavailable under every later event: the
-- timer is gone, and nothing but the timer leads out of `unhealthy`.
pub shutdown_strands :
    (b : CircuitBreaker) (es : List (Event × ℕ))
    → b.state ≡ unhealthy
    → is_available (run (shutdown b) es).0 ≡ false
unfolding is_available shutdown
shutdown_strands b es h =
    ground (arith, stranded_run (record b { cooldown_timer = none }) es h refl)
