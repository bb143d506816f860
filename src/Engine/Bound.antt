-- ===== src/Engine/Bound.antt =====
-- engine.ts: the count of active executions against the limit on concurrency, through the methods
-- that an execution goes through.
pub mod Runs
pub mod Calls
pub mod Steps
pub mod Resumed
use runcor.Common.{
  ℕ, ◌+◌, ◌-◌, ◌≤◌, ◌≡◌, refl, Text, Option, none, some, List, [], ◌∷◌, Bool, true, false, not, leb,
  ltb, if◌then◌else◌, text_eq, arith, Bool-cases, inl, inr, Option-cases, ◌&&◌, nat_beq,
}
use runcor.Common.Dict
use runcor.Common.Int.{pos}
use runcor.Common.Sort.{sort_by}
use runcor.Errors.{Result, ok, err, ErrorCode}
use runcor.Execution.{
  State, Execution, queued, running, waiting, retrying, complete, failed, allowed, is_terminal,
  is_running,
}
use runcor.Execution.Lifecycle.{extend}
use runcor.StateStore.{state_beq, list_executions, evict_expired}
use runcor.Engine.{
  Engine, Flow, WaitSignal, HandlerOutcome, returns, waits, raises, Attempt, first, retried,
  resumed, Phase, checks_input, handles, checks_output, Task, Timer, execution_of,
}
use runcor.Engine.Moves.{
  transition_and_emit, persist, mutate, clear_timers, finalize_spans, fail_execution, emit_failed,
}
use runcor.Engine.Tasks.{
  arm_timeout, await_guardrails, run_execution, started_run, dispatch, dispatch_found,
  dispatch_next, dispatch_queued, free_slot, on_execution_terminal, fail_and_free,
  complete_execution, moved_to_complete, handle_execution_error, scheduled_retry, pause_timeout,
  enter_waiting_state, entered_wait, number_or, timeout_of, wait_timeout_of,
}
use runcor.Engine.Stored.Moves.{transition_and_emit-ok, transition_and_emit-err}

module _ {V C : Type 0} where
  -- Neither the limit nor the active executions exceed `b`.
  abbrev pub Bounded : ℕ → Engine V C → Type 0
  Bounded b e = (e.concurrency ≤ b) × (e.active_executions ≤ b)

module _ {V C : Type 0} (b : ℕ) where
  -- What holds of every result of a transition, whether it is accepted or not.
  pub transitioned_to-Bounded :
      (b' : ℕ) (f : Result ErrorCode (Execution V × Engine V C) → Engine V C) (x : Execution V)
      (t : State) (now : ℕ) (e : Engine V C)
      → Bounded b e
      → ((y : Execution V) (e' : Engine V C) → Bounded b e' → Bounded b' (f (ok (y, e'))))
      → ((c : ErrorCode) → Bounded b' (f (err c)))
      → Bounded b' (f (transition_and_emit x t now e))
  transitioned_to-Bounded b' f x t now e h good bad = elim (Bool-cases (allowed x.state t)) [
    | inl a ↦ rw (transition_and_emit-ok x t now e a) (good _ _ h)
    | inr a ↦ rw (transition_and_emit-err x t now e a) (bad _)
  ]

  pub transitioned-Bounded :
      (f : Result ErrorCode (Execution V × Engine V C) → Engine V C) (x : Execution V) (t : State)
      (now : ℕ) (e : Engine V C)
      → Bounded b e
      → ((y : Execution V) (e' : Engine V C) → Bounded b e' → Bounded b (f (ok (y, e'))))
      → ((c : ErrorCode) → Bounded b (f (err c)))
      → Bounded b (f (transition_and_emit x t now e))
  transitioned-Bounded = transitioned_to-Bounded b

  pub fail_execution-Bounded :
      (x : Execution V) (message : Text) (code : Option Text) (retryable : Bool) (now : ℕ)
      (e : Engine V C)
      → Bounded b e
      → Bounded b (fail_execution x message code retryable now e)
  unfolding fail_execution emit_failed persist finalize_spans
  fail_execution-Bounded x message code retryable now e h =
      elim (Bool-cases (is_terminal x.state)) [
        | inl t ↦ rw t h
        | inr t ↦
            rw t (
              transitioned-Bounded (λ r. emit_failed r e) _ failed now e h (λ y e' h'. h') (λ c. h))
      ]

  run_execution-Bounded :
      (x : Execution V) (flow : Flow) (o : Option ℕ) (now : ℕ) (e : Engine V C)
      → Bounded b e
      → Bounded b (run_execution x flow o now e)
  unfolding run_execution started_run persist
  run_execution-Bounded x flow o now e h =
      transitioned-Bounded (λ r. started_run r flow (number_or o flow.config.timeout) e) x running
        now e h (λ y e' h'. h') (λ c. h)

  -- A new execution is dispatched only below the limit.
  pub dispatch-Bounded :
      (x : Execution V) (flow : Flow) (o : Option ℕ) (now : ℕ) (e : Engine V C)
      → Bounded b e
      → Bounded b (dispatch x flow o now e)
  unfolding dispatch
  dispatch-Bounded x flow o now e h = elim (Bool-cases (state_beq x.state queued)) [
    | inr n ↦ rw n h
    | inl q ↦ elim (Bool-cases (leb e.concurrency e.active_executions)) [
      | inl f ↦ rw (q, f) h
      | inr f ↦ rw (q, f) (run_execution-Bounded x flow o now _ (h.0, ground (arith, h.0, f)))
    ]
  ]

  dispatch_next-Bounded :
      (xs : List (Execution V)) (now : ℕ) (e : Engine V C)
      → Bounded b e
      → Bounded b (dispatch_next xs now e)
  unfolding dispatch_next dispatch_found
  dispatch_next-Bounded [] now e h = h
  dispatch_next-Bounded (x ∷ xs) now e h =
      elim (Option-cases (Dict.get x.flow_name e.flow_registry)) [
        | inl n ↦ rw n h
        | inr (flow, f) ↦ rw f (dispatch-Bounded x flow none now e h)
      ]

  dispatch_queued-Bounded :
      (now : ℕ) (e : Engine V C) → Bounded b e → Bounded b (dispatch_queued now e)
  unfolding dispatch_queued
  dispatch_queued-Bounded now e h = elim (Bool-cases (leb e.concurrency e.active_executions)) [
    | inl f ↦ rw f h
    | inr f ↦ rw f (dispatch_next-Bounded _ now _ h)
  ]

  pub on_execution_terminal-Bounded :
      (id : Text) (now : ℕ) (e : Engine V C)
      → Bounded b e
      → Bounded b (on_execution_terminal id now e)
  unfolding on_execution_terminal free_slot finalize_spans
  on_execution_terminal-Bounded id now e h =
      dispatch_queued-Bounded now (free_slot id e) (h.0, omega (arith, h.1))

  pub fail_and_free-Bounded :
      (x : Execution V) (message : Text) (code : Option Text) (retryable : Bool) (now : ℕ)
      (e : Engine V C)
      → Bounded b e
      → Bounded b (fail_and_free x message code retryable now e)
  unfolding fail_and_free clear_timers
  fail_and_free-Bounded x message code retryable now e h =
      on_execution_terminal-Bounded x.id now _
        (fail_execution-Bounded x message code retryable now (clear_timers x.id e) h)

  pub complete_execution-Bounded :
      (x : Execution V) (result : V) (now : ℕ) (e : Engine V C)
      → Bounded b e
      → Bounded b (complete_execution x result now e)
  unfolding complete_execution moved_to_complete mutate persist clear_timers
  complete_execution-Bounded x result now e h =
      let y : Execution V = record x { result = some result } in
      let e' = mutate y (clear_timers x.id e) in
      transitioned-Bounded (λ r. moved_to_complete r x.id now e') y complete now e' h
        (λ y e' h'. on_execution_terminal-Bounded x.id now _ h') (λ c. h)

  pub handle_execution_error-Bounded :
      (x : Execution V) (flow : Flow) (retryable : Bool) (message : Text) (now jitter : ℕ)
      (e : Engine V C)
      → Bounded b e
      → Bounded b (handle_execution_error x flow retryable message now jitter e)
  unfolding handle_execution_error scheduled_retry persist
  handle_execution_error-Bounded x flow retryable message now jitter e h =
      elim (Bool-cases (retryable && ltb x.retry_count flow.config.max_retries)) [
        | inr n ↦ rw n (fail_and_free-Bounded x message _ retryable now e h)
        | inl p ↦ rw p (
            transitioned-Bounded (λ r. scheduled_retry r flow now jitter e) x retrying now e h
              (λ y e' h'. h') (λ c. h))
      ]

  pause_timeout-Bounded :
      (start : Option ℕ) (t : Option Timer) (id : Text) (total now : ℕ) (e : Engine V C)
      → Bounded b e
      → Bounded b (pause_timeout t start id total now e)
  unfolding pause_timeout
  pause_timeout-Bounded start none id total now e h = h
  pause_timeout-Bounded none (some t) id total now e h = h
  pause_timeout-Bounded (some at) (some t) id total now e h = h

  pub enter_waiting_state-Bounded :
      (x : Execution V) (flow : Flow) (signal : WaitSignal V) (now : ℕ) (e : Engine V C)
      → Bounded b e
      → Bounded b (enter_waiting_state x flow signal now e)
  unfolding enter_waiting_state entered_wait persist
  enter_waiting_state-Bounded x flow signal now e h =
      let o = Dict.get x.id e.trigger_options_map in
      let start = Dict.get x.id e.start_times in
      let timer = Dict.get x.id e.timeout_timers in
      let total = timeout_of o flow.config.timeout in
      let paused = pause_timeout timer start x.id total now e in
      let e' = record paused { flow_handler_map = Dict.set x.id flow paused.flow_handler_map } in
      let p = pause_timeout-Bounded start timer x.id total now e h in
      transitioned-Bounded
        (λ r. entered_wait r flow (wait_timeout_of o flow.config.wait_timeout) now e') _ waiting now
        e' p (λ y e'' h'. dispatch_queued-Bounded now _ (h'.0, omega (arith, h'.1))) (λ c. p)
