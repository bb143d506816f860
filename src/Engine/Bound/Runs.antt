-- ===== src/Engine/Bound/Runs.antt =====
-- engine.ts: the count of active executions through continuations and timers.
use runcor.Common.{
  ℕ, ltb, Text, nat_eq, Option, none, some, false, leb, text_eq, Bool-cases, inl, inr,
}
use runcor.Common.Dict
use runcor.Common.Dict.{Dict}
use runcor.Errors.{ok, err}
use runcor.Execution.{Execution, running, waiting, retrying, is_terminal, is_running}
use runcor.StateStore.{state_beq}
use runcor.Engine.{
  Engine, Flow, HandlerOutcome, returns, waits, raises, Attempt, first, retried, resumed, Phase,
  begins, checks_input, handles, checks_output, Task, in_run, in_resume, Timer,
}
use runcor.Engine.Moves.{persist, clear_timers, finalize_spans}
use runcor.Engine.Tasks.{without_task, await_guardrails, arm_timeout}
use runcor.Engine.Continuations.{
  checked_input, handled, checked_output, output_blocked, after_input, after_handler, after_output,
  run_stored_by, begun, input_checked_by, handler_returned_by, output_checked_by, ran_again,
  retry_fires_by, timeout_fires_by, wait_timeout_fires_by,
}
use runcor.Engine.Bound.{
  Bounded, transitioned-Bounded, fail_execution-Bounded, fail_and_free-Bounded,
  complete_execution-Bounded, handle_execution_error-Bounded, enter_waiting_state-Bounded,
}

module _ {V C : Type 0} (b : ℕ) where
  after_input-Bounded :
      (p : Phase V) (flow : Flow) (x : Execution V) (now jitter : ℕ) (e : Engine V C)
      → Bounded b e
      → Bounded b (after_input p flow x now jitter e)
  unfolding after_input checked_input
  after_input-Bounded (begins k m) flow x now jitter e h = h
  after_input-Bounded (checks_input (ok v)) flow x now jitter e h = h
  after_input-Bounded (checks_input (err code)) flow x now jitter e h =
      elim (Bool-cases (is_running x.state)) [
        | inl r ↦
            rw r
              (handle_execution_error-Bounded b x flow false _ now jitter (without_task x.id e) h)
        | inr n ↦ rw n h
      ]
  after_input-Bounded (handles a v) flow x now jitter e h = h
  after_input-Bounded (checks_output a r) flow x now jitter e h = h

  handled-Bounded :
      (outcome : HandlerOutcome V) (a : Attempt) (flow : Flow) (x : Execution V) (now jitter : ℕ)
      (e : Engine V C)
      → Bounded b e
      → Bounded b (handled outcome a flow x now jitter e)
  unfolding handled await_guardrails
  handled-Bounded (returns v) first flow x now jitter e h = h
  handled-Bounded (returns v) retried flow x now jitter e h =
      complete_execution-Bounded b x v now e h
  handled-Bounded (returns v) resumed flow x now jitter e h = h
  handled-Bounded (waits signal) a flow x now jitter e h =
      enter_waiting_state-Bounded b x flow signal now e h
  handled-Bounded (raises t m) first flow x now jitter e h =
      handle_execution_error-Bounded b x flow t m now jitter e h
  handled-Bounded (raises t m) retried flow x now jitter e h =
      handle_execution_error-Bounded b x flow t m now jitter e h
  handled-Bounded (raises t m) resumed flow x now jitter e h =
      fail_and_free-Bounded b x m none false now e h

  after_handler-Bounded :
      (p : Phase V) (outcome : HandlerOutcome V) (flow : Flow) (x : Execution V) (now jitter : ℕ)
      (e : Engine V C)
      → Bounded b e
      → Bounded b (after_handler p outcome flow x now jitter e)
  unfolding after_handler
  after_handler-Bounded (handles a v) outcome flow x now jitter e h =
      elim (Bool-cases (is_running x.state)) [
        | inl r ↦ rw r (handled-Bounded outcome a flow x now jitter (without_task x.id e) h)
        | inr n ↦ rw n h
      ]
  after_handler-Bounded (begins k m) outcome flow x now jitter e h = h
  after_handler-Bounded (checks_input q) outcome flow x now jitter e h = h
  after_handler-Bounded (checks_output a q) outcome flow x now jitter e h = h

  output_blocked-Bounded :
      (a : Attempt) (flow : Flow) (x : Execution V) (now jitter : ℕ) (e : Engine V C)
      → Bounded b e
      → Bounded b (output_blocked a flow x now jitter e)
  unfolding output_blocked
  output_blocked-Bounded first flow x now jitter e h =
      handle_execution_error-Bounded b x flow false _ now jitter e h
  output_blocked-Bounded retried flow x now jitter e h =
      handle_execution_error-Bounded b x flow false _ now jitter e h
  output_blocked-Bounded resumed flow x now jitter e h =
      fail_and_free-Bounded b x _ none false now e h

  after_output-Bounded :
      (p : Phase V) (flow : Flow) (x : Execution V) (now jitter : ℕ) (e : Engine V C)
      → Bounded b e
      → Bounded b (after_output p flow x now jitter e)
  unfolding after_output checked_output
  after_output-Bounded (begins k m) flow x now jitter e h = h
  after_output-Bounded (checks_output a (ok v)) flow x now jitter e h =
      complete_execution-Bounded b x v now (without_task x.id e) h
  after_output-Bounded (checks_output a (err code)) flow x now jitter e h =
      elim (Bool-cases (is_running x.state)) [
        | inl r ↦ rw r (output_blocked-Bounded a flow x now jitter (without_task x.id e) h)
        | inr n ↦ rw n h
      ]
  after_output-Bounded (checks_input q) flow x now jitter e h = h
  after_output-Bounded (handles a v) flow x now jitter e h = h

  pub run_stored-Bounded :
      (t : Option (Task V)) (x : Option (Execution V)) (id : Text) (now : ℕ) (e : Engine V C)
      → Bounded b e
      → Bounded b (run_stored_by t x id now e)
  unfolding run_stored_by begun await_guardrails arm_timeout
  run_stored-Bounded none x id now e h = h
  run_stored-Bounded (some (in_resume held)) x id now e h = h
  run_stored-Bounded (some (in_run flow (begins held timeout))) x id now e h =
      elim (Bool-cases (ltb 0 timeout)) [ inl p ↦ rw p h | inr p ↦ rw p h ]
  run_stored-Bounded (some (in_run flow (checks_input q))) x id now e h = h
  run_stored-Bounded (some (in_run flow (handles a v))) x id now e h = h
  run_stored-Bounded (some (in_run flow (checks_output a q))) x id now e h = h

  pub input_checked-Bounded :
      (t : Option (Task V)) (x : Option (Execution V)) (now jitter : ℕ) (e : Engine V C)
      → Bounded b e
      → Bounded b (input_checked_by t x now jitter e)
  unfolding input_checked_by
  input_checked-Bounded none x now jitter e h = h
  input_checked-Bounded (some (in_resume held)) x now jitter e h = h
  input_checked-Bounded (some (in_run flow p)) none now jitter e h = h
  input_checked-Bounded (some (in_run flow p)) (some x) now jitter e h =
      after_input-Bounded p flow x now jitter e h

  pub handler_returned-Bounded :
      (t : Option (Task V)) (x : Option (Execution V)) (outcome : HandlerOutcome V) (now jitter : ℕ)
      (e : Engine V C)
      → Bounded b e
      → Bounded b (handler_returned_by t x outcome now jitter e)
  unfolding handler_returned_by
  handler_returned-Bounded none x outcome now jitter e h = h
  handler_returned-Bounded (some (in_resume held)) x outcome now jitter e h = h
  handler_returned-Bounded (some (in_run flow p)) none outcome now jitter e h = h
  handler_returned-Bounded (some (in_run flow p)) (some x) outcome now jitter e h =
      after_handler-Bounded p outcome flow x now jitter e h

  pub output_checked-Bounded :
      (t : Option (Task V)) (x : Option (Execution V)) (now jitter : ℕ) (e : Engine V C)
      → Bounded b e
      → Bounded b (output_checked_by t x now jitter e)
  unfolding output_checked_by
  output_checked-Bounded none x now jitter e h = h
  output_checked-Bounded (some (in_resume held)) x now jitter e h = h
  output_checked-Bounded (some (in_run flow p)) none now jitter e h = h
  output_checked-Bounded (some (in_run flow p)) (some x) now jitter e h =
      after_output-Bounded p flow x now jitter e h

  pub retry_fires-Bounded :
      (t : Option Timer) (x : Option (Execution V)) (now : ℕ) (e : Engine V C)
      → Bounded b e
      → Bounded b (retry_fires_by t x now e)
  unfolding retry_fires_by ran_again persist
  retry_fires-Bounded none x now e h = h
  retry_fires-Bounded (some t) none now e h = h
  retry_fires-Bounded (some t) (some x) now e h = elim (Bool-cases (leb t.due now)) [
    | inr n ↦ rw n h
    | inl due ↦ elim (Bool-cases (state_beq x.state retrying)) [
      | inr n ↦ rw (due, n) h
      | inl r ↦
          let e' = record e { retry_timers = Dict.delete x.id e.retry_timers } in
          rw (due, r)
            (transitioned-Bounded b (λ r. ran_again r t.flow e') x running now e' h (λ y e'' h'. h')
              (λ c. h))
    ]
  ]

  pub timeout_fires-Bounded :
      (t : Option Timer) (x : Option (Execution V)) (now : ℕ) (e : Engine V C)
      → Bounded b e
      → Bounded b (timeout_fires_by t x now e)
  unfolding timeout_fires_by
  timeout_fires-Bounded none x now e h = h
  timeout_fires-Bounded (some t) none now e h = h
  timeout_fires-Bounded (some t) (some x) now e h = elim (Bool-cases (leb t.due now)) [
    | inr n ↦ rw n h
    | inl due ↦ elim (Bool-cases (is_terminal x.state)) [
      | inl n ↦ rw (due, n) h
      | inr n ↦ rw (due, n) (fail_and_free-Bounded b x _ _ false now e h)
    ]
  ]

  pub wait_timeout_fires-Bounded :
      (t : Option Timer) (x : Option (Execution V)) (now : ℕ) (e : Engine V C)
      → Bounded b e
      → Bounded b (wait_timeout_fires_by t x now e)
  unfolding wait_timeout_fires_by finalize_spans clear_timers
  wait_timeout_fires-Bounded none x now e h = h
  wait_timeout_fires-Bounded (some t) none now e h = h
  wait_timeout_fires-Bounded (some t) (some x) now e h = elim (Bool-cases (leb t.due now)) [
    | inr n ↦ rw n h
    | inl due ↦ elim (Bool-cases (state_beq x.state waiting)) [
      | inr n ↦ rw (due, n) h
      | inl w ↦ rw (due, w) (fail_execution-Bounded b x _ _ false now (clear_timers x.id e) h)
    ]
  ]
