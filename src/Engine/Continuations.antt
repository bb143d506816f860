-- ===== src/Engine/Continuations.antt =====
-- engine.ts: what the functions of an execution do when what they wait for has come, and the
-- callbacks of the three kinds of timers. The methods of Tasks that they call are not repeated.
use runcor.Common.{ℕ, Text, codes, Option, none, some, false, if◌then◌else◌, leb, not, text_eq}
use runcor.Common.Dict
use runcor.Common.Dict.{Dict}
use runcor.Errors.{Result, ok, err, ErrorCode}
use runcor.Execution.{Execution, running, waiting, retrying, is_running, is_terminal}
use runcor.StateStore.{state_beq}
use runcor.Policy.Guardrails.{input, output}
use runcor.Engine.{
  Engine, Flow, HandlerOutcome, returns, waits, raises, Attempt, first, retried, resumed, Phase,
  begins, checks_input, handles, checks_output, Task, in_run, Timer, execution_of, object_of,
}
use runcor.Engine.Moves.{transition_and_emit, persist, clear_timers, finalize_spans, fail_execution}
use runcor.Engine.Tasks.{
  with_task, without_task, await_guardrails, arm_timeout, fail_and_free, complete_execution,
  handle_execution_error, enter_waiting_state,
}

-- The message of the error that a blocking guardrail throws, less the guardrail's name and reason.
abbrev blocked : Text
blocked = codes "Guardrail blocked"

module _ {V C : Type 0} where
  -- `runExecution` after the input guardrails. The handler starts whatever the state has become.
  unfoldable pub checked_input :
      Result ErrorCode V → Flow → Execution V → ℕ → ℕ → Engine V C → Engine V C
  checked_input (ok v) flow x now jitter e = with_task x.id (in_run flow (handles first v)) e
  checked_input (err code) flow x now jitter e =
      if is_running x.state
      then handle_execution_error x flow false blocked now jitter (without_task x.id e)
      else without_task x.id e

  -- `runExecution`, the retry timer and `runResumedHandler` after the call of the handler, while the
  -- state is `running`. A retried attempt's result passes no guardrail.
  unfoldable pub handled :
      HandlerOutcome V → Attempt → Flow → Execution V → ℕ → ℕ → Engine V C → Engine V C
  handled (returns v) retried flow x now jitter e = complete_execution x v now e
  handled (returns v) attempt flow x now jitter e =
      await_guardrails x.id flow output v (checks_output attempt) e
  handled (waits signal) attempt flow x now jitter e = enter_waiting_state x flow signal now e
  handled (raises retryable message) resumed flow x now jitter e =
      fail_and_free x message none false now e
  handled (raises retryable message) attempt flow x now jitter e =
      handle_execution_error x flow retryable message now jitter e

  -- The catch blocks of `runExecution` and `runResumedHandler`, for an output that is blocked.
  unfoldable pub output_blocked : Attempt → Flow → Execution V → ℕ → ℕ → Engine V C → Engine V C
  output_blocked resumed flow x now jitter e = fail_and_free x blocked none false now e
  output_blocked attempt flow x now jitter e =
      handle_execution_error x flow false blocked now jitter e

  -- After the output guardrails. The state is not looked at again before the result is assigned.
  unfoldable pub checked_output :
      Attempt → Result ErrorCode V → Flow → Execution V → ℕ → ℕ → Engine V C → Engine V C
  unfolding output_blocked
  checked_output attempt (ok v) flow x now jitter e = complete_execution x v now e
  checked_output attempt (err code) flow x now jitter e =
      if is_running x.state then output_blocked attempt flow x now jitter e else e

  -- The body of `runExecution` after its first wait; the state is not looked at again.
  unfoldable pub begun : Phase V → Flow → Option (Execution V) → Text → ℕ → Engine V C → Engine V C
  begun (begins held timeout) flow stored id now e =
      await_guardrails id flow input (object_of stored held).input checks_input
        (arm_timeout id flow timeout now e)
  begun _ flow stored id now e = e

  unfoldable pub run_stored_by :
      Option (Task V) → Option (Execution V) → Text → ℕ → Engine V C → Engine V C
  unfolding begun
  run_stored_by (some (in_run flow phase)) stored id now e = begun phase flow stored id now e
  run_stored_by _ stored id now e = e

  -- `runExecution` from the end of its wait for the store to its wait for the guardrails.
  unfoldable pub run_stored : Text → ℕ → Engine V C → Engine V C
  unfolding run_stored_by
  run_stored id now e = run_stored_by (Dict.get id e.tasks) (execution_of id e) id now e

  unfoldable pub after_input : Phase V → Flow → Execution V → ℕ → ℕ → Engine V C → Engine V C
  after_input (checks_input r) flow x now jitter e = checked_input r flow x now jitter e
  after_input _ flow x now jitter e = e

  unfoldable pub after_handler :
      Phase V → HandlerOutcome V → Flow → Execution V → ℕ → ℕ → Engine V C → Engine V C
  after_handler (handles attempt v) outcome flow x now jitter e =
      if is_running x.state
      then handled outcome attempt flow x now jitter (without_task x.id e)
      else without_task x.id e
  after_handler _ outcome flow x now jitter e = e

  unfoldable pub after_output : Phase V → Flow → Execution V → ℕ → ℕ → Engine V C → Engine V C
  after_output (checks_output attempt r) flow x now jitter e =
      checked_output attempt r flow x now jitter (without_task x.id e)
  after_output _ flow x now jitter e = e

  unfoldable pub input_checked_by :
      Option (Task V) → Option (Execution V) → ℕ → ℕ → Engine V C → Engine V C
  unfolding after_input
  input_checked_by (some (in_run flow phase)) (some x) now jitter e =
      after_input phase flow x now jitter e
  input_checked_by _ _ now jitter e = e

  unfoldable pub handler_returned_by :
      Option (Task V) → Option (Execution V) → HandlerOutcome V → ℕ → ℕ → Engine V C → Engine V C
  unfolding after_handler
  handler_returned_by (some (in_run flow phase)) (some x) outcome now jitter e =
      after_handler phase outcome flow x now jitter e
  handler_returned_by _ _ outcome now jitter e = e

  unfoldable pub output_checked_by :
      Option (Task V) → Option (Execution V) → ℕ → ℕ → Engine V C → Engine V C
  unfolding after_output
  output_checked_by (some (in_run flow phase)) (some x) now jitter e =
      after_output phase flow x now jitter e
  output_checked_by _ _ now jitter e = e

  -- A wait that ends. An execution that has left the store has ended, and its function changes
  -- nothing any more.
  unfoldable pub input_checked : Text → ℕ → ℕ → Engine V C → Engine V C
  unfolding input_checked_by
  input_checked id now jitter e =
      input_checked_by (Dict.get id e.tasks) (execution_of id e) now jitter e

  unfoldable pub handler_returned : Text → HandlerOutcome V → ℕ → ℕ → Engine V C → Engine V C
  unfolding handler_returned_by
  handler_returned id outcome now jitter e =
      handler_returned_by (Dict.get id e.tasks) (execution_of id e) outcome now jitter e

  unfoldable pub output_checked : Text → ℕ → ℕ → Engine V C → Engine V C
  unfolding output_checked_by
  output_checked id now jitter e =
      output_checked_by (Dict.get id e.tasks) (execution_of id e) now jitter e

  unfoldable pub ran_again :
      Result ErrorCode (Execution V × Engine V C) → Flow → Engine V C → Engine V C
  ran_again (ok (x, e')) flow e =
      with_task x.id (in_run flow (handles retried x.input)) (persist x e')
  ran_again (err code) flow e = e

  unfoldable pub retry_fires_by : Option Timer → Option (Execution V) → ℕ → Engine V C → Engine V C
  unfolding ran_again
  retry_fires_by (some t) (some x) now e =
      let e' = record e { retry_timers = Dict.delete x.id e.retry_timers } in
      if not (leb t.due now)
      then e
      else if state_beq x.state retrying
      then ran_again (transition_and_emit x running now e') t.flow e'
      else e'
  retry_fires_by _ _ now e = e

  -- The callback of the retry timer up to the call of the handler.
  unfoldable pub retry_fires : Text → ℕ → Engine V C → Engine V C
  unfolding retry_fires_by
  retry_fires id now e = retry_fires_by (Dict.get id e.retry_timers) (execution_of id e) now e

  unfoldable pub timeout_fires_by :
      Option Timer → Option (Execution V) → ℕ → Engine V C → Engine V C
  timeout_fires_by (some t) (some x) now e =
      if not (leb t.due now)
      then e
      else if is_terminal x.state
      then e
      else fail_and_free x (codes "Execution timed out") (some (codes "TIMEOUT")) false now e
  timeout_fires_by _ _ now e = e

  -- The callback of the execution's timeout, set by `runExecution` or by `resume`.
  unfoldable pub timeout_fires : Text → ℕ → Engine V C → Engine V C
  unfolding timeout_fires_by
  timeout_fires id now e = timeout_fires_by (Dict.get id e.timeout_timers) (execution_of id e) now e

  unfoldable pub wait_timeout_fires_by :
      Option Timer → Option (Execution V) → ℕ → Engine V C → Engine V C
  wait_timeout_fires_by (some t) (some x) now e =
      if not (leb t.due now)
      then e
      else if state_beq x.state waiting
      then finalize_spans x.id (
          fail_execution x (codes "Wait timed out") (some (codes "WAIT_TIMEOUT")) false now
            (clear_timers x.id e))
      else e
  wait_timeout_fires_by _ _ now e = e

  -- The callback of the wait timeout. A waiting execution holds no slot.
  unfoldable pub wait_timeout_fires : Text → ℕ → Engine V C → Engine V C
  unfolding wait_timeout_fires_by
  wait_timeout_fires id now e =
      wait_timeout_fires_by (Dict.get id e.wait_timeout_timers) (execution_of id e) now e
