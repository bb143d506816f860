-- ===== src/Engine/Moves.antt =====
-- engine.ts: transitions with their events, failing, timers, and the backoff of retries.
use runcor.Common.{
  ℕ, ◌+◌, ◌*◌, ◌^◌, min, Text, Option, none, some, Bool, if◌then◌else◌, ltb, text_eq, length, drop,
}
use runcor.Common.Dict
use runcor.Common.Dict.{Dict}
use runcor.Errors.{Result, ok, err, ErrorCode, ◌>>=◌}
use runcor.Execution.{State, Execution, ExecutionError, failed, is_terminal, transition_execution}
use runcor.StateStore.{set_execution}
use runcor.Engine.{Engine, state_change, completed, emit, TriggerOptions}

-- `attempt` counts from 0; `jitter` is the whole part of `Math.random() * 1000`.
unfoldable pub calculate_backoff : ℕ → ℕ → ℕ → ℕ → ℕ
calculate_backoff attempt base_delay max_delay jitter =
    min (base_delay * 2 ^ attempt) max_delay + jitter

-- The entries of `triggerOptionsMap` beyond 10000 are dropped one by one, the oldest first.
unfoldable pub evict_options :
    {V : Type 0} → Dict Text (TriggerOptions V) → Dict Text (TriggerOptions V)
evict_options m = if ltb 10000 (length m) then drop 1 m else m

module _ {V C : Type 0} where
  -- `transitionAndEmit`. The new object is written to the store by `persist`, which every caller
  -- reaches before it awaits anything.
  unfoldable pub transition_and_emit :
      Execution V → State → ℕ → Engine V C → Result ErrorCode (Execution V × Engine V C)
  transition_and_emit x new_state now e = do
    x' ← transition_execution x new_state now
    ok (x', emit (state_change x.id x.state new_state) e)

  -- `stateStore.set(execution)`.
  unfoldable pub persist : Execution V → Engine V C → Engine V C
  unfolding set_execution
  persist x e = record e { state_store = set_execution x e.state_store }

  -- A change of the stored object alone.
  unfoldable pub mutate : Execution V → Engine V C → Engine V C
  mutate x e = record e {
    state_store = record e.state_store { executions = Dict.set x.id x e.state_store.executions };
  }

  unfoldable pub clear_timers : Text → Engine V C → Engine V C
  clear_timers id e = record e {
    retry_timers = Dict.delete id e.retry_timers;
    timeout_timers = Dict.delete id e.timeout_timers;
    wait_timeout_timers = Dict.delete id e.wait_timeout_timers;
    flow_handler_map = Dict.delete id e.flow_handler_map;
    execution_timeout_remaining = Dict.delete id e.execution_timeout_remaining;
  }

  -- `finalizeSpans`, of which the start time matters here.
  unfoldable pub finalize_spans : Text → Engine V C → Engine V C
  finalize_spans id e = record e { start_times = Dict.delete id e.start_times }

  unfoldable pub emit_failed : Result ErrorCode (Execution V × Engine V C) → Engine V C → Engine V C
  unfolding persist finalize_spans
  emit_failed (ok (x, e')) e = finalize_spans x.id (emit (completed x.id x.state) (persist x e'))
  emit_failed (err code) e = e

  -- A live state always admits the transition.
  unfoldable pub fail_execution :
      Execution V → Text → Option Text → Bool → ℕ → Engine V C → Engine V C
  unfolding emit_failed transition_and_emit
  fail_execution x message code retryable now e =
      let info : ExecutionError = record {
        message = message;
        stack = none;
        retryable = retryable;
        retries = x.retry_count;
        code = code;
      } in
      if is_terminal x.state
      then e
      else emit_failed (transition_and_emit (record x { error = some info }) failed now e) e
