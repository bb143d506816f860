-- ===== src/Engine/Tasks.antt =====
-- engine.ts: dispatching, running, waiting and retrying: `dispatch`, `runExecution`,
-- `handleExecutionError`, `enterWaitingState`, `runResumedHandler` and what follows an end. Each
-- function is what runs between two waits of its `async` function, or in the callback of a timer.
use runcor.Common.{
  ℕ, ◌+◌, ◌-◌, Text, codes, Option, none, some, List, [], ◌∷◌, Bool, if◌then◌else◌, ltb, leb, not,
  text_eq, ◌&&◌,
}
use runcor.Common.Dict
use runcor.Common.Dict.{Dict, is_some}
use runcor.Common.Int.{pos}
use runcor.Common.Sort.{sort_by}
use runcor.Errors.{Result, ok, err, ErrorCode}
use runcor.Execution.{Execution, WaitContext, queued, running, waiting, retrying, complete}
use runcor.StateStore.{StateFilter, state_beq, list_executions}
use runcor.Policy.AccessControl.{resolve_tenant_id}
use runcor.Policy.Guardrails.{GuardrailContext, Phase}
use runcor.Policy.Engine.{evaluate_guardrails}
use runcor.Engine.{
  Engine, Flow, TriggerOptions, WaitSignal, Phase as TaskPhase, begins, in_run, Task, Timer, emit,
  completed,
}
use runcor.Engine.Moves.{
  transition_and_emit, persist, mutate, clear_timers, finalize_spans, fail_execution,
  calculate_backoff, evict_options,
}

abbrev pub user_of : {V : Type 0} → Option (TriggerOptions V) → Option Text
user_of none = none
user_of (some o) = o.user_id

abbrev pub tenant_of : {V : Type 0} → Option (TriggerOptions V) → Option Text
tenant_of none = none
tenant_of (some o) = o.tenant_id

-- `options?.timeout ?? timeout`, and the same for the wait timeout.
abbrev pub number_or : Option ℕ → ℕ → ℕ
number_or none n = n
number_or (some m) n = m

abbrev pub timeout_of : {V : Type 0} → Option (TriggerOptions V) → ℕ → ℕ
timeout_of none n = n
timeout_of (some o) n = number_or o.timeout n

abbrev pub wait_timeout_of : {V : Type 0} → Option (TriggerOptions V) → ℕ → ℕ
wait_timeout_of none n = n
wait_timeout_of (some o) n = number_or o.wait_timeout n

abbrev pub only_queued : Option StateFilter
only_queued = some (record { by_state = some queued; by_flow_name = none })

module _ {V C : Type 0} where
  abbrev pub with_task : Text → Task V → Engine V C → Engine V C
  with_task id t e = record e { tasks = Dict.set id t e.tasks }

  abbrev pub without_task : Text → Engine V C → Engine V C
  without_task id e = record e { tasks = Dict.delete id e.tasks }

  guardrail_context : Text → Flow → Phase → Engine V C → GuardrailContext
  guardrail_context id flow phase e =
      let o = Dict.get id e.trigger_options_map in
      record {
        execution_id = id;
        flow_name = flow.name;
        user_id = user_of o;
        tenant_id = resolve_tenant_id (tenant_of o) (user_of o);
        phase = phase;
      }

  -- The guardrails are read, and their outcome is kept, when the wait for them begins.
  unfoldable pub await_guardrails :
      Text → Flow → Phase → V → (Result ErrorCode V → TaskPhase V) → Engine V C → Engine V C
  unfolding guardrail_context
  await_guardrails id flow phase content then_phase e =
      let (outcome, policy) =
        evaluate_guardrails phase content (guardrail_context id flow phase e) e.policy_engine in
      with_task id (in_run flow (then_phase outcome)) (record e { policy_engine = policy })

  unfoldable pub arm_timeout : Text → Flow → ℕ → ℕ → Engine V C → Engine V C
  arm_timeout id flow timeout now e =
      if ltb 0 timeout
      then record e {
        timeout_timers = Dict.set id (record { due = now + timeout; flow = flow }) e.timeout_timers;
      }
      else e

  unfoldable pub started_run :
      Result ErrorCode (Execution V × Engine V C) → Flow → ℕ → Engine V C → Engine V C
  unfolding persist
  started_run (ok (x, e')) flow timeout e =
      with_task x.id (in_run flow (begins x timeout)) (persist x e')
  started_run (err code) flow timeout e = e

  -- `runExecution` up to its first wait, for the store.
  unfoldable pub run_execution : Execution V → Flow → Option ℕ → ℕ → Engine V C → Engine V C
  unfolding started_run transition_and_emit
  run_execution x flow timeout_override now e =
      started_run (transition_and_emit x running now e) flow
        (number_or timeout_override flow.config.timeout) e

  unfoldable pub dispatch : Execution V → Flow → Option ℕ → ℕ → Engine V C → Engine V C
  unfolding run_execution
  dispatch x flow timeout_override now e =
      if not (state_beq x.state queued)
      then e
      else if leb e.concurrency e.active_executions
      then e
      else run_execution x flow timeout_override now
          (record e { active_executions = e.active_executions + 1 })

  unfoldable pub dispatch_found : Option Flow → Execution V → ℕ → Engine V C → Engine V C
  unfolding dispatch
  dispatch_found none x now e = e
  dispatch_found (some flow) x now e = dispatch x flow none now e

  unfoldable pub dispatch_next : List (Execution V) → ℕ → Engine V C → Engine V C
  unfolding dispatch_found
  dispatch_next [] now e = e
  dispatch_next (x ∷ xs) now e = dispatch_found (Dict.get x.flow_name e.flow_registry) x now e

  unfoldable pub dispatch_queued : ℕ → Engine V C → Engine V C
  unfolding dispatch_next
  dispatch_queued now e =
      if leb e.concurrency e.active_executions
      then e
      else let (found, st) = list_executions only_queued now e.state_store in
        dispatch_next (sort_by (λ x. pos x.timestamps.queued_at) found) now
          (record e { state_store = st })

  -- `onExecutionTerminal`. The execution that frees its slot has taken it, so the count is positive here.
  unfoldable pub free_slot : Text → Engine V C → Engine V C
  unfolding finalize_spans evict_options
  free_slot id e = finalize_spans id (record e {
    active_executions = e.active_executions - 1;
    trigger_options_map = evict_options e.trigger_options_map;
    flow_handler_map = Dict.delete id e.flow_handler_map;
    execution_timeout_remaining = Dict.delete id e.execution_timeout_remaining;
  })

  unfoldable pub on_execution_terminal : Text → ℕ → Engine V C → Engine V C
  unfolding free_slot
  on_execution_terminal id now e = dispatch_queued now (free_slot id e)

  -- The three calls that end an occupied execution: clear its timers, fail it, free its slot.
  unfoldable pub fail_and_free :
      Execution V → Text → Option Text → Bool → ℕ → Engine V C → Engine V C
  fail_and_free x message code retryable now e =
      on_execution_terminal x.id now
        (fail_execution x message code retryable now (clear_timers x.id e))

  unfoldable pub moved_to_complete :
      Result ErrorCode (Execution V × Engine V C) → Text → ℕ → Engine V C → Engine V C
  unfolding persist
  moved_to_complete (ok (x, e')) id now e =
      on_execution_terminal id now (emit (completed id x.state) (persist x e'))
  -- The catch block, which returns since the state is not `running`; the result has been assigned.
  moved_to_complete (err code) id now e = e

  -- The end of an attempt with a result.
  unfoldable pub complete_execution : Execution V → V → ℕ → Engine V C → Engine V C
  unfolding moved_to_complete clear_timers mutate transition_and_emit
  complete_execution x result now e =
      let x' = record x { result = some result } in
      let e' = mutate x' (clear_timers x.id e) in
      moved_to_complete (transition_and_emit x' complete now e') x.id now e'

  unfoldable pub scheduled_retry :
      Result ErrorCode (Execution V × Engine V C) → Flow → ℕ → ℕ → Engine V C → Engine V C
  unfolding persist
  scheduled_retry (ok (x, e')) flow now jitter e =
      let delay =
        calculate_backoff x.retry_count flow.config.base_retry_delay flow.config.max_retry_delay
          jitter in
      let e'' = persist (record x { retry_count = x.retry_count + 1 }) e' in
      record e'' {
        retry_timers = Dict.set x.id (record { due = now + delay; flow = flow }) e''.retry_timers;
      }
  scheduled_retry (err code) flow now jitter e = e

  -- `handleExecutionError`.
  unfoldable pub handle_execution_error :
      Execution V → Flow → Bool → Text → ℕ → ℕ → Engine V C → Engine V C
  unfolding scheduled_retry transition_and_emit
  handle_execution_error x flow retryable message now jitter e =
      if retryable && ltb x.retry_count flow.config.max_retries
      then scheduled_retry (transition_and_emit x retrying now e) flow now jitter e
      else fail_and_free x message
          (if retryable then some (codes "MAX_RETRIES_EXHAUSTED") else none) retryable now e

  -- What remains of the execution's time is kept while it waits.
  unfoldable pub pause_timeout : Option Timer → Option ℕ → Text → ℕ → ℕ → Engine V C → Engine V C
  pause_timeout none start id total now e = e
  pause_timeout (some t) none id total now e = record e {
    timeout_timers = Dict.delete id e.timeout_timers;
  }
  pause_timeout (some t) (some start) id total now e = record e {
    timeout_timers = Dict.delete id e.timeout_timers;
    execution_timeout_remaining =
        if ltb 0 total
        then Dict.set id (total - (now - start)) e.execution_timeout_remaining
        else e.execution_timeout_remaining;
  }

  unfoldable pub entered_wait :
      Result ErrorCode (Execution V × Engine V C) → Flow → ℕ → ℕ → Engine V C → Engine V C
  unfolding persist
  entered_wait (ok (x, e')) flow wait_timeout now e =
      let e'' = persist x e' in
      dispatch_queued now (record e'' {
        wait_timeout_timers =
            if ltb 0 wait_timeout
            then Dict.set x.id (record { due = now + wait_timeout; flow = flow })
                e''.wait_timeout_timers
            else e''.wait_timeout_timers;
        active_executions = e''.active_executions - 1;
      })
  entered_wait (err code) flow wait_timeout now e = e

  -- `enterWaitingState`, whose timeout is the trigger's or else the flow's, and so is its wait's.
  unfoldable pub enter_waiting_state :
      Execution V → Flow → WaitSignal V → ℕ → Engine V C → Engine V C
  unfolding pause_timeout entered_wait transition_and_emit
  enter_waiting_state x flow signal now e =
      let context : WaitContext V = record {
        reason = signal.reason;
        expected_resume_by = signal.expected_resume_by;
        wait_data = signal.wait_data;
        waiting_since = now;
      } in
      let x' = record x { wait_context = some context } in
      let o = Dict.get x.id e.trigger_options_map in
      let paused =
        pause_timeout (Dict.get x.id e.timeout_timers) (Dict.get x.id e.start_times) x.id
          (timeout_of o flow.config.timeout) now e in
      let e' = record paused { flow_handler_map = Dict.set x.id flow paused.flow_handler_map } in
      entered_wait (transition_and_emit x' waiting now e') flow
        (wait_timeout_of o flow.config.wait_timeout) now e'
