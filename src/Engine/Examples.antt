-- ===== src/Engine/Examples.antt =====
-- An engine with one slot, whose flow waits and is resumed, or is cancelled.
use runcor.Common.{
  ℕ, ◌≡◌, refl, ◌≤◌, ◌+◌, Text, codes, none, some, true, false, List, [], ◌∷◌, text_eq,
}
use runcor.Common.Dict
use runcor.Errors.{ok}
use runcor.Execution.{Execution, running, waiting, failed, create_execution}
use runcor.StateStore.{
  evict_expired, new_store, get_by_idempotency_key, lookup_id, get_execution, set_execution,
  list_executions,
}
use runcor.Common.Sort.{sort_by, insert}
use runcor.Execution.{transition_execution, validate_transition, allowed, stamp_started}
use runcor.Engine.Moves.{
  transition_and_emit, persist, clear_timers, fail_execution, emit_failed, finalize_spans,
}
use runcor.Engine.Tasks.{
  dispatch, run_execution, started_run, arm_timeout, await_guardrails, enter_waiting_state,
  pause_timeout, entered_wait, dispatch_queued, dispatch_next, dispatch_found,
}
use runcor.Engine.Continuations.{
  run_stored, run_stored_by, begun, input_checked, input_checked_by, after_input, checked_input,
  handler_returned, handler_returned_by, after_handler, handled,
}
use runcor.Engine.Resume.{
  start_resume, check_resume, resume_context, continue_resume, resume_fresh, resume_execution,
  resumed_run, resume_flow, resume_within, rerun, resume_stored, resume_stored_by, resumed_object,
}
use runcor.Engine.Step.{continued, continue_call}
use runcor.Engine.Calls.{trigger_context}
use runcor.Policy.AccessControl.{resolve_tenant_id}
use runcor.Policy.Engine.{
  evaluate_pre_execution, limit_step, has_any_policies, access_allows, applicable_limits, rule_step,
  evaluate_guardrails,
}
use runcor.Policy.RateLimiter
use runcor.Policy.Engine.{PolicyEngine, proceeds}
use runcor.Engine.{
  Engine, Flow, TriggerOptions, WaitSignal, stopped, shutting_down, waits, handles, resumed, in_run,
  new_engine, execution_of,
}
use runcor.Engine.Calls.{
  FlowOptions, register, resolve_config, admits_trigger, is_space, continue_trigger, start_trigger,
  start_admitted, trigger_unless, check_trigger, await_policy, create_and_dispatch, mark_replay,
}
use runcor.Engine.Ending.{cancel, cancel_stored}
use runcor.Engine.Step.{
  Event, registers, triggers, continues, checks_input_of, handler_of, cancels, resumes, stores_run,
  stores_resume, step, steps,
}
use runcor.Engine.Stored.{Stored}
use runcor.Engine.Stored.Reachable.{Reachable, started, later, Reachable-Stored}
use runcor.Engine.Bound.Steps.{steps-Bounded, resumptions}
use runcor.Engine.Cancellation.{cancel-leaks, state_of, occupied}
use runcor.Engine.Bound.Resumed.{resume_execution-active}
use runcor.Engine.Ending.{begin_shutdown, force_shutdown, stop_engine}
use runcor.Engine.LateResult.{output_checked-late}
use runcor.Engine.{checks_output, first}
use runcor.Engine.Continuations.{output_checked}
use runcor.Engine.Drained.{force_shutdown-settles, is_settled}
use runcor.Engine.Step.{shuts_down}
use runcor.Engine.Idempotence.{trigger-repeated}

abbrev open_policy : PolicyEngine ℕ (Unit {0})
open_policy = record {
  rules = [];
  guardrails = [];
  rate_limits = [];
  access_policies = [];
  tenants = [];
  rate_limiter = RateLimiter.new;
  events = [];
}

abbrev stringify : ℕ → Text
stringify n = n ∷ []

abbrev idle : Engine ℕ (Unit {0})
idle = new_engine 1 0 open_policy

abbrev defaults : FlowOptions
defaults = record {
  timeout = none;
  max_retries = none;
  base_retry_delay = none;
  max_retry_delay = none;
  wait_timeout = none;
}

abbrev brief : Flow
brief = record { name = codes "brief"; config = resolve_config defaults }

abbrev asking : Text → TriggerOptions ℕ
asking key = record {
  idempotency_key = key;
  input = 7;
  user_id = none;
  tenant_id = none;
  metadata = 0;
  timeout = none;
  wait_timeout = none;
}

abbrev pausing : WaitSignal ℕ
pausing = record { reason = none; expected_resume_by = none; wait_data = 0 }

-- A first execution waits, a second takes its slot, and the first is resumed.
abbrev resuming_run : List (Event ℕ × ℕ)
resuming_run =
    (registers (codes "brief") defaults, 100)
    ∷ (triggers 1 (codes "brief") (asking (codes "a")), 110)
    ∷ (continues 1 (codes "id-1"), 120)
    ∷ (stores_run (codes "id-1"), 121)
    ∷ (checks_input_of (codes "id-1") 0, 122)
    ∷ (handler_of (codes "id-1") (waits pausing) 0, 130)
    ∷ (triggers 2 (codes "brief") (asking (codes "b")), 140)
    ∷ (continues 2 (codes "id-2"), 150)
    ∷ (resumes 3 (codes "id-1") (some 9), 160)
    ∷ (continues 3 (codes "id-3"), 170)
    ∷ (stores_resume (codes "id-1"), 171)
    ∷ []

steps-Bounded_example :
    (steps stringify 0 1 resuming_run idle).active_executions
    ≤ 1 + resumptions stringify 0 1 resuming_run idle
steps-Bounded_example = steps-Bounded stringify 0 1 1 0 open_policy resuming_run

abbrev registered : Engine ℕ (Unit {0})
registered = step stringify 0 1 (registers (codes "brief") defaults) 100 idle

abbrev asked : Engine ℕ (Unit {0})
asked = step stringify 0 1 (triggers 1 (codes "brief") (asking (codes "a"))) 110 registered

abbrev busy : Engine ℕ (Unit {0})
busy = step stringify 0 1 (continues 1 (codes "id-1")) 120 asked

nothing_stored : execution_of (codes "id-1") asked ≡ none
unfolding step register new_engine new_store start_trigger start_admitted admits_trigger is_space
    get_by_idempotency_key evict_expired lookup_id trigger_unless check_trigger await_policy
    resolve_config Dict.get Dict.set Dict.has
nothing_stored = refl

busy-Reachable : Reachable stringify 0 1 busy
busy-Reachable =
    later (continues 1 (codes "id-1")) 120
      (later (triggers 1 (codes "brief") (asking (codes "a"))) 110
        (later (registers (codes "brief") defaults) 100 (started 1 0 open_policy) tt) tt)
      nothing_stored

Reachable-Stored_example : Stored busy.state_store.executions
Reachable-Stored_example = Reachable-Stored stringify 0 1 busy busy-Reachable

abbrev run_now : Execution ℕ
run_now = record (create_execution (codes "id-1") (codes "brief") (codes "a") 7 none 100) {
  state = running;
}

abbrev occupied_engine : Engine ℕ (Unit {0})
occupied_engine = record idle {
  state_store = record idle.state_store { executions = (codes "id-1", run_now) ∷ [] };
  active_executions = 1;
}

cancel-leaks_example :
    let (answer, e') = cancel (codes "id-1") none 150 occupied_engine in
    (answer ≡ ok tt)
    × (state_of (execution_of (codes "id-1") e') ≡ some failed)
    × (occupied e'.state_store.executions + 1
        ≡ occupied (evict_expired 150 occupied_engine.state_store).executions)
    × (e'.active_executions ≡ occupied_engine.active_executions)
    × (e'.tasks ≡ occupied_engine.tasks)
unfolding new_engine new_store evict_expired create_execution Dict.get
cancel-leaks_example = cancel-leaks none 150 run_now occupied_engine refl refl

trigger-repeated_example :
    let (created, e') =
      continue_trigger (proceeds 8) brief (asking (codes "a")) none (codes "id-1") 120 idle in
    let (answer, e'') = start_trigger 2 (codes "other") (asking (codes "a")) none 200 e' in
    (answer ≡ created)
    × (created ≡ ok (execution_of (codes "id-1") e'))
    × (e''.state_store ≡ evict_expired 200 e'.state_store)
    × (e''.pending ≡ idle.pending)
unfolding new_engine new_store admits_trigger is_space Dict.get
trigger-repeated_example =
    trigger-repeated 8 brief (asking (codes "a")) (asking (codes "a")) (codes "id-1") 120 200 2
      (codes "other") idle tt refl refl refl (λ k z p. cc) refl

-- The resumed execution is active beside the one that has its slot.
over_limit : (steps stringify 0 1 resuming_run idle).active_executions ≡ 2
unfolding steps step continued continue_call register new_engine new_store start_trigger
    start_admitted admits_trigger is_space get_by_idempotency_key evict_expired lookup_id
    trigger_unless check_trigger await_policy resolve_config Dict.get Dict.set Dict.has Dict.delete
    continue_trigger create_and_dispatch mark_replay dispatch run_execution started_run
    transition_and_emit transition_execution validate_transition allowed stamp_started persist
    set_execution arm_timeout await_guardrails evaluate_pre_execution limit_step has_any_policies
    access_allows applicable_limits rule_step evaluate_guardrails input_checked input_checked_by
    after_input checked_input handler_returned handler_returned_by after_handler handled
    enter_waiting_state pause_timeout entered_wait dispatch_queued list_executions dispatch_next
    dispatch_found sort_by insert start_resume check_resume get_execution resume_context
    continue_resume resume_fresh resume_execution resumed_run resume_flow resume_within rerun
    resume_stored resume_stored_by resumed_object run_stored run_stored_by begun create_execution
    trigger_context resolve_tenant_id
over_limit = refl

abbrev resting : Execution ℕ
resting = record run_now { state = waiting }

abbrev full : Engine ℕ (Unit {0})
full = record idle {
  state_store = record idle.state_store { executions = (codes "id-1", resting) ∷ [] };
  active_executions = 1;
  flow_handler_map = (codes "id-1", brief) ∷ [];
  execution_timeout_remaining = (codes "id-1", 250) ∷ [];
}

resume_execution-active_example :
    let e1 = resume_execution resting (some 9) 150 full in
    let e2 = resume_stored (codes "id-1") 151 e1 in
    ((e1.active_executions ≡ full.active_executions)
      × (state_of (execution_of (codes "id-1") e1) ≡ some running))
    × (e2.active_executions ≡ full.active_executions + 1)
    × (state_of (execution_of (codes "id-1") e2) ≡ some running)
    × (Dict.get (codes "id-1") e2.tasks ≡ some (in_run brief (handles resumed 7)))
unfolding new_engine create_execution Dict.get
resume_execution-active_example =
    resume_execution-active resting (some 9) brief 150 151 full refl refl (λ h. cc)

abbrev draining : Engine ℕ (Unit {0})
draining = step stringify 0 1 shuts_down 130 busy

draining_ends : draining.status ≡ shutting_down
unfolding step continued continue_call register new_engine new_store start_trigger start_admitted
    admits_trigger is_space get_by_idempotency_key evict_expired lookup_id trigger_unless
    check_trigger await_policy resolve_config Dict.get Dict.set Dict.has Dict.delete
    continue_trigger create_and_dispatch mark_replay dispatch run_execution started_run
    transition_and_emit transition_execution validate_transition allowed persist set_execution
    arm_timeout await_guardrails evaluate_pre_execution limit_step has_any_policies
    applicable_limits rule_step create_execution trigger_context begin_shutdown
draining_ends = refl

draining_waits : draining.drained ≡ false
unfolding step continued continue_call register new_engine new_store start_trigger start_admitted
    admits_trigger is_space get_by_idempotency_key evict_expired lookup_id trigger_unless
    check_trigger await_policy resolve_config Dict.get Dict.set Dict.has Dict.delete
    continue_trigger create_and_dispatch mark_replay dispatch run_execution started_run
    transition_and_emit transition_execution validate_transition allowed persist set_execution
    arm_timeout await_guardrails evaluate_pre_execution limit_step has_any_policies
    applicable_limits rule_step create_execution trigger_context begin_shutdown
draining_waits = refl

force_shutdown-settles_example :
    let e1 = force_shutdown 9000 draining in
    let e2 = stop_engine e1 in
    ((id : Text) (x : Execution ℕ) → execution_of id e1 ≡ some x → is_settled x ≡ true)
    × (e1.status ≡ shutting_down)
    × (e2.status ≡ stopped)
    × (e2.state_store ≡ e1.state_store)
force_shutdown-settles_example =
    force_shutdown-settles 9000 draining
      (Reachable-Stored stringify 0 1 draining (later shuts_down 130 busy-Reachable tt))
      draining_ends draining_waits

-- Two triggers with one key that start before either goes on.
abbrev racing_run : List (Event ℕ × ℕ)
racing_run =
    (registers (codes "brief") defaults, 100)
    ∷ (triggers 1 (codes "brief") (asking (codes "a")), 110)
    ∷ (triggers 2 (codes "brief") (asking (codes "a")), 110)
    ∷ (continues 1 (codes "id-1"), 120)
    ∷ (continues 2 (codes "id-2"), 121)
    ∷ []

created_twice :
    Dict.keys (steps stringify 0 1 racing_run idle).state_store.executions
    ≡ codes "id-1" ∷ codes "id-2" ∷ []
unfolding steps step continued continue_call register new_engine new_store start_trigger
    start_admitted admits_trigger is_space get_by_idempotency_key evict_expired lookup_id
    trigger_unless check_trigger await_policy resolve_config Dict.get Dict.set Dict.has Dict.delete
    continue_trigger create_and_dispatch mark_replay dispatch run_execution started_run
    transition_and_emit transition_execution validate_transition allowed stamp_started persist
    set_execution arm_timeout await_guardrails evaluate_pre_execution limit_step has_any_policies
    access_allows applicable_limits rule_step evaluate_guardrails input_checked input_checked_by
    after_input checked_input handler_returned handler_returned_by after_handler handled
    enter_waiting_state pause_timeout entered_wait dispatch_queued list_executions dispatch_next
    dispatch_found sort_by insert start_resume check_resume get_execution resume_context
    continue_resume resume_fresh resume_execution resumed_run resume_flow resume_within rerun
    resume_stored resume_stored_by resumed_object run_stored run_stored_by begun create_execution
    trigger_context resolve_tenant_id
created_twice = refl

abbrev timed_out : Execution ℕ
timed_out = record run_now { state = failed }

abbrev checking : Engine ℕ (Unit {0})
checking = record idle {
  state_store = record idle.state_store { executions = (codes "id-1", timed_out) ∷ [] };
  tasks = (codes "id-1", in_run brief (checks_output first (ok 8))) ∷ [];
}

output_checked-late_example :
    let e' = output_checked (codes "id-1") 900 0 checking in
    (execution_of (codes "id-1") e' ≡ some (record timed_out { result = some 8 }))
    × (e'.active_executions ≡ checking.active_executions)
unfolding new_engine create_execution Dict.get
output_checked-late_example =
    output_checked-late timed_out brief first 8 900 0 checking refl refl refl

-- An execution that is cancelled while the store writes that it is running.
abbrev cancelled_run : List (Event ℕ × ℕ)
cancelled_run =
    (registers (codes "brief") defaults, 100)
    ∷ (triggers 1 (codes "brief") (asking (codes "a")), 110)
    ∷ (continues 1 (codes "id-1"), 120)
    ∷ (cancels (codes "id-1") none, 121)
    ∷ (stores_run (codes "id-1"), 122)
    ∷ []

-- It has failed, and its timeout is set.
timeout_of_cancelled :
    let e = steps stringify 0 1 cancelled_run idle in
    (state_of (execution_of (codes "id-1") e) ≡ some failed)
    × (Dict.has (codes "id-1") e.timeout_timers ≡ true)
unfolding steps step continued continue_call register new_engine new_store start_trigger
    start_admitted admits_trigger is_space get_by_idempotency_key evict_expired lookup_id
    trigger_unless check_trigger await_policy resolve_config Dict.get Dict.set Dict.has Dict.delete
    continue_trigger create_and_dispatch mark_replay dispatch run_execution started_run
    transition_and_emit transition_execution validate_transition allowed stamp_started persist
    set_execution arm_timeout await_guardrails evaluate_pre_execution limit_step has_any_policies
    access_allows applicable_limits rule_step evaluate_guardrails run_stored run_stored_by begun
    create_execution trigger_context resolve_tenant_id get_execution cancel cancel_stored
    clear_timers fail_execution emit_failed finalize_spans
timeout_of_cancelled = (refl, refl)
