-- ===== src/Engine/Resume.antt =====
-- engine.ts: `resume`, `replay` and `listWaiting`. `null` and `empty` are the values `null` and `{}`;
-- `stringify` is `JSON.stringify`. Resuming without data is resuming with none.
use runcor.Common.{
  ℕ, nat_eq, ◌+◌, ◌-◌, Text, codes, text_beq, Option, none, some, Bool, false, if◌then◌else◌,
  nat_beq, text_eq, ◌&&◌, ◌||◌,
}
use runcor.Common.Dict
use runcor.Common.Dict.{Dict}
use runcor.Errors.{Result, ok, err, ErrorCode, execution_not_found, invalid_state, flow_not_found}
use runcor.Execution.{Execution, running, waiting, is_terminal, is_running}
use runcor.StateStore.{state_beq, get_execution}
use runcor.Policy.Context.{PolicyContext, resume, replay}
use runcor.Policy.AccessControl.{resolve_tenant_id}
use runcor.Policy.Engine.{PreExecution, proceeds, throws, waits}
use runcor.Engine.{
  Engine, Flow, TriggerOptions, resuming, replaying, handles, resumed, Task, in_run, in_resume,
  execution_of, object_of,
}
use runcor.Engine.Moves.{transition_and_emit, persist, fail_execution}
use runcor.Engine.Tasks.{
  with_task, without_task, arm_timeout, on_execution_terminal, user_of, tenant_of,
}
use runcor.Engine.Calls.{await_policy, with_store, start_trigger}

metadata_of : {V : Type 0} → V → Option (TriggerOptions V) → V
metadata_of empty none = empty
metadata_of empty (some o) = o.metadata

value_or : {V : Type 0} → V → Option V → V
value_or null none = null
value_or null (some v) = v

-- `JSON.stringify(resumeData) === JSON.stringify(execution.resumeData)`, whose second value is null
-- where the first would be undefined.
unfoldable pub same_data : {V : Type 0} → (V → Text) → Option V → Option V → Bool
same_data stringify none stored = false
same_data stringify (some v) none = text_beq (stringify v) (codes "null")
same_data stringify (some v) (some w) = text_beq (stringify v) (stringify w)

unfoldable pub resume_context :
    {V : Type 0} → V → V → Execution V → Option V → Option (TriggerOptions V) → PolicyContext V
unfolding metadata_of value_or
resume_context null empty x resume_data o = record {
  operation = resume;
  flow_name = x.flow_name;
  user_id = user_of o;
  tenant_id = resolve_tenant_id (tenant_of o) (user_of o);
  input = value_or null resume_data;
  execution_id = some x.id;
  metadata = metadata_of empty o;
}

unfoldable pub replay_context :
    {V : Type 0} → V → Execution V → Option (TriggerOptions V) → PolicyContext V
unfolding metadata_of
replay_context empty x o = record {
  operation = replay;
  flow_name = x.flow_name;
  user_id = user_of o;
  tenant_id = resolve_tenant_id (tenant_of o) (user_of o);
  input = x.input;
  execution_id = some x.id;
  metadata = metadata_of empty o;
}

-- The options that `replay` triggers with.
unfoldable pub replay_options :
    {V : Type 0} → V → Text → Execution V → Option (TriggerOptions V) → TriggerOptions V
unfolding metadata_of
replay_options empty key x o = record {
  idempotency_key = key;
  input = x.input;
  user_id = user_of o;
  tenant_id = tenant_of o;
  metadata = metadata_of empty o;
  timeout = none;
  wait_timeout = none;
}

-- What `resume` answers for an execution that is not waiting.
unfoldable pub already_resumed :
    {V : Type 0} → (V → Text) → Option V → Execution V → Result ErrorCode (Option (Execution V))
already_resumed stringify resume_data x =
    if (is_running x.state || is_terminal x.state) && same_data stringify resume_data x.resume_data
    then ok (some x)
    else err invalid_state

module _ {V C : Type 0} (stringify : V → Text) (null empty : V) where
  unfoldable pub check_resume :
      Option (Execution V)
      → ℕ
      → Text
      → Option V
      → ℕ
      → Engine V C
      → Result ErrorCode (Option (Execution V)) × Engine V C
  check_resume none call id resume_data now e = (err execution_not_found, e)
  check_resume (some x) call id resume_data now e =
      let o = Dict.get id e.trigger_options_map in
      if state_beq x.state waiting
      then (
        ok none,
        await_policy call (resuming id resume_data) (resume_context null empty x resume_data o) now
            e,
      )
      else (already_resumed stringify resume_data x, e)

  -- `resume` up to its wait for the policy engine.
  unfoldable pub start_resume :
      ℕ → Text → Option V → ℕ → Engine V C → Result ErrorCode (Option (Execution V)) × Engine V C
  unfolding check_resume
  start_resume call id resume_data now e =
      let (x, st) = get_execution id now e.state_store in
      check_resume x call id resume_data now (with_store st e)

module _ {V C : Type 0} where
  unfoldable pub rerun : Execution V → Flow → Engine V C → Engine V C
  rerun x flow e =
      with_task x.id (in_run flow (handles resumed x.input))
        (record e { execution_timeout_remaining = Dict.delete x.id e.execution_timeout_remaining })

  -- The rest of `resume` by what remains of the execution's time.
  unfoldable pub resume_within : Option ℕ → Execution V → Flow → ℕ → Engine V C → Engine V C
  unfolding rerun
  resume_within none x flow now e = rerun x flow e
  resume_within (some remaining) x flow now e =
      if nat_beq remaining 0
      then on_execution_terminal x.id now
          (fail_execution x (codes "Execution timed out") (some (codes "TIMEOUT")) false now e)
      else rerun x flow (arm_timeout x.id flow remaining now e)

  -- By the entry of `flowHandlerMap`, and by that of the registry.
  unfoldable pub resume_flow : Option Flow → Option Flow → Execution V → ℕ → Engine V C → Engine V C
  resume_flow (some flow) registered x now e =
      resume_within (Dict.get x.id e.execution_timeout_remaining) x flow now e
  resume_flow none (some flow) x now e =
      resume_within (Dict.get x.id e.execution_timeout_remaining) x flow now
        (record e { flow_handler_map = Dict.set x.id flow e.flow_handler_map })
  resume_flow none none x now e =
      let failed =
        fail_execution x (codes "Flow not found for resume") (some (codes "FLOW_NOT_FOUND")) false
          now e in
      record failed { active_executions = failed.active_executions - 1 }

  unfoldable pub resumed_run : Result ErrorCode (Execution V × Engine V C) → Engine V C → Engine V C
  unfolding persist
  resumed_run (ok (x, e')) e = with_task x.id (in_resume x) (persist x e')
  resumed_run (err code) e = e

  -- A waiting execution is running again, and `resume` waits for the store to write it.
  unfoldable pub resume_execution : Execution V → Option V → ℕ → Engine V C → Engine V C
  unfolding resumed_run transition_and_emit
  resume_execution x resume_data now e =
      let e' = record e { wait_timeout_timers = Dict.delete x.id e.wait_timeout_timers } in
      let x' = record x { resume_data = resume_data; wait_context = none } in
      resumed_run (transition_and_emit x' running now e') e'

  unfoldable pub resumed_object : Execution V → ℕ → Engine V C → Engine V C
  unfolding resume_flow
  resumed_object x now e =
      resume_flow (Dict.get x.id e.flow_handler_map) (Dict.get x.flow_name e.flow_registry) x now
        (record e { active_executions = e.active_executions + 1 })

  unfoldable pub resume_stored_by :
      Option (Task V) → Option (Execution V) → Text → ℕ → Engine V C → Engine V C
  unfolding resumed_object
  resume_stored_by (some (in_resume held)) stored id now e =
      resumed_object (object_of stored held) now (without_task id e)
  resume_stored_by _ stored id now e = e

  -- The rest of `resume` after the write. Neither the limit on concurrency nor the state of the
  -- execution is looked at.
  unfoldable pub resume_stored : Text → ℕ → Engine V C → Engine V C
  unfolding resume_stored_by
  resume_stored id now e = resume_stored_by (Dict.get id e.tasks) (execution_of id e) id now e

module _ {V C : Type 0} (stringify : V → Text) where
  -- The answer is the object, which `resume` returns after its rest, `resume_stored`.
  unfoldable pub resume_fresh :
      Option (Execution V)
      → Text
      → Option V
      → ℕ
      → Engine V C
      → Result ErrorCode (Option (Execution V)) × Engine V C
  resume_fresh none id resume_data now e = (err invalid_state, e)
  resume_fresh (some x) id resume_data now e =
      if state_beq x.state waiting
      then (let e' = resume_execution x resume_data now e in (ok (execution_of id e'), e'))
      else (already_resumed stringify resume_data x, e)

  -- `resume` after the policy engine, which reads the execution again.
  unfoldable pub continue_resume :
      PreExecution V
      → Text
      → Option V
      → ℕ
      → Engine V C
      → Result ErrorCode (Option (Execution V)) × Engine V C
  unfolding resume_fresh
  continue_resume (proceeds v) id resume_data now e =
      let (x, st) = get_execution id now e.state_store in
      resume_fresh x id resume_data now (with_store st e)
  continue_resume (throws code) id resume_data now e = (err code, e)
  continue_resume (waits ticket) id resume_data now e = (ok none, e)

module _ {V C : Type 0} (empty : V) where
  unfoldable pub check_replay :
      Option Flow
      → Execution V
      → ℕ
      → ℕ
      → Engine V C
      → Result ErrorCode (Option (Execution V)) × Engine V C
  check_replay none x call now e = (err flow_not_found, e)
  check_replay (some flow) x call now e =
      let o = Dict.get x.id e.trigger_options_map in
      (ok none, await_policy call (replaying x o) (replay_context empty x o) now e)

  unfoldable pub replay_stored :
      Option (Execution V)
      → ℕ
      → ℕ
      → Engine V C
      → Result ErrorCode (Option (Execution V)) × Engine V C
  unfolding check_replay
  replay_stored none call now e = (err execution_not_found, e)
  replay_stored (some x) call now e =
      if is_terminal x.state
      then check_replay (Dict.get x.flow_name e.flow_registry) x call now e
      else (err invalid_state, e)

  -- `replay` up to its wait for the policy engine.
  unfoldable pub start_replay :
      ℕ → Text → ℕ → Engine V C → Result ErrorCode (Option (Execution V)) × Engine V C
  unfolding replay_stored
  start_replay call id now e =
      let (x, st) = get_execution id now e.state_store in replay_stored x call now (with_store st e)

  -- The rest of `replay` is a `trigger` with a fresh key, which consults the policy engine again.
  unfoldable pub continue_replay :
      PreExecution V
      → ℕ
      → Execution V
      → Option (TriggerOptions V)
      → Text
      → ℕ
      → Engine V C
      → Result ErrorCode (Option (Execution V)) × Engine V C
  continue_replay (proceeds v) call x o key now e =
      start_trigger call x.flow_name (replay_options empty key x o) (some x.id) now e
  continue_replay (throws code) call x o key now e = (err code, e)
  continue_replay (waits ticket) call x o key now e = (ok none, e)
