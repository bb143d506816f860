-- ===== src/Engine/Calls.antt =====
-- engine.ts: `register`, `unregister` and `trigger`. A call that awaits the policy engine is two
-- functions, of which the first leaves a `Pending` entry for the second.
use runcor.Common.{
  ℕ, nat_eq, Text, Option, none, some, Bool, true, false, if◌then◌else◌, leb, not, text_eq, ◌&&◌,
  ◌||◌, nat_beq, any,
}
use runcor.Common.Dict
use runcor.Common.Dict.{Dict}
use runcor.Errors.{
  Result, ok, err, ErrorCode, engine_shutting_down, engine_not_ready, missing_idempotency_key,
  flow_not_found, duplicate_flow,
}
use runcor.Execution.{Execution, create_execution}
use runcor.StateStore.{StateStore, get_by_idempotency_key}
use runcor.Policy.Context.{PolicyContext, trigger}
use runcor.Policy.AccessControl.{resolve_tenant_id}
use runcor.Policy.Engine.{PreExecution, proceeds, throws, waits, evaluate_pre_execution}
use runcor.Engine.{
  Engine, Status, initializing, ready, shutting_down, stopped, Flow, FlowConfig, TriggerOptions,
  WaitingCall, triggering, emit, flow_registered, flow_unregistered, execution_of,
}
use runcor.Engine.Moves.{persist}
use runcor.Engine.Tasks.{dispatch, number_or}

-- `FlowConfig` as `register` takes it.
pub record FlowOptions : Type 0 where
  pub timeout : Option ℕ
  pub max_retries : Option ℕ
  pub base_retry_delay : Option ℕ
  pub max_retry_delay : Option ℕ
  pub wait_timeout : Option ℕ

-- With `DEFAULTS`.
unfoldable pub resolve_config : FlowOptions → FlowConfig
resolve_config o = record {
  timeout = number_or o.timeout 30000;
  max_retries = number_or o.max_retries 3;
  base_retry_delay = number_or o.base_retry_delay 1000;
  max_retry_delay = number_or o.max_retry_delay 30000;
  wait_timeout = number_or o.wait_timeout 0;
}

-- The code units that `trim` takes away.
unfoldable pub is_space : ℕ → Bool
is_space c =
    (leb 9 c && leb c 13)
    || nat_beq c 32
    || nat_beq c 160
    || nat_beq c 5760
    || (leb 8192 c && leb c 8202)
    || nat_beq c 8232
    || nat_beq c 8233
    || nat_beq c 8239
    || nat_beq c 8287
    || nat_beq c 12288
    || nat_beq c 65279

abbrev pub is_blank : Text → Bool
is_blank t = not (any (λ c. not (is_space c)) t)

-- The guards of `trigger` before its first read.
unfoldable pub admits_trigger : Status → Text → Option ErrorCode
admits_trigger shutting_down key = some engine_shutting_down
admits_trigger stopped key = some engine_shutting_down
admits_trigger initializing key = some engine_not_ready
admits_trigger ready key = if is_blank key then some missing_idempotency_key else none

abbrev pub is_ready : Status → Bool
is_ready ready = true
is_ready _ = false

unfoldable pub trigger_context : {V : Type 0} → Text → TriggerOptions V → PolicyContext V
trigger_context flow_name o = record {
  operation = trigger;
  flow_name = flow_name;
  user_id = o.user_id;
  tenant_id = resolve_tenant_id o.tenant_id o.user_id;
  input = o.input;
  execution_id = none;
  metadata = o.metadata;
}

module _ {V C : Type 0} where
  -- `register`, for an engine without objectives and a flow without a schedule.
  unfoldable pub register :
      Text → FlowOptions → Engine V C → Result ErrorCode (Unit {0}) × Engine V C
  register name options e =
      let flow : Flow = record { name = name; config = resolve_config options } in
      if not (is_ready e.status)
      then (err engine_not_ready, e)
      else if Dict.has name e.flow_registry
      then (err duplicate_flow, e)
      else (
        ok tt,
        emit (flow_registered name)
            (record e { flow_registry = Dict.set name flow e.flow_registry }),
      )

  -- `unregister`, for the same engine.
  unfoldable pub unregister : Text → Engine V C → Result ErrorCode (Unit {0}) × Engine V C
  unregister name e =
      if not (is_ready e.status)
      then (err engine_not_ready, e)
      else if not (Dict.has name e.flow_registry)
      then (err flow_not_found, e)
      else (
        ok tt,
        emit (flow_unregistered name)
            (record e { flow_registry = Dict.delete name e.flow_registry }),
      )

  -- A call awaits the policy check of its context.
  unfoldable pub await_policy : ℕ → WaitingCall V → PolicyContext V → ℕ → Engine V C → Engine V C
  await_policy number call context now e =
      let (pre, policy) = evaluate_pre_execution context false now e.policy_engine in
      record e {
        pending = Dict.set number (record { call = call; context = context; pre = pre }) e.pending;
        policy_engine = policy;
      }

  abbrev pub with_store : StateStore V → Engine V C → Engine V C
  with_store st e = record e { state_store = st }

  unfoldable pub check_trigger :
      Option Flow
      → ℕ
      → TriggerOptions V
      → Option Text
      → ℕ
      → Engine V C
      → Result ErrorCode (Option (Execution V)) × Engine V C
  check_trigger none call o replay_of now e = (err flow_not_found, e)
  check_trigger (some flow) call o replay_of now e =
      (ok none, await_policy call (triggering flow o replay_of) (trigger_context flow.name o) now e)

  -- `newExecution.replayOf = executionId`, in a `replay`.
  unfoldable pub mark_replay :
      Option Text
      → Option (Execution V)
      → Engine V C
      → Result ErrorCode (Option (Execution V)) × Engine V C
  mark_replay (some id) (some x) e =
      let x' = record x { replay_of = some id } in (ok (some x'), persist x' e)
  mark_replay _ o e = (ok o, e)

  unfoldable pub trigger_unless :
      Option (Execution V)
      → ℕ
      → Text
      → TriggerOptions V
      → Option Text
      → ℕ
      → Engine V C
      → Result ErrorCode (Option (Execution V)) × Engine V C
  trigger_unless (some x) call flow_name o replay_of now e = mark_replay replay_of (some x) e
  trigger_unless none call flow_name o replay_of now e =
      check_trigger (Dict.get flow_name e.flow_registry) call o replay_of now e

  unfoldable pub start_admitted :
      Option ErrorCode
      → ℕ
      → Text
      → TriggerOptions V
      → Option Text
      → ℕ
      → Engine V C
      → Result ErrorCode (Option (Execution V)) × Engine V C
  start_admitted (some code) call flow_name o replay_of now e = (err code, e)
  start_admitted none call flow_name o replay_of now e =
      let (existing, st) = get_by_idempotency_key o.idempotency_key now e.state_store in
      trigger_unless existing call flow_name o replay_of now (with_store st e)

  -- `trigger` up to its wait for the policy engine. It gives the execution it returns, none while it
  -- waits. `call` tells apart the calls that wait; `replay_of` is given if `replay` is the caller.
  unfoldable pub start_trigger :
      ℕ
      → Text
      → TriggerOptions V
      → Option Text
      → ℕ
      → Engine V C
      → Result ErrorCode (Option (Execution V)) × Engine V C
  unfolding start_admitted
  start_trigger call flow_name o replay_of now e =
      start_admitted (admits_trigger e.status o.idempotency_key) call flow_name o replay_of now e

  -- `trigger` after the policy engine has let it pass with an input. A flow's name is the key that
  -- it is registered under.
  unfoldable pub create_and_dispatch :
      V → Flow → TriggerOptions V → Text → ℕ → Engine V C → Engine V C
  create_and_dispatch v flow o uuid now e =
      let x = create_execution uuid flow.name o.idempotency_key v o.user_id now in
      dispatch x flow o.timeout now (
        persist x (record e {
          trigger_options_map = Dict.set uuid o e.trigger_options_map;
          start_times = Dict.set uuid now e.start_times;
        }))

  unfoldable pub continue_trigger :
      PreExecution V
      → Flow
      → TriggerOptions V
      → Option Text
      → Text
      → ℕ
      → Engine V C
      → Result ErrorCode (Option (Execution V)) × Engine V C
  continue_trigger (proceeds v) flow o replay_of uuid now e =
      let e' = create_and_dispatch v flow o uuid now e in
      mark_replay replay_of (execution_of uuid e') e'
  continue_trigger (throws code) flow o replay_of uuid now e = (err code, e)
  continue_trigger (waits ticket) flow o replay_of uuid now e = (ok none, e)
