-- ===== src/Engine.antt =====
-- engine.ts: `Runcor`, the engine: its state, and what an execution's asynchronous function waits for.
-- The modules below it hold the methods. Texts of error messages stand for their fixed part.
pub mod Moves
pub mod Tasks
pub mod Continuations
pub mod Calls
pub mod Resume
pub mod Ending
pub mod Step
pub mod Stored
pub mod Cancellation
pub mod Bound
pub mod Idempotence
pub mod Drained
pub mod LateResult
mod Examples
use runcor.Common.{ℕ, Text, Option, none, some, List, [], ◌∷◌, ◌++◌, Bool, true, false, text_eq}
use runcor.Common.Dict
use runcor.Common.Dict.{Dict}
use runcor.Errors.{Result, ErrorCode}
use runcor.Execution.{State, Execution, failed}
use runcor.StateStore.{StateStore, new_store}
use runcor.Policy.Context.{PolicyContext}
use runcor.Policy.Engine.{PolicyEngine, PreExecution}

pub data Status : Type 0 where
  initializing ready shutting_down stopped : Status

-- `ResolvedFlowConfig`; a time of zero means that there is no limit.
pub record FlowConfig : Type 0 where
  pub timeout : ℕ
  pub max_retries : ℕ
  pub base_retry_delay : ℕ
  pub max_retry_delay : ℕ
  pub wait_timeout : ℕ

-- Less what costs, objectives and the server read. What the calls of the handler come to is given
-- with the events.
pub record Flow : Type 0 where
  pub name : Text
  pub config : FlowConfig

-- `input` and `metadata` have their defaults filled in; `sessionId` is only handed to the handler.
pub record TriggerOptions (V : Type 0) : Type 0 where
  pub idempotency_key : Text
  pub input : V
  pub user_id : Option Text
  pub tenant_id : Option Text
  pub metadata : V
  pub timeout : Option ℕ
  pub wait_timeout : Option ℕ

pub record WaitSignal (V : Type 0) : Type 0 where
  pub reason : Option Text
  pub expected_resume_by : Option ℕ
  pub wait_data : V

-- What a call of a flow's handler comes to. An error is retryable if it is a `RetryableError`.
pub data HandlerOutcome (V : Type 0) : Type 0 where
  returns : V → HandlerOutcome V
  waits : WaitSignal V → HandlerOutcome V
  raises : (retryable : Bool) → (message : Text) → HandlerOutcome V

-- The three places that call a handler: `runExecution`, the retry timer and `resume`.
pub data Attempt : Type 0 where
  first retried resumed : Attempt

-- What the function that runs an execution waits for: the store, which writes that it is running,
-- with the time that the run may take; the guardrails, which will let through what they hold or
-- throw; or the handler, with the input that it has been given.
pub data Phase (V : Type 0) : Type 0 where
  begins : Execution V → (timeout : ℕ) → Phase V
  checks_input : Result ErrorCode V → Phase V
  handles : Attempt → V → Phase V
  checks_output : Attempt → Result ErrorCode V → Phase V

-- A run of a flow, or a call of `resume` that waits for the store to write that the execution is
-- running again.
pub data Task (V : Type 0) : Type 0 where
  in_run : Flow → Phase V → Task V
  in_resume : Execution V → Task V

pub record Timer : Type 0 where
  pub due : ℕ
  pub flow : Flow

-- A call of `trigger`, also by `replay`, of `resume` or of `replay`.
pub data WaitingCall (V : Type 0) : Type 0 where
  triggering : Flow → TriggerOptions V → (replay_of : Option Text) → WaitingCall V
  resuming : (id : Text) → Option V → WaitingCall V
  replaying : Execution V → Option (TriggerOptions V) → WaitingCall V

-- A call that awaits its policy check, and what has come of the check so far.
pub record Pending (V : Type 0) : Type 0 where
  pub call : WaitingCall V
  pub context : PolicyContext V
  pub pre : PreExecution V

pub data EngineEvent : Type 0 where
  state_change : (id : Text) → (from to : State) → EngineEvent
  completed : (id : Text) → State → EngineEvent
  flow_registered flow_unregistered : (name : Text) → EngineEvent
  shut_down : EngineEvent

pub record Engine (V C : Type 0) : Type 0 where
  pub status : Status
  pub flow_registry : Dict Text Flow
  pub state_store : StateStore V
  pub policy_engine : PolicyEngine V C
  pub concurrency : ℕ
  pub active_executions : ℕ
  pub retry_timers : Dict Text Timer
  pub timeout_timers : Dict Text Timer
  pub wait_timeout_timers : Dict Text Timer
  -- Zero stands for the values below it, too.
  pub execution_timeout_remaining : Dict Text ℕ
  pub flow_handler_map : Dict Text Flow
  pub trigger_options_map : Dict Text (TriggerOptions V)
  -- `executionSpans`, by the `startTime` of the entries.
  pub start_times : Dict Text ℕ
  pub tasks : Dict Text (Task V)
  pub pending : Dict ℕ (Pending V)
  -- `shutdown` waits for the executions no longer.
  pub drained : Bool
  pub events : List EngineEvent

-- The object that a suspended function holds: what the store has under its id, or, once it is gone
-- from there, an execution that has ended.
abbrev pub object_of : {V : Type 0} → Option (Execution V) → Execution V → Execution V
object_of none held = record held { state = failed }
object_of (some x) held = x

module _ {V C : Type 0} where
  abbrev pub emit : EngineEvent → Engine V C → Engine V C
  emit event e = record e { events = e.events ++ event ∷ [] }

  abbrev pub execution_of : Text → Engine V C → Option (Execution V)
  execution_of id e = Dict.get id e.state_store.executions

  -- An engine behind its constructor.
  unfoldable pub new_engine : ℕ → ℕ → PolicyEngine V C → Engine V C
  new_engine concurrency retention_period policy = record {
    status = ready;
    flow_registry = [];
    state_store = new_store retention_period;
    policy_engine = policy;
    concurrency = concurrency;
    active_executions = 0;
    retry_timers = [];
    timeout_timers = [];
    wait_timeout_timers = [];
    execution_timeout_remaining = [];
    flow_handler_map = [];
    trigger_options_map = [];
    start_times = [];
    tasks = [];
    pending = [];
    drained = false;
    events = [];
  }
