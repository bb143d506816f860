-- ===== src/Execution.antt =====
-- execution.ts: the record of one invocation of a flow and its state machine. A `Date` is the
-- number of milliseconds that the clock showed; `unknown` is the parameter `V`.
pub mod Lifecycle
pub mod Log
mod Examples
use runcor.Common.{
  ℕ, Text, Option, none, some, List, [], ◌∷◌, ◌++◌, Bool, true, false, if◌then◌else◌,
}
use runcor.Errors.{Result, ok, err, ErrorCode, invalid_transition, ◌>>=◌}

pub data State : Type 0 where
  queued running waiting retrying complete failed : State

pub record Transition : Type 0 where
  pub from : State
  pub to : State
  pub at : ℕ

pub record Timestamps : Type 0 where
  pub queued_at : ℕ
  pub started : Option ℕ
  pub completed : Option ℕ
  pub transitions : List Transition

pub record WaitContext (V : Type 0) : Type 0 where
  pub reason : Option Text
  pub expected_resume_by : Option ℕ
  pub wait_data : V
  pub waiting_since : ℕ

pub record ExecutionError : Type 0 where
  pub message : Text
  pub stack : Option Text
  pub retryable : Bool
  pub retries : ℕ
  pub code : Option Text

pub record Execution (V : Type 0) : Type 0 where
  pub id : Text
  pub flow_name : Text
  pub idempotency_key : Text
  pub state : State
  pub input : V
  pub result : Option V
  pub error : Option ExecutionError
  pub retry_count : ℕ
  pub timestamps : Timestamps
  pub wait_context : Option (WaitContext V)
  pub resume_data : Option V
  pub replay_of : Option Text
  pub user_id : Option Text

-- `VALID_TRANSITIONS.get(from).has(to)`.
unfoldable pub allowed : State → State → Bool
allowed queued running = true
allowed queued failed = true
allowed running complete = true
allowed running waiting = true
allowed running retrying = true
allowed running failed = true
allowed waiting running = true
allowed waiting failed = true
allowed retrying running = true
allowed retrying failed = true
allowed _ _ = false

unfoldable pub validate_transition : State → State → Result ErrorCode (Unit {0})
unfolding allowed
validate_transition from to = if allowed from to then ok tt else err invalid_transition

abbrev pub is_running : State → Bool
is_running running = true
is_running _ = false

abbrev pub is_terminal : State → Bool
is_terminal complete = true
is_terminal failed = true
is_terminal _ = false

-- `if (newState === 'running' && started === null) started = now`.
unfoldable pub stamp_started : State → Option ℕ → ℕ → Option ℕ
stamp_started running none now = some now
stamp_started _ started now = started

module _ {V : Type 0} where
  -- The identifier is the caller's `crypto.randomUUID()`.
  unfoldable pub create_execution : Text → Text → Text → V → Option Text → ℕ → Execution V
  create_execution uuid flow_name idempotency_key input user_id now = record {
    id = uuid;
    flow_name = flow_name;
    idempotency_key = idempotency_key;
    state = queued;
    input = input;
    result = none;
    error = none;
    retry_count = 0;
    timestamps = record { queued_at = now; started = none; completed = none; transitions = [] };
    wait_context = none;
    resume_data = none;
    replay_of = none;
    user_id = user_id;
  }

  unfoldable pub transition_execution : Execution V → State → ℕ → Result ErrorCode (Execution V)
  unfolding validate_transition stamp_started
  transition_execution e new_state now = do
    _ ← validate_transition e.state new_state
    ok (record e {
      state = new_state;
      timestamps = record times {
        transitions = times.transitions ++ record { from = e.state; to = new_state; at = now } ∷ [];
        started = stamp_started new_state times.started now;
        completed = if is_terminal new_state then some now else times.completed;
      };
    })
    where
      times : Timestamps
      times = e.timestamps
