-- ===== src/Engine/Step.antt =====
-- engine.ts: what can happen to an engine, one thing at a time: a call, the continuation of a call
-- or of an execution's function, or a timer. An `Event` says what comes from outside with it, such
-- as the outcome of a handler, a new identifier, or the settlement of a wait for a rate limit.
use runcor.Common.{ℕ, nat_eq, Text, Option, none, some, List, [], ◌∷◌}
use runcor.Common.Dict
use runcor.Policy.RateLimiter.{Settlement}
use runcor.Policy.Engine.{PreExecution, waits, after_wait}
use runcor.Engine.{
  Engine, HandlerOutcome, TriggerOptions, Pending, WaitingCall, triggering, resuming, replaying,
}
use runcor.Engine.Continuations.{
  run_stored, input_checked, handler_returned, output_checked, retry_fires, timeout_fires,
  wait_timeout_fires,
}
use runcor.Engine.Calls.{FlowOptions, register, unregister, start_trigger, continue_trigger}
use runcor.Engine.Resume.{
  start_resume, continue_resume, resume_stored, start_replay, continue_replay,
}
use runcor.Engine.Ending.{
  cancel, delete_execution, begin_shutdown, finish_shutdown, force_shutdown, stop_engine,
  list_waiting,
}

pub data Event (V : Type 0) : Type 0 where
  registers : (name : Text) → FlowOptions → Event V
  unregisters : (name : Text) → Event V
  triggers : (call : ℕ) (flow_name : Text) → TriggerOptions V → Event V
  resumes : (call : ℕ) (id : Text) → Option V → Event V
  replays : (call : ℕ) (id : Text) → Event V
  -- A wait for a rate limit ends.
  settles : (call : ℕ) → Settlement → Event V
  -- A call goes on; `fresh` is what `crypto.randomUUID()` gives it.
  continues : (call : ℕ) (fresh : Text) → Event V
  cancels : (id : Text) (reason : Option Text) → Event V
  deletes : (id : Text) → Event V
  lists_waiting : (flow_name user_id tenant_id : Option Text) (metadata : V) → Event V
  -- The store has written that an execution runs, for `runExecution` and for `resume`.
  stores_run stores_resume : (id : Text) → Event V
  checks_input_of : (id : Text) (jitter : ℕ) → Event V
  handler_of : (id : Text) → HandlerOutcome V → (jitter : ℕ) → Event V
  checks_output_of : (id : Text) (jitter : ℕ) → Event V
  retries : (id : Text) → Event V
  times_out : (id : Text) → Event V
  wait_times_out : (id : Text) → Event V
  shuts_down : Event V
  drains : Event V
  drain_times_out : Event V
  stops : Event V

module _ {V C : Type 0} where
  unfoldable pub settled : Option (Pending V) → ℕ → Settlement → ℕ → Engine V C → Engine V C
  settled none call settlement now e = e
  settled (some p) call settlement now e = elim p.pre [
    | waits ticket ↦
        let (pre, policy) = after_wait settlement p.context now e.policy_engine in
        record e {
          pending = Dict.set call (record p { pre = pre }) e.pending;
          policy_engine = policy;
        }
    | _ ↦ e
  ]

module _ {V C : Type 0} (stringify : V → Text) (null empty : V) where
  unfoldable pub continue_call :
      WaitingCall V → PreExecution V → ℕ → Text → ℕ → Engine V C → Engine V C
  continue_call (triggering flow o replay_of) pre call fresh now e =
      (continue_trigger pre flow o replay_of fresh now e).1
  continue_call (resuming id resume_data) pre call fresh now e =
      (continue_resume stringify pre id resume_data now e).1
  continue_call (replaying x o) pre call fresh now e =
      (continue_replay empty pre call x o fresh now e).1

  unfoldable pub continued : Option (Pending V) → ℕ → Text → ℕ → Engine V C → Engine V C
  unfolding continue_call
  continued none call fresh now e = e
  continued (some p) call fresh now e = elim p.pre [
    | waits ticket ↦ e
    | pre ↦
        continue_call p.call pre call fresh now (record e { pending = Dict.delete call e.pending })
  ]

  unfoldable pub step : Event V → ℕ → Engine V C → Engine V C
  unfolding continued settled
  step (registers name options) now e = (register name options e).1
  step (unregisters name) now e = (unregister name e).1
  step (triggers call flow_name o) now e = (start_trigger call flow_name o none now e).1
  step (resumes call id resume_data) now e =
      (start_resume stringify null empty call id resume_data now e).1
  step (replays call id) now e = (start_replay empty call id now e).1
  step (settles call settlement) now e = settled (Dict.get call e.pending) call settlement now e
  step (continues call fresh) now e = continued (Dict.get call e.pending) call fresh now e
  step (cancels id reason) now e = (cancel id reason now e).1
  step (deletes id) now e = (delete_execution id now e).1
  step (lists_waiting flow_name user_id tenant_id metadata) now e =
      (list_waiting flow_name user_id tenant_id null metadata now e).1
  step (stores_run id) now e = run_stored id now e
  step (stores_resume id) now e = resume_stored id now e
  step (checks_input_of id jitter) now e = input_checked id now jitter e
  step (handler_of id outcome jitter) now e = handler_returned id outcome now jitter e
  step (checks_output_of id jitter) now e = output_checked id now jitter e
  step (retries id) now e = retry_fires id now e
  step (times_out id) now e = timeout_fires id now e
  step (wait_times_out id) now e = wait_timeout_fires id now e
  step shuts_down now e = begin_shutdown e
  step drains now e = finish_shutdown e
  step drain_times_out now e = force_shutdown now e
  step stops now e = stop_engine e

  -- A run of the engine, each step with its time.
  unfoldable pub steps : List (Event V × ℕ) → Engine V C → Engine V C
  steps [] e = e
  steps ((event, now) ∷ events) e = steps events (step event now e)
