-- ===== src/Engine/Stored/Reachable.antt =====
-- engine.ts: what holds of the stored executions in every state that an engine can reach.
use runcor.Common.{ℕ, nat_eq, ◌≡◌, Text, Option, none, some, inl, inr}
use runcor.Common.Dict
use runcor.Common.Dict.{Dict}
use runcor.Policy.RateLimiter.{Settlement}
use runcor.Policy.Engine.{PolicyEngine, PreExecution, PreExecution-cases, proceeds, throws}
use runcor.Engine.{
  Engine, Pending, WaitingCall, triggering, resuming, replaying, new_engine, execution_of,
}
use runcor.StateStore.{new_store}
use runcor.Engine.Step.{
  Event, registers, unregisters, triggers, resumes, replays, settles, continues, cancels, deletes,
  lists_waiting, checks_input_of, handler_of, checks_output_of, retries, times_out, wait_times_out,
  shuts_down, drains, drain_times_out, stops, stores_run, stores_resume, step, settled, continued,
  continue_call,
}
use runcor.Engine.Stored.{Stored, Holds}
use runcor.Engine.Stored.Continuations.{
  run_stored-Holds, input_checked-Holds, handler_returned-Holds, output_checked-Holds,
}
use runcor.Engine.Stored.Timers.{retry_fires-Holds, timeout_fires-Holds, wait_timeout_fires-Holds}
use runcor.Engine.Stored.Calls.{
  register-Holds, unregister-Holds, cancel-Holds, delete_execution-Holds, start_trigger-Holds,
  continue_trigger-Holds,
}
use runcor.Engine.Stored.Resuming.{
  start_resume-Holds, continue_resume-Holds, resume_stored-Holds, start_replay-Holds,
  continue_replay-Holds,
}
use runcor.Engine.Stored.Shutdown.{
  begin_shutdown-Holds, finish_shutdown-Holds, stop_engine-Holds, force_shutdown-Holds,
  list_waiting-Holds,
}

module _ {V C : Type 0} where
  -- An identifier that `crypto.randomUUID()` gives is not one of an execution that is stored.
  abbrev pub IsFresh : Event V → Engine V C → Type 0
  IsFresh (continues call fresh) e = execution_of fresh e ≡ none
  IsFresh _ e = Unit

  settled-Holds :
      (p : Option (Pending V)) (call : ℕ) (settlement : Settlement) (now : ℕ) (e : Engine V C)
      → Holds e
      → Holds (settled p call settlement now e)
  unfolding settled
  settled-Holds none call settlement now e s = s
  settled-Holds (some p) call settlement now e s = elim (PreExecution-cases p.pre) [
    | inl (inl (v, q)) ↦ rw q s
    | inl (inr (c, q)) ↦ rw q s
    | inr (t, q) ↦ rw q s
  ]

module _ {V C : Type 0} (stringify : V → Text) (null empty : V) where
  continue_call-Holds :
      (w : WaitingCall V) (pre : PreExecution V) (call : ℕ) (fresh : Text) (now : ℕ)
      (e : Engine V C)
      → Holds e
      → execution_of fresh e ≡ none
      → Holds (continue_call stringify null empty w pre call fresh now e)
  unfolding continue_call
  continue_call-Holds (triggering flow o r) pre call fresh now e s new =
      continue_trigger-Holds pre flow o r fresh now e s new
  continue_call-Holds (resuming id d) pre call fresh now e s new =
      continue_resume-Holds stringify pre id d now e s
  continue_call-Holds (replaying x o) pre call fresh now e s new =
      continue_replay-Holds empty pre call x o fresh now e s

  continued-Holds :
      (p : Option (Pending V)) (call : ℕ) (fresh : Text) (now : ℕ) (e : Engine V C)
      → Holds e
      → execution_of fresh e ≡ none
      → Holds (continued stringify null empty p call fresh now e)
  unfolding continued
  continued-Holds none call fresh now e s new = s
  continued-Holds (some p) call fresh now e s new = elim (PreExecution-cases p.pre) [
    | inl (inl (v, q)) ↦ rw q (continue_call-Holds p.call (proceeds v) call fresh now _ s new)
    | inl (inr (c, q)) ↦ rw q (continue_call-Holds p.call (throws c) call fresh now _ s new)
    | inr (t, q) ↦ rw q s
  ]

  pub step-Holds :
      (event : Event V) (now : ℕ) (e : Engine V C)
      → Holds e
      → IsFresh event e
      → Holds (step stringify null empty event now e)
  unfolding step
  step-Holds (registers name o) now e s f = register-Holds name o e s
  step-Holds (unregisters name) now e s f = unregister-Holds name e s
  step-Holds (triggers call flow_name o) now e s f =
      start_trigger-Holds call flow_name o none now e s
  step-Holds (resumes call id d) now e s f =
      start_resume-Holds stringify null empty call id d now e s
  step-Holds (replays call id) now e s f = start_replay-Holds empty call id now e s
  step-Holds (settles call settlement) now e s f =
      settled-Holds (Dict.get call e.pending) call settlement now e s
  step-Holds (continues call fresh) now e s f =
      continued-Holds (Dict.get call e.pending) call fresh now e s f
  step-Holds (cancels id reason) now e s f = cancel-Holds id reason now e s
  step-Holds (deletes id) now e s f = delete_execution-Holds id now e s
  step-Holds (lists_waiting flow_name user_id tenant_id metadata) now e s f =
      list_waiting-Holds flow_name user_id tenant_id null metadata now e s
  step-Holds (stores_run id) now e s f = run_stored-Holds id now e s
  step-Holds (stores_resume id) now e s f = resume_stored-Holds id now e s
  step-Holds (checks_input_of id jitter) now e s f = input_checked-Holds id now jitter e s
  step-Holds (handler_of id outcome jitter) now e s f =
      handler_returned-Holds id outcome now jitter e s
  step-Holds (checks_output_of id jitter) now e s f = output_checked-Holds id now jitter e s
  step-Holds (retries id) now e s f = retry_fires-Holds id now e s
  step-Holds (times_out id) now e s f = timeout_fires-Holds id now e s
  step-Holds (wait_times_out id) now e s f = wait_timeout_fires-Holds id now e s
  step-Holds shuts_down now e s f = begin_shutdown-Holds e s
  step-Holds drains now e s f = finish_shutdown-Holds e s
  step-Holds drain_times_out now e s f = force_shutdown-Holds now e s
  step-Holds stops now e s f = stop_engine-Holds e s

-- The engines that a sequence of steps leads to, from the constructor on.
pub data Reachable {V C : Type 0} (stringify : V → Text) (null empty : V)
    : Engine V C → Type 0 where
  started :
      (concurrency retention_period : ℕ) (policy : PolicyEngine V C)
      → Reachable stringify null empty (new_engine concurrency retention_period policy)
  later :
      {e : Engine V C} (event : Event V) (now : ℕ)
      → Reachable stringify null empty e
      → IsFresh event e
      → Reachable stringify null empty (step stringify null empty event now e)

new_engine-Holds :
    {V C : Type 0} (concurrency retention_period : ℕ) (policy : PolicyEngine V C)
    → Holds (new_engine concurrency retention_period policy)
unfolding new_engine new_store Dict.get
new_engine-Holds concurrency retention_period policy = record {
  distinct = tt;
  named = λ id x h. cc;
  formed = λ id x h. cc;
}

-- In every engine that calls, continuations and timers can lead to, in any order, with any outcome
-- of handlers and policy checks and with anything between the continuations, as long as new
-- identifiers are not those of stored executions: every execution in the store is there under its
-- own id and once, and its log is well-formed, so that it is a path of the transition table from
-- `queued` to its state, which its start and its end agree with.
pub Reachable-Stored :
    {V C : Type 0} (stringify : V → Text) (null empty : V) (e : Engine V C)
    → Reachable stringify null empty e
    → Stored e.state_store.executions
Reachable-Stored stringify null empty e (started c r p) = new_engine-Holds c r p
Reachable-Stored stringify null empty e' (later {e = e} event now r f) =
    step-Holds stringify null empty event now e (Reachable-Stored stringify null empty e r) f
