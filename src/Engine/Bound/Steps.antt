-- ===== src/Engine/Bound/Steps.antt =====
-- engine.ts: the count of active executions in every run of an engine.
use runcor.Common.{
  ℕ, nat_eq, ◌+◌, ◌≤◌, Text, Option, none, some, List, [], ◌∷◌, arith, Bool-cases, inl, inr,
  Option-cases, text_eq,
}
use runcor.Common.Dict
use runcor.Common.Dict.{Dict}
use runcor.Execution.{Execution, running, waiting, is_terminal}
use runcor.StateStore.{state_beq, get_execution, evict_expired}
use runcor.Policy.RateLimiter.{Settlement}
use runcor.Policy.Engine.{PolicyEngine, PreExecution, PreExecution-cases, proceeds, throws, waits}
use runcor.Engine.{
  Engine, Pending, WaitingCall, triggering, resuming, replaying, new_engine, execution_of, Task,
  in_run, in_resume, object_of,
}
use runcor.Engine.Moves.{persist}
use runcor.Engine.Continuations.{
  run_stored, input_checked, handler_returned, output_checked, retry_fires, timeout_fires,
  wait_timeout_fires,
}
use runcor.Engine.Calls.{register, unregister, await_policy, with_store}
use runcor.Engine.Resume.{
  start_resume, check_resume, resumed_run, resume_execution, resume_fresh, continue_resume,
  resume_stored, resume_stored_by, resumed_object, check_replay, replay_stored, start_replay,
  continue_replay, replay_options,
}
use runcor.Engine.Ending.{
  cancel, delete_execution, begin_shutdown, finish_shutdown, stop_engine, list_waiting,
}
use runcor.Engine.Step.{
  Event, registers, unregisters, triggers, resumes, replays, settles, continues, cancels, deletes,
  lists_waiting, checks_input_of, handler_of, checks_output_of, retries, times_out, wait_times_out,
  shuts_down, drains, drain_times_out, stops, stores_run, stores_resume, step, steps, settled,
  continued, continue_call,
}
use runcor.Engine.Bound.{Bounded, transitioned-Bounded}
use runcor.Engine.Bound.Runs.{
  run_stored-Bounded, input_checked-Bounded, handler_returned-Bounded, output_checked-Bounded,
  retry_fires-Bounded, timeout_fires-Bounded, wait_timeout_fires-Bounded,
}
use runcor.Engine.Bound.Calls.{
  continue_trigger-Bounded, start_trigger-Bounded, cancel_stored-Bounded, delete_ended-Bounded,
  force_shutdown-Bounded, listed-Bounded, resume_flow-Bounded,
}

abbrev pub resumption_of : {V : Type 0} → Option (Task V) → ℕ
resumption_of (some (in_resume x)) = 1
resumption_of _ = 0

plus_zero : (b : ℕ) {c a : ℕ} → (c ≤ b) × (a ≤ b) → (c ≤ b + 0) × (a ≤ b + 0)
plus_zero b h = (omega (arith, h.0), omega (arith, h.1))

module _ {V C : Type 0} where
  -- One for a call of `resume` whose write of the store is through, nothing for any other event.
  abbrev pub resumption : Event V → Engine V C → ℕ
  resumption (stores_resume id) e = resumption_of (Dict.get id e.tasks)
  resumption _ e = 0

  -- A resumed execution is active again as soon as its write is through.
  resume_stored-Bounded :
      (b : ℕ) (t : Option (Task V)) (o : Option (Execution V)) (id : Text) (now : ℕ)
      (e : Engine V C)
      → Bounded b e
      → Bounded (b + resumption_of t) (resume_stored_by t o id now e)
  unfolding resume_stored_by resumed_object
  resume_stored-Bounded b none o id now e h = plus_zero b h
  resume_stored-Bounded b (some (in_run flow p)) o id now e h = plus_zero b h
  resume_stored-Bounded b (some (in_resume held)) o id now e h =
      resume_flow-Bounded (b + 1) _ _ (object_of o held) now _
        (omega (arith, h.0), omega (arith, h.1))

  -- Until then it is not.
  resume_execution-Bounded :
      (b : ℕ) (x : Execution V) (d : Option V) (now : ℕ) (e : Engine V C)
      → Bounded b e
      → Bounded b (resume_execution x d now e)
  unfolding resume_execution resumed_run persist
  resume_execution-Bounded b x d now e h =
      let e' = record e { wait_timeout_timers = Dict.delete x.id e.wait_timeout_timers } in
      transitioned-Bounded b (λ r. resumed_run r e') _ running now e' h (λ y e'' h'. h') (λ c. h)

  settled-Bounded :
      (b : ℕ) (p : Option (Pending V)) (call : ℕ) (settlement : Settlement) (now : ℕ)
      (e : Engine V C)
      → Bounded b e
      → Bounded b (settled p call settlement now e)
  unfolding settled
  settled-Bounded b none call settlement now e h = h
  settled-Bounded b (some p) call settlement now e h = elim (PreExecution-cases p.pre) [
    | inl (inl (v, q)) ↦ rw q h
    | inl (inr (c, q)) ↦ rw q h
    | inr (t, q) ↦ rw q h
  ]

  abbrev read : ℕ → Engine V C → Engine V C
  read now e = with_store (evict_expired now e.state_store) e

module _ {V C : Type 0} (stringify : V → Text) (null empty : V) where
  resume_fresh-Bounded :
      (b : ℕ) (x : Option (Execution V)) (id : Text) (d : Option V) (now : ℕ) (e : Engine V C)
      → Bounded b e
      → Bounded b (resume_fresh stringify x id d now e).1
  unfolding resume_fresh
  resume_fresh-Bounded b none id d now e h = h
  resume_fresh-Bounded b (some x) id d now e h = elim (Bool-cases (state_beq x.state waiting)) [
    | inl w ↦ rw w (resume_execution-Bounded b x d now e h)
    | inr w ↦ rw w h
  ]

  continue_call-Bounded :
      (b : ℕ) (w : WaitingCall V) (pre : PreExecution V) (call : ℕ) (fresh : Text) (now : ℕ)
      (e : Engine V C)
      → Bounded b e
      → Bounded b (continue_call stringify null empty w pre call fresh now e)
  unfolding continue_call continue_resume continue_replay
  continue_call-Bounded b (triggering flow o r) pre call fresh now e h =
      continue_trigger-Bounded b pre flow o r fresh now e h
  continue_call-Bounded b (resuming id d) (proceeds v) call fresh now e h =
      let (x, st) = get_execution id now e.state_store in
      resume_fresh-Bounded b x id d now (with_store st e) h
  continue_call-Bounded b (resuming id d) (throws c) call fresh now e h = h
  continue_call-Bounded b (resuming id d) (waits t) call fresh now e h = h
  continue_call-Bounded b (replaying x o) (proceeds v) call fresh now e h =
      let again = replay_options empty fresh x o in
      start_trigger-Bounded b call x.flow_name again (some x.id) now e h
  continue_call-Bounded b (replaying x o) (throws c) call fresh now e h = h
  continue_call-Bounded b (replaying x o) (waits t) call fresh now e h = h

  continued-Bounded :
      (b : ℕ) (p : Option (Pending V)) (call : ℕ) (fresh : Text) (now : ℕ) (e : Engine V C)
      → Bounded b e
      → Bounded b (continued stringify null empty p call fresh now e)
  unfolding continued
  continued-Bounded b none call fresh now e h = h
  continued-Bounded b (some p) call fresh now e h = elim (PreExecution-cases p.pre) [
    | inl (inl (v, q)) ↦ rw q (continue_call-Bounded b p.call (proceeds v) call fresh now _ h)
    | inl (inr (c, q)) ↦ rw q (continue_call-Bounded b p.call (throws c) call fresh now _ h)
    | inr (t, q) ↦ rw q h
  ]

  start_resume-Bounded :
      (b : ℕ) (call : ℕ) (x : Option (Execution V)) (id : Text) (d : Option V) (now : ℕ)
      (e : Engine V C)
      → Bounded b e
      → Bounded b (check_resume stringify null empty x call id d now e).1
  unfolding check_resume await_policy
  start_resume-Bounded b call none id d now e h = h
  start_resume-Bounded b call (some x) id d now e h = ground (arith, h)

  start_replay-Bounded :
      (b : ℕ) (call : ℕ) (x : Option (Execution V)) (now : ℕ) (e : Engine V C)
      → Bounded b e
      → Bounded b (replay_stored empty x call now e).1
  unfolding replay_stored check_replay await_policy
  start_replay-Bounded b call none now e h = h
  start_replay-Bounded b call (some x) now e h = elim (Bool-cases (is_terminal x.state)) [
    | inr t ↦ rw t h
    | inl t ↦ elim (Option-cases (Dict.get x.flow_name e.flow_registry)) [
      | inl n ↦ rw (t, n) h
      | inr (f, n) ↦ rw (t, n) h
    ]
  ]

  stepped-Bounded :
      (b : ℕ) (event : Event V) (now : ℕ) (e : Engine V C)
      → Bounded b e
      → Bounded (b + resumption event e) (step stringify null empty event now e)
  unfolding step register unregister cancel delete_execution list_waiting start_resume start_replay
      begin_shutdown finish_shutdown stop_engine run_stored resume_stored input_checked
      handler_returned output_checked retry_fires timeout_fires wait_timeout_fires get_execution
  stepped-Bounded b (registers name o) now e h = ground (arith, h)
  stepped-Bounded b (unregisters name) now e h = ground (arith, h)
  stepped-Bounded b (triggers call flow_name o) now e h =
      plus_zero b (start_trigger-Bounded b call flow_name o none now e h)
  stepped-Bounded b (resumes call id d) now e h =
      plus_zero b
        (start_resume-Bounded b call (execution_of id (read now e)) id d now (read now e) h)
  stepped-Bounded b (replays call id) now e h =
      plus_zero b (start_replay-Bounded b call (execution_of id (read now e)) now (read now e) h)
  stepped-Bounded b (settles call settlement) now e h =
      plus_zero b (settled-Bounded b (Dict.get call e.pending) call settlement now e h)
  stepped-Bounded b (continues call fresh) now e h =
      plus_zero b (continued-Bounded b (Dict.get call e.pending) call fresh now e h)
  stepped-Bounded b (cancels id reason) now e h =
      plus_zero b (cancel_stored-Bounded b (execution_of id (read now e)) reason now (read now e) h)
  stepped-Bounded b (deletes id) now e h =
      plus_zero b (delete_ended-Bounded b (execution_of id (read now e)) id (read now e) h)
  stepped-Bounded b (lists_waiting flow_name user_id tenant_id metadata) now e h =
      plus_zero b (listed-Bounded b _ flow_name now _ h)
  stepped-Bounded b (stores_run id) now e h =
      plus_zero b (run_stored-Bounded b (Dict.get id e.tasks) (execution_of id e) id now e h)
  stepped-Bounded b (stores_resume id) now e h =
      resume_stored-Bounded b (Dict.get id e.tasks) (execution_of id e) id now e h
  stepped-Bounded b (checks_input_of id jitter) now e h =
      plus_zero b (input_checked-Bounded b (Dict.get id e.tasks) (execution_of id e) now jitter e h)
  stepped-Bounded b (handler_of id outcome jitter) now e h =
      plus_zero b (
        handler_returned-Bounded b (Dict.get id e.tasks) (execution_of id e) outcome now jitter e h)
  stepped-Bounded b (checks_output_of id jitter) now e h =
      plus_zero b
        (output_checked-Bounded b (Dict.get id e.tasks) (execution_of id e) now jitter e h)
  stepped-Bounded b (retries id) now e h =
      plus_zero b (retry_fires-Bounded b (Dict.get id e.retry_timers) (execution_of id e) now e h)
  stepped-Bounded b (times_out id) now e h =
      plus_zero b
        (timeout_fires-Bounded b (Dict.get id e.timeout_timers) (execution_of id e) now e h)
  stepped-Bounded b (wait_times_out id) now e h =
      plus_zero b (
        wait_timeout_fires-Bounded b (Dict.get id e.wait_timeout_timers) (execution_of id e) now e
          h)
  stepped-Bounded b shuts_down now e h = ground (arith, h)
  stepped-Bounded b drains now e h = ground (arith, h)
  stepped-Bounded b drain_times_out now e h = plus_zero b (force_shutdown-Bounded b now e h)
  stepped-Bounded b stops now e h = ground (arith, h)

  -- The calls of `resume` in a run whose write is through.
  abbrev pub resumptions : List (Event V × ℕ) → Engine V C → ℕ
  resumptions [] e = 0
  resumptions ((event, now) ∷ events) e =
      resumption event e + resumptions events (step stringify null empty event now e)

  run-Bounded :
      (b : ℕ) (events : List (Event V × ℕ)) (e : Engine V C)
      → Bounded b e
      → Bounded (b + resumptions events e) (steps stringify null empty events e)
  unfolding steps
  run-Bounded b [] e h = plus_zero b h
  run-Bounded b ((event, now) ∷ events) e h =
      let r =
        run-Bounded (b + resumption event e) events (step stringify null empty event now e)
          (stepped-Bounded b event now e h) in
      (omega (arith, r.0), omega (arith, r.1))

  -- In every run from the constructor on, whatever calls, continuations and timers come in whatever
  -- order: the count of active executions is at most the limit on concurrency and the number of
  -- calls of `resume` whose write of the store is through.
  pub steps-Bounded :
      (concurrency retention_period : ℕ) (policy : PolicyEngine V C) (events : List (Event V × ℕ))
      → let e = new_engine concurrency retention_period policy in
        (steps stringify null empty events e).active_executions ≤ concurrency + resumptions events e
  unfolding new_engine
  steps-Bounded concurrency retention_period policy events =
      (run-Bounded concurrency events _ (omega arith, omega arith)).1
