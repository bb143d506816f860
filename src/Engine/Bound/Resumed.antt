-- ===== src/Engine/Bound/Resumed.antt =====
-- engine.ts: a resumed execution against the limit on concurrency.
use runcor.Common.{
  ℕ, ◌+◌, ◌≡◌, ◌≢◌, refl, Option, none, some, true, arith, Bool-cases, inl, inr, nat_beq, ltb,
  text_eq,
}
use runcor.Common.Dict
use runcor.Common.Dict.{get-set_self}
use runcor.Execution.{Execution, running, waiting}
use runcor.Execution.Lifecycle.{extend}
use runcor.StateStore.{state_beq, set_execution}
use runcor.Engine.{
  Engine, Flow, emit, state_change, handles, resumed, in_run, in_resume, execution_of,
}
use runcor.Engine.Moves.{persist}
use runcor.Engine.Tasks.{arm_timeout, with_task, without_task}
use runcor.Engine.Resume.{
  resume_execution, resumed_run, resume_flow, resume_within, rerun, resume_stored, resume_stored_by,
  resumed_object,
}
use runcor.Engine.Stored.Moves.{transition_and_emit-ok}
use runcor.Engine.Stored.Resuming.{waiting_resumes}
use runcor.Engine.Cancellation.{state_of}

-- The time that remains is not used up.
abbrev pub HasTime : Option ℕ → Type 0
HasTime r = r ≢ some 0

module _ {V C : Type 0} where
  resume_within-active :
      (r : Option ℕ) (x : Execution V) (flow : Flow) (now : ℕ) (e : Engine V C)
      → HasTime r
      → let e' = resume_within r x flow now e in
        (e'.active_executions ≡ e.active_executions)
        × (e'.state_store ≡ e.state_store)
        × (Dict.get x.id e'.tasks ≡ some (in_run flow (handles resumed x.input)))
  unfolding resume_within rerun arm_timeout
  resume_within-active none x flow now e h = (refl, refl, get-set_self x.id _ e.tasks)
  resume_within-active (some r) x flow now e h = elim (Bool-cases (nat_beq r 0)) [
    | inl z ↦ absurd (h (ground arith))
    | inr z ↦ elim (Bool-cases (ltb 0 r)) [
      | inl p ↦ rw (z, p) (refl, refl, get-set_self x.id _ e.tasks)
      | inr p ↦ rw (z, p) (refl, refl, get-set_self x.id _ e.tasks)
    ]
  ]

  -- A waiting execution whose flow is known from its wait and whose time is not used up, however
  -- many executions are active: `resume` makes it running, without a handler and without counting
  -- it, until the store has written it. When nothing comes between, it is still running then, its
  -- handler is called with its unchanged input, and the count of active executions has grown by one.
  pub resume_execution-active :
      (x : Execution V) (d : Option V) (flow : Flow) (now later : ℕ) (e : Engine V C)
      → state_beq x.state waiting ≡ true
      → Dict.get x.id e.flow_handler_map ≡ some flow
      → HasTime (Dict.get x.id e.execution_timeout_remaining)
      → let e1 = resume_execution x d now e in
        let e2 = resume_stored x.id later e1 in
        ((e1.active_executions ≡ e.active_executions)
          × (state_of (execution_of x.id e1) ≡ some running))
        × (e2.active_executions ≡ e.active_executions + 1)
        × (state_of (execution_of x.id e2) ≡ some running)
        × (Dict.get x.id e2.tasks ≡ some (in_run flow (handles resumed x.input)))
  unfolding extend resume_execution resumed_run resume_stored resume_stored_by resumed_object
      resume_flow persist set_execution
  resume_execution-active x d flow now later e w f time =
      let y : Execution V = record x { resume_data = d; wait_context = none } in
      let z = extend y running now in
      let a = waiting_resumes x.state w in
      let e1 = record e { wait_timeout_timers = Dict.delete x.id e.wait_timeout_timers } in
      let e2 =
        with_task x.id (in_resume z) (persist z (emit (state_change x.id x.state running) e1)) in
      let e3 = record (without_task x.id e2) { active_executions = e.active_executions + 1 } in
      let found = get-set_self x.id z e.state_store.executions in
      let (active, store, task) =
        resume_within-active (Dict.get x.id e.execution_timeout_remaining) z flow later e3 time in
      rw
        (
          transition_and_emit-ok y running now e1 a,
          get-set_self x.id (in_resume z) e.tasks,
          found,
          f,
        )
        ((refl, refl), active, rw (store, found) refl, task)
