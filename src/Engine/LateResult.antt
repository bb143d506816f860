-- ===== src/Engine/LateResult.antt =====
-- engine.ts: an execution that ends while its output guardrails are awaited.
use runcor.Common.{ℕ, ◌≡◌, refl, some, false, text_eq, arith}
use runcor.Common.Dict
use runcor.Common.Dict.{get-set_self}
use runcor.Errors.{ok}
use runcor.Execution.{State, Execution, complete, allowed, is_running}
use runcor.Engine.{Engine, Flow, Attempt, checks_output, in_run, execution_of}
use runcor.Engine.Moves.{mutate, clear_timers}
use runcor.Engine.Tasks.{without_task, complete_execution, moved_to_complete}
use runcor.Engine.Continuations.{output_checked, output_checked_by, after_output, checked_output}
use runcor.Engine.Stored.{IsStored}
use runcor.Engine.Stored.Moves.{transition_and_emit-err}

stopped_running : (s : State) → is_running s ≡ false → allowed s complete ≡ false
unfolding allowed
stopped_running s h = ground arith

module _ {V C : Type 0} where
  complete_execution-late :
      (x : Execution V) (v : V) (now : ℕ) (e : Engine V C)
      → is_running x.state ≡ false
      → complete_execution x v now e ≡ mutate (record x { result = some v }) (clear_timers x.id e)
  unfolding complete_execution moved_to_complete
  complete_execution-late x v now e h =
      let y : Execution V = record x { result = some v } in
      let e' = mutate y (clear_timers x.id e) in
      rw (transition_and_emit-err y complete now e' (stopped_running x.state h)) refl

  -- A stored execution that is not running any more, having been cancelled, say, or timed out, when
  -- the output guardrails let a result through: the result is written to it, and nothing else of it
  -- changes, so a failed execution has a result; the count of active executions stays as it is.
  pub output_checked-late :
      (x : Execution V) (flow : Flow) (a : Attempt) (v : V) (now jitter : ℕ) (e : Engine V C)
      → IsStored x e
      → Dict.get x.id e.tasks ≡ some (in_run flow (checks_output a (ok v)))
      → is_running x.state ≡ false
      → let e' = output_checked x.id now jitter e in
        (execution_of x.id e' ≡ some (record x { result = some v }))
        × (e'.active_executions ≡ e.active_executions)
  unfolding output_checked output_checked_by after_output checked_output mutate clear_timers
  output_checked-late x flow a v now jitter e stored task h =
      let y : Execution V = record x { result = some v } in
      rw (task, stored, complete_execution-late x v now (without_task x.id e) h)
        (get-set_self x.id y e.state_store.executions, refl)
