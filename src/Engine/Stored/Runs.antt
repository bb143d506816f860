-- ===== src/Engine/Stored/Runs.antt =====
-- engine.ts: the stored executions through the end, the retry and the wait of a run, and through the timers.
use runcor.Common.{
  ℕ, ◌+◌, ◌≡◌, refl, Text, Option, none, some, Bool, true, ltb, text_eq, arith, Bool-cases, inl,
  inr, sym, ◌&&◌,
}
use runcor.Common.Dict
use runcor.Common.Dict.{Dict, get-set_self, get-delete_self}
use runcor.Execution.{State, Execution, running, waiting, retrying, complete, allowed, is_running}
use runcor.Execution.Lifecycle.{IsWellFormed, extend, extend-IsWellFormed}
use runcor.Engine.{Engine, Flow, WaitSignal, Timer}
use runcor.Engine.Moves.{persist, mutate, clear_timers}
use runcor.Engine.Tasks.{
  complete_execution, moved_to_complete, handle_execution_error, scheduled_retry, pause_timeout,
  enter_waiting_state, entered_wait, timeout_of,
}
use runcor.Engine.Stored.{Holds, IsStored, set-Stored}
use runcor.Engine.Stored.Moves.{
  transition_and_emit-ok, transition_and_emit-err, same_log, dispatch_queued-Holds,
  on_execution_terminal-Holds, fail_and_free-Holds,
}

pub from_running : (s t : State) → is_running s ≡ true → allowed running t ≡ allowed s t
from_running s t h = ground arith

module _ {V C : Type 0} where
  -- A stored execution gets a result; if it is still running it ends.
  pub complete_execution-Holds :
      (x : Execution V) (result : V) (now : ℕ) (e : Engine V C)
      → Holds e
      → IsStored x e
      → Holds (complete_execution x result now e)
  unfolding extend complete_execution moved_to_complete mutate persist clear_timers
  complete_execution-Holds x result now e s stored =
      let y : Execution V = record x { result = some result } in
      let w : IsWellFormed y = same_log y refl refl (s.formed x.id x stored) in
      let mutated = set-Stored y s w in
      elim (Bool-cases (allowed x.state complete)) [
        | inr n ↦ rw (transition_and_emit-err y complete now _ n) mutated
        | inl a ↦ rw (transition_and_emit-ok y complete now _ a) (
            on_execution_terminal-Holds x.id now _
              (set-Stored (extend y complete now) mutated (extend-IsWellFormed y complete now a w)))
      ]

  -- A stored running execution that throws either waits for its retry or fails.
  pub handle_execution_error-Holds :
      (x : Execution V) (flow : Flow) (retryable : Bool) (message : Text) (now jitter : ℕ)
      (e : Engine V C)
      → Holds e
      → IsStored x e
      → is_running x.state ≡ true
      → Holds (handle_execution_error x flow retryable message now jitter e)
  unfolding extend handle_execution_error scheduled_retry persist allowed
  handle_execution_error-Holds x flow retryable message now jitter e s stored r =
      let a : allowed x.state retrying ≡ true = rw (sym (from_running x.state retrying r)) refl in
      elim (Bool-cases (retryable && ltb x.retry_count flow.config.max_retries)) [
        | inr n ↦ rw n (fail_and_free-Holds x message _ retryable now e s stored)
        | inl p ↦
            rw (p, transition_and_emit-ok x retrying now e a)
              (set-Stored (record (extend x retrying now) { retry_count = x.retry_count + 1 }) s
                (same_log _ refl refl
                  (extend-IsWellFormed x retrying now a (s.formed x.id x stored))))
      ]

  pause_timeout-store :
      (t : Option Timer) (start : Option ℕ) (id : Text) (total now : ℕ) (e : Engine V C)
      → (pause_timeout t start id total now e).state_store ≡ e.state_store
  unfolding pause_timeout
  pause_timeout-store none start id total now e = refl
  pause_timeout-store (some t) none id total now e = refl
  pause_timeout-store (some t) (some at) id total now e = refl

  -- A stored running execution waits.
  pub enter_waiting_state-Holds :
      (x : Execution V) (flow : Flow) (signal : WaitSignal V) (now : ℕ) (e : Engine V C)
      → Holds e
      → IsStored x e
      → is_running x.state ≡ true
      → Holds (enter_waiting_state x flow signal now e)
  unfolding extend enter_waiting_state entered_wait persist allowed
  enter_waiting_state-Holds x flow signal now e s stored r =
      let a : allowed x.state waiting ≡ true = rw (sym (from_running x.state waiting r)) refl in
      let paused =
        pause_timeout-store (Dict.get x.id e.timeout_timers) (Dict.get x.id e.start_times) x.id
          (timeout_of (Dict.get x.id e.trigger_options_map) flow.config.timeout) now e in
      let y : Execution V = record x {
        wait_context = some (record {
          reason = signal.reason;
          expected_resume_by = signal.expected_resume_by;
          wait_data = signal.wait_data;
          waiting_since = now;
        });
      } in
      rw (transition_and_emit-ok y waiting now _ a) (
        dispatch_queued-Holds now _ (
          rw paused (
            set-Stored (extend y waiting now) s (
              extend-IsWellFormed y waiting now a
                (same_log y refl refl (s.formed x.id x stored))))))
