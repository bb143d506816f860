-- ===== src/Engine/Stored/Continuations.antt =====
-- engine.ts: the stored executions through the continuations of a run.
use runcor.Common.{
  ℕ, ltb, Option, some, ◌≡◌, Text, none, true, false, text_eq, Bool-cases, inl, inr, Option-cases,
}
use runcor.Common.Dict
use runcor.Common.Dict.{Dict, get-set_self, get-delete_self}
use runcor.Errors.{ok, err}
use runcor.Execution.{Execution, is_running}
use runcor.Engine.{
  Engine, Flow, HandlerOutcome, returns, waits, raises, Attempt, first, retried, resumed, Phase,
  begins, checks_input, handles, checks_output, execution_of, Task, in_run, in_resume,
}
use runcor.Engine.Tasks.{without_task, await_guardrails, arm_timeout}
use runcor.Engine.Continuations.{
  checked_input, handled, checked_output, output_blocked, after_input, after_handler, after_output,
  input_checked_by, handler_returned_by, output_checked_by, input_checked, handler_returned,
  output_checked, run_stored, run_stored_by, begun,
}
use runcor.Engine.Stored.{Holds, IsStored}
use runcor.Engine.Stored.Moves.{fail_and_free-Holds, lookup-IsStored}
use runcor.Engine.Stored.Runs.{
  complete_execution-Holds, handle_execution_error-Holds, enter_waiting_state-Holds,
}

module _ {V C : Type 0} where
  after_input-Holds :
      (p : Phase V) (flow : Flow) (x : Execution V) (now jitter : ℕ) (e : Engine V C)
      → Holds e
      → IsStored x e
      → Holds (after_input p flow x now jitter e)
  unfolding after_input checked_input
  after_input-Holds (begins h m) flow x now jitter e s stored = s
  after_input-Holds (checks_input (ok v)) flow x now jitter e s stored = s
  after_input-Holds (checks_input (err code)) flow x now jitter e s stored =
      elim (Bool-cases (is_running x.state)) [
        | inl r ↦ rw r (
            handle_execution_error-Holds x flow false _ now jitter (without_task x.id e) s stored r)
        | inr n ↦ rw n s
      ]
  after_input-Holds (handles a v) flow x now jitter e s stored = s
  after_input-Holds (checks_output a r) flow x now jitter e s stored = s

  handled-Holds :
      (outcome : HandlerOutcome V) (a : Attempt) (flow : Flow) (x : Execution V) (now jitter : ℕ)
      (e : Engine V C)
      → Holds e
      → IsStored x e
      → is_running x.state ≡ true
      → Holds (handled outcome a flow x now jitter e)
  unfolding handled await_guardrails
  handled-Holds (returns v) first flow x now jitter e s stored r = s
  handled-Holds (returns v) retried flow x now jitter e s stored r =
      complete_execution-Holds x v now e s stored
  handled-Holds (returns v) resumed flow x now jitter e s stored r = s
  handled-Holds (waits signal) a flow x now jitter e s stored r =
      enter_waiting_state-Holds x flow signal now e s stored r
  handled-Holds (raises t m) first flow x now jitter e s stored r =
      handle_execution_error-Holds x flow t m now jitter e s stored r
  handled-Holds (raises t m) retried flow x now jitter e s stored r =
      handle_execution_error-Holds x flow t m now jitter e s stored r
  handled-Holds (raises t m) resumed flow x now jitter e s stored r =
      fail_and_free-Holds x m none false now e s stored

  after_handler-Holds :
      (p : Phase V) (outcome : HandlerOutcome V) (flow : Flow) (x : Execution V) (now jitter : ℕ)
      (e : Engine V C)
      → Holds e
      → IsStored x e
      → Holds (after_handler p outcome flow x now jitter e)
  unfolding after_handler
  after_handler-Holds (handles a v) outcome flow x now jitter e s stored =
      elim (Bool-cases (is_running x.state)) [
        | inl r ↦ rw r (handled-Holds outcome a flow x now jitter (without_task x.id e) s stored r)
        | inr n ↦ rw n s
      ]
  after_handler-Holds (begins h m) outcome flow x now jitter e s stored = s
  after_handler-Holds (checks_input q) outcome flow x now jitter e s stored = s
  after_handler-Holds (checks_output a q) outcome flow x now jitter e s stored = s

  output_blocked-Holds :
      (a : Attempt) (flow : Flow) (x : Execution V) (now jitter : ℕ) (e : Engine V C)
      → Holds e
      → IsStored x e
      → is_running x.state ≡ true
      → Holds (output_blocked a flow x now jitter e)
  unfolding output_blocked
  output_blocked-Holds first flow x now jitter e s stored r =
      handle_execution_error-Holds x flow false _ now jitter e s stored r
  output_blocked-Holds retried flow x now jitter e s stored r =
      handle_execution_error-Holds x flow false _ now jitter e s stored r
  output_blocked-Holds resumed flow x now jitter e s stored r =
      fail_and_free-Holds x _ none false now e s stored

  after_output-Holds :
      (p : Phase V) (flow : Flow) (x : Execution V) (now jitter : ℕ) (e : Engine V C)
      → Holds e
      → IsStored x e
      → Holds (after_output p flow x now jitter e)
  unfolding after_output checked_output
  after_output-Holds (begins h m) flow x now jitter e s stored = s
  after_output-Holds (checks_output a (ok v)) flow x now jitter e s stored =
      complete_execution-Holds x v now (without_task x.id e) s stored
  after_output-Holds (checks_output a (err code)) flow x now jitter e s stored =
      elim (Bool-cases (is_running x.state)) [
        | inl r ↦ rw r (output_blocked-Holds a flow x now jitter (without_task x.id e) s stored r)
        | inr n ↦ rw n s
      ]
  after_output-Holds (checks_input q) flow x now jitter e s stored = s
  after_output-Holds (handles a v) flow x now jitter e s stored = s

  run_stored_by-Holds :
      (t : Task V) (o : Option (Execution V)) (id : Text) (now : ℕ) (e : Engine V C)
      → Holds e
      → Holds (run_stored_by (some t) o id now e)
  unfolding run_stored_by begun await_guardrails arm_timeout
  run_stored_by-Holds (in_resume held) o id now e s = s
  run_stored_by-Holds (in_run flow (begins held timeout)) o id now e s =
      elim (Bool-cases (ltb 0 timeout)) [ inl p ↦ rw p s | inr p ↦ rw p s ]
  run_stored_by-Holds (in_run flow (checks_input q)) o id now e s = s
  run_stored_by-Holds (in_run flow (handles a v)) o id now e s = s
  run_stored_by-Holds (in_run flow (checks_output a q)) o id now e s = s

  pub run_stored-Holds :
      (id : Text) (now : ℕ) (e : Engine V C) → Holds e → Holds (run_stored id now e)
  unfolding run_stored run_stored_by
  run_stored-Holds id now e s = elim (Option-cases (Dict.get id e.tasks)) [
    | inl n ↦ rw n s
    | inr (t, p) ↦ rw p (run_stored_by-Holds t (execution_of id e) id now e s)
  ]

  input_checked_by-Holds :
      (t : Task V) (x : Execution V) (now jitter : ℕ) (e : Engine V C)
      → Holds e
      → IsStored x e
      → Holds (input_checked_by (some t) (some x) now jitter e)
  unfolding input_checked_by
  input_checked_by-Holds (in_run flow p) x now jitter e s stored =
      after_input-Holds p flow x now jitter e s stored
  input_checked_by-Holds (in_resume held) x now jitter e s stored = s

  input_checked_gone-Holds :
      (t : Task V) (now jitter : ℕ) (e : Engine V C)
      → Holds e
      → Holds (input_checked_by (some t) none now jitter e)
  unfolding input_checked_by
  input_checked_gone-Holds (in_run flow p) now jitter e s = s
  input_checked_gone-Holds (in_resume held) now jitter e s = s

  pub input_checked-Holds :
      (id : Text) (now jitter : ℕ) (e : Engine V C)
      → Holds e
      → Holds (input_checked id now jitter e)
  unfolding input_checked input_checked_by
  input_checked-Holds id now jitter e s = elim (Option-cases (Dict.get id e.tasks)) [
    | inl n ↦ rw n s
    | inr (t, p) ↦ elim (Option-cases (execution_of id e)) [
      | inl n ↦ rw (p, n) (input_checked_gone-Holds t now jitter e s)
      | inr (x, q) ↦
          rw (p, q) (input_checked_by-Holds t x now jitter e s (lookup-IsStored id x e s q))
    ]
  ]

  handler_returned_by-Holds :
      (t : Task V) (x : Execution V) (outcome : HandlerOutcome V) (now jitter : ℕ) (e : Engine V C)
      → Holds e
      → IsStored x e
      → Holds (handler_returned_by (some t) (some x) outcome now jitter e)
  unfolding handler_returned_by
  handler_returned_by-Holds (in_run flow p) x outcome now jitter e s stored =
      after_handler-Holds p outcome flow x now jitter e s stored
  handler_returned_by-Holds (in_resume held) x outcome now jitter e s stored = s

  handler_returned_gone-Holds :
      (t : Task V) (outcome : HandlerOutcome V) (now jitter : ℕ) (e : Engine V C)
      → Holds e
      → Holds (handler_returned_by (some t) none outcome now jitter e)
  unfolding handler_returned_by
  handler_returned_gone-Holds (in_run flow p) outcome now jitter e s = s
  handler_returned_gone-Holds (in_resume held) outcome now jitter e s = s

  pub handler_returned-Holds :
      (id : Text) (outcome : HandlerOutcome V) (now jitter : ℕ) (e : Engine V C)
      → Holds e
      → Holds (handler_returned id outcome now jitter e)
  unfolding handler_returned handler_returned_by
  handler_returned-Holds id outcome now jitter e s = elim (Option-cases (Dict.get id e.tasks)) [
    | inl n ↦ rw n s
    | inr (t, p) ↦ elim (Option-cases (execution_of id e)) [
      | inl n ↦ rw (p, n) (handler_returned_gone-Holds t outcome now jitter e s)
      | inr (x, q) ↦
          rw (p, q)
            (handler_returned_by-Holds t x outcome now jitter e s (lookup-IsStored id x e s q))
    ]
  ]

  output_checked_by-Holds :
      (t : Task V) (x : Execution V) (now jitter : ℕ) (e : Engine V C)
      → Holds e
      → IsStored x e
      → Holds (output_checked_by (some t) (some x) now jitter e)
  unfolding output_checked_by
  output_checked_by-Holds (in_run flow p) x now jitter e s stored =
      after_output-Holds p flow x now jitter e s stored
  output_checked_by-Holds (in_resume held) x now jitter e s stored = s

  output_checked_gone-Holds :
      (t : Task V) (now jitter : ℕ) (e : Engine V C)
      → Holds e
      → Holds (output_checked_by (some t) none now jitter e)
  unfolding output_checked_by
  output_checked_gone-Holds (in_run flow p) now jitter e s = s
  output_checked_gone-Holds (in_resume held) now jitter e s = s

  pub output_checked-Holds :
      (id : Text) (now jitter : ℕ) (e : Engine V C)
      → Holds e
      → Holds (output_checked id now jitter e)
  unfolding output_checked output_checked_by
  output_checked-Holds id now jitter e s = elim (Option-cases (Dict.get id e.tasks)) [
    | inl n ↦ rw n s
    | inr (t, p) ↦ elim (Option-cases (execution_of id e)) [
      | inl n ↦ rw (p, n) (output_checked_gone-Holds t now jitter e s)
      | inr (x, q) ↦
          rw (p, q) (output_checked_by-Holds t x now jitter e s (lookup-IsStored id x e s q))
    ]
  ]
