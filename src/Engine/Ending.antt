-- ===== src/Engine/Ending.antt =====
-- engine.ts: `cancel`, `deleteExecution`, `listWaiting` and `shutdown`.
use runcor.Common.{
  ℕ, Text, codes, Option, none, some, List, [], ◌∷◌, Bool, true, false, if◌then◌else◌, nat_beq,
  text_eq, not, ◌||◌, ◌&&◌,
}
use runcor.Errors.{
  Result, ok, err, ErrorCode, execution_not_found, invalid_state, invalid_transition,
}
use runcor.Execution.{Execution, waiting, is_terminal}
use runcor.StateStore.{state_beq, get_execution, list_executions, delete_execution as delete_stored}
use runcor.Policy.Context.{PolicyContext, list_waiting as list_waiting_operation}
use runcor.Policy.AccessControl.{resolve_tenant_id}
use runcor.Policy.Engine.{PreExecution, throws, evaluate_pre_execution}
use runcor.Engine.{Engine, Status, shutting_down, stopped, execution_of, emit, shut_down}
use runcor.Engine.Moves.{clear_timers, fail_execution}
use runcor.Engine.Calls.{with_store}

abbrev pub text_or : Option Text → Text → Text
text_or none t = t
text_or (some u) t = u

abbrev pub is_shutting_down : Status → Bool
is_shutting_down shutting_down = true
is_shutting_down _ = false

abbrev pub is_ending : Status → Bool
is_ending shutting_down = true
is_ending stopped = true
is_ending _ = false

module _ {V C : Type 0} where
  unfoldable pub cancel_stored :
      Option (Execution V) → Option Text → ℕ → Engine V C → Result ErrorCode (Unit {0}) × Engine V C
  cancel_stored none reason now e = (err execution_not_found, e)
  cancel_stored (some x) reason now e = if is_terminal x.state then (err invalid_state, e) else (
    ok tt,
    fail_execution x (text_or reason (codes "Execution cancelled")) (some (codes "CANCELLED")) false
        now (clear_timers x.id e),
  )

  -- No slot is freed.
  unfoldable pub cancel :
      Text → Option Text → ℕ → Engine V C → Result ErrorCode (Unit {0}) × Engine V C
  unfolding cancel_stored
  cancel id reason now e =
      let (x, st) = get_execution id now e.state_store in
      cancel_stored x reason now (with_store st e)

  unfoldable pub delete_ended :
      Option (Execution V) → Text → Engine V C → Result ErrorCode (Unit {0}) × Engine V C
  delete_ended none id e = (err execution_not_found, e)
  delete_ended (some x) id e =
      if is_terminal x.state
      then (ok tt, with_store (delete_stored id e.state_store) e)
      else (err invalid_transition, e)

  unfoldable pub delete_execution : Text → ℕ → Engine V C → Result ErrorCode (Unit {0}) × Engine V C
  unfolding delete_ended
  delete_execution id now e =
      let (x, st) = get_execution id now e.state_store in delete_ended x id (with_store st e)

  -- `shutdown` up to its wait for the executions.
  unfoldable pub begin_shutdown : Engine V C → Engine V C
  begin_shutdown e = if is_ending e.status then e else record e { status = shutting_down }

  unfoldable pub fail_listed : Option (Execution V) → ℕ → Engine V C → Engine V C
  fail_listed none now e = e
  fail_listed (some x) now e =
      if is_terminal x.state || state_beq x.state waiting
      then e
      else fail_execution x (codes "Engine shutting down") (some (codes "SHUTDOWN")) false now
          (clear_timers x.id e)

  -- The objects of the list are those of the store.
  unfoldable pub fail_all : List (Execution V) → ℕ → Engine V C → Engine V C
  unfolding fail_listed
  fail_all [] now e = e
  fail_all (x ∷ xs) now e = fail_all xs now (fail_listed (execution_of x.id e) now e)

  -- `shutdown` goes on when no execution is active.
  unfoldable pub finish_shutdown : Engine V C → Engine V C
  finish_shutdown e =
      if is_shutting_down e.status && nat_beq e.active_executions 0
      then record e { drained = true }
      else e

  -- `shutdown` goes on when the drain timeout has come first: the listed executions are failed.
  unfoldable pub force_shutdown : ℕ → Engine V C → Engine V C
  force_shutdown now e =
      let (xs, st) = list_executions none now e.state_store in
      if is_shutting_down e.status && not e.drained
      then record (fail_all xs now (with_store st e)) { drained = true }
      else e

  -- The end of `shutdown`, after its waits for the server, the adapters and the store.
  unfoldable pub stop_engine : Engine V C → Engine V C
  stop_engine e =
      if is_shutting_down e.status && e.drained
      then emit shut_down (record e { status = stopped })
      else e

  unfoldable pub listed :
      PreExecution V
      → Option Text
      → ℕ
      → Engine V C
      → Result ErrorCode (List (Execution V)) × Engine V C
  listed (throws code) flow_name now e = (err code, e)
  listed _ flow_name now e =
      let (xs, st) =
        list_executions (some (record { by_state = some waiting; by_flow_name = flow_name })) now
          e.state_store in
      (ok xs, with_store st e)

  -- `listWaiting`, whose policy check skips the rate limits and so never waits.
  unfoldable pub list_waiting :
      Option Text
      → Option Text
      → Option Text
      → (null metadata : V) → ℕ
      → Engine V C
      → Result ErrorCode (List (Execution V)) × Engine V C
  unfolding listed
  list_waiting flow_name user_id tenant_id null metadata now e =
      let context : PolicyContext V = record {
        operation = list_waiting_operation;
        flow_name = text_or flow_name (codes "*");
        user_id = user_id;
        tenant_id = resolve_tenant_id tenant_id user_id;
        input = null;
        execution_id = none;
        metadata = metadata;
      } in
      let (pre, policy) = evaluate_pre_execution context true now e.policy_engine in
      listed pre flow_name now (record e { policy_engine = policy })
