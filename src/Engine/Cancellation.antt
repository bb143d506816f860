-- ===== src/Engine/Cancellation.antt =====
-- engine.ts: what `cancel` does to the slot of an execution.
use runcor.Common.{
  if◌then◌else◌, text_beq, Bool-cases, inl, inr, [], ◌∷◌, Bool, ℕ, ◌+◌, ◌≡◌, refl, Text, codes,
  Option, none, some, true, false, text_eq, arith,
}
use runcor.Common.Dict
use runcor.Common.Dict.{Dict, get-set_self}
use runcor.Errors.{ok}
use runcor.Execution.{State, Execution, running, retrying, failed, is_terminal}
use runcor.Execution.Lifecycle.{extend}
use runcor.StateStore.{get_execution, evict_expired}
use runcor.Engine.{Engine, execution_of}
use runcor.Engine.Moves.{fail_execution, emit_failed, persist, finalize_spans, clear_timers}
use runcor.Engine.Calls.{with_store}
use runcor.Engine.Ending.{cancel, cancel_stored, text_or}
use runcor.Engine.Stored.{IsStored}
use runcor.Engine.Stored.Moves.{transition_and_emit-ok, allowed_failed}

-- The states in which an execution holds a slot, but for one whose `resume` waits for the store.
abbrev pub is_occupying : State → Bool
is_occupying running = true
is_occupying retrying = true
is_occupying _ = false

module _ {V : Type 0} where
  abbrev pub slot : Execution V → ℕ
  slot x = if is_occupying x.state then 1 else 0

  abbrev pub slot_of : Option (Execution V) → ℕ
  slot_of none = 0
  slot_of (some x) = slot x

  abbrev pub occupied : Dict Text (Execution V) → ℕ
  occupied [] = 0
  occupied ((id, x) ∷ m) = slot x + occupied m

  pub occupied-set :
      (id : Text) (x : Execution V) (m : Dict Text (Execution V))
      → occupied (Dict.set id x m) + slot_of (Dict.get id m) ≡ occupied m + slot x
  unfolding Dict.set Dict.get
  occupied-set id x [] = omega arith
  occupied-set id x ((j, y) ∷ m) = elim (Bool-cases (text_beq j id)) [
    | inl e ↦ rw e (omega arith)
    | inr e ↦ rw e (omega (arith, occupied-set id x m))
  ]

abbrev pub state_of : {V : Type 0} → Option (Execution V) → Option State
state_of none = none
state_of (some x) = some x.state

occupying_live : (s : State) → is_occupying s ≡ true → is_terminal s ≡ false
occupying_live s h = ground arith

occupied-freed :
    {V : Type 0} (z x : Execution V) (m : Dict Text (Execution V))
    → Dict.get x.id m ≡ some x
    → is_occupying x.state ≡ true
    → slot z ≡ 0
    → occupied (Dict.set x.id z m) + 1 ≡ occupied m
occupied-freed z x m p o h = ground (arith, occupied-set x.id z m)

module _ {V C : Type 0} where
  cancel_stored-leaks :
      (reason : Option Text) (now : ℕ) (x : Execution V) (e : Engine V C)
      → IsStored x e
      → is_occupying x.state ≡ true
      → let (answer, e') = cancel_stored (some x) reason now e in
        (answer ≡ ok tt)
        × (state_of (execution_of x.id e') ≡ some failed)
        × (occupied e'.state_store.executions + 1 ≡ occupied e.state_store.executions)
        × (e'.active_executions ≡ e.active_executions)
        × (e'.tasks ≡ e.tasks)
  unfolding extend cancel_stored fail_execution emit_failed persist finalize_spans clear_timers
  cancel_stored-leaks reason now x e stored o =
      let live = occupying_live x.state o in
      let a = allowed_failed x.state live in
      let y : Execution V = record x {
        error = some (record {
          message = text_or reason (codes "Execution cancelled");
          stack = none;
          retryable = false;
          retries = x.retry_count;
          code = some (codes "CANCELLED");
        });
      } in
      let m = e.state_store.executions in
      rw (live, transition_and_emit-ok y failed now (clear_timers x.id e) a)
        (
          refl,
          rw (get-set_self x.id (extend y failed now) m) refl,
          occupied-freed (extend y failed now) x m stored o refl,
          refl,
          refl,
        )

  -- Cancelling an execution that is running or retrying, and that is stored when expired ones have
  -- been evicted, succeeds: the execution has failed and one fewer execution is running or
  -- retrying, but the count of active executions is what it was, and nothing queued is dispatched.
  pub cancel-leaks :
      (reason : Option Text) (now : ℕ) (x : Execution V) (e : Engine V C)
      → Dict.get x.id (evict_expired now e.state_store).executions ≡ some x
      → is_occupying x.state ≡ true
      → let (answer, e') = cancel x.id reason now e in
        (answer ≡ ok tt)
        × (state_of (execution_of x.id e') ≡ some failed)
        × (occupied e'.state_store.executions + 1
            ≡ occupied (evict_expired now e.state_store).executions)
        × (e'.active_executions ≡ e.active_executions)
        × (e'.tasks ≡ e.tasks)
  unfolding cancel get_execution
  cancel-leaks reason now x e p o =
      let e' = with_store (evict_expired now e.state_store) e in
      rw p (cancel_stored-leaks reason now x e' p o)
