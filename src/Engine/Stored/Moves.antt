-- ===== src/Engine/Stored/Moves.antt =====
-- engine.ts: the stored executions through failing, dispatching and freeing.
use runcor.Common.{
  ℕ, ◌+◌, ◌≡◌, refl, Text, Option, none, some, List, [], ◌∷◌, Bool, true, false, text_eq, arith,
  Bool-cases, inl, inr, Option-cases, sym, subst, All, leb, All-filter_by,
}
use runcor.Common.Dict
use runcor.Common.Dict.{Dict, values, get-delete_self, get-set_self}
use runcor.Common.Distinct.{All-values}
use runcor.Common.Sort.{sort_by-All}
use runcor.Errors.{ok, err, invalid_transition}
use runcor.Execution.{State, Execution, queued, running, failed, allowed, is_terminal}
use runcor.Execution.Log.{Chain}
use runcor.Execution.Lifecycle.{IsWellFormed, extend, extend-IsWellFormed, transition-cases}
use runcor.StateStore.{state_beq, list_executions, evict_expired}
use runcor.Engine.{Engine, Flow, state_change, emit, execution_of}
use runcor.Engine.Moves.{
  transition_and_emit, persist, clear_timers, fail_execution, emit_failed, finalize_spans,
}
use runcor.Engine.Tasks.{
  run_execution, started_run, dispatch, dispatch_next, dispatch_queued, free_slot,
  on_execution_terminal, fail_and_free,
}
use runcor.Engine.Stored.{Holds, IsStored, set-Stored, evict-Stored}

module _ {V C : Type 0} where
  pub transition_and_emit-ok :
      (x : Execution V) (t : State) (now : ℕ) (e : Engine V C)
      → allowed x.state t ≡ true
      → transition_and_emit x t now e ≡ ok (extend x t now, emit (state_change x.id x.state t) e)
  unfolding transition_and_emit
  transition_and_emit-ok x t now e h = elim (transition-cases x t now) [
    | inl (a, eq) ↦ rw eq
    | inr (a, eq) ↦ cc
  ]

  pub transition_and_emit-err :
      (x : Execution V) (t : State) (now : ℕ) (e : Engine V C)
      → allowed x.state t ≡ false
      → transition_and_emit x t now e ≡ err invalid_transition
  unfolding transition_and_emit
  transition_and_emit-err x t now e h = elim (transition-cases x t now) [
    | inl (a, eq) ↦ cc
    | inr (a, eq) ↦ rw eq
  ]

-- The log is all that well-formedness looks at.
pub same_log :
    {V : Type 0} {x : Execution V} (y : Execution V)
    → x.state ≡ y.state
    → x.timestamps ≡ y.timestamps
    → IsWellFormed x
    → IsWellFormed y
same_log {x = x} y s t w = record {
  chain =
      subst (λ z. Chain queued z.transitions y.state) t
        (subst (λ z. Chain queued x.timestamps.transitions z) s w.chain);
  started_first = rw (sym t, w.started_first);
  completed_end = rw (sym t, w.completed_end);
}

pub queued_iff : (s : State) → state_beq s queued ≡ true → s ≡ queued
queued_iff s h = ground arith

pub allowed_failed : (s : State) → is_terminal s ≡ false → allowed s failed ≡ true
unfolding allowed
allowed_failed s h = ground arith

module _ {V C : Type 0} where
  -- A stored execution fails.
  pub fail_execution-Holds :
      (x : Execution V) (message : Text) (code : Option Text) (retryable : Bool) (now : ℕ)
      (e : Engine V C)
      → Holds e
      → IsStored x e
      → Holds (fail_execution x message code retryable now e)
  unfolding extend fail_execution emit_failed persist finalize_spans
  fail_execution-Holds x message code retryable now e s stored =
      elim (Bool-cases (is_terminal x.state)) [
        | inl t ↦ rw t s
        | inr t ↦
            let y : Execution V = record x {
              error = some (record {
                message = message;
                stack = none;
                retryable = retryable;
                retries = x.retry_count;
                code = code;
              });
            } in
            let a = allowed_failed x.state t in
            rw (t, transition_and_emit-ok y failed now e a)
              (set-Stored (extend y failed now) s (
                extend-IsWellFormed y failed now a (same_log y refl refl (s.formed x.id x stored))))
      ]

module _ {V C : Type 0} where
  -- A stored queued execution is run.
  pub run_execution-Holds :
      (x : Execution V) (flow : Flow) (o : Option ℕ) (now : ℕ) (e : Engine V C)
      → Holds e
      → IsStored x e
      → x.state ≡ queued
      → Holds
          (run_execution x flow o now (record e { active_executions = e.active_executions + 1 }))
  unfolding extend run_execution started_run persist allowed
  run_execution-Holds x flow o now e s stored q =
      let a : allowed x.state running ≡ true = rw q refl in
      rw (transition_and_emit-ok x running now _ a) (
        set-Stored (extend x running now) s
          (extend-IsWellFormed x running now a (s.formed x.id x stored)))

  pub dispatch-Holds :
      (x : Execution V) (flow : Flow) (o : Option ℕ) (now : ℕ) (e : Engine V C)
      → Holds e
      → IsStored x e
      → Holds (dispatch x flow o now e)
  unfolding dispatch
  dispatch-Holds x flow o now e s stored = elim (Bool-cases (state_beq x.state queued)) [
    | inr n ↦ rw n s
    | inl q ↦ elim (Bool-cases (leb e.concurrency e.active_executions)) [
      | inl f ↦ rw (q, f) s
      | inr f ↦ rw (q, f) (run_execution-Holds x flow o now e s stored (queued_iff x.state q))
    ]
  ]

  dispatch_next-Holds :
      (xs : List (Execution V)) (now : ℕ) (e : Engine V C)
      → Holds e
      → All (λ x. IsStored x e) xs
      → Holds (dispatch_next xs now e)
  unfolding dispatch_next
  dispatch_next-Holds [] now e s h = s
  dispatch_next-Holds (x ∷ xs) now e s h =
      elim (Option-cases (Dict.get x.flow_name e.flow_registry)) [
        | inl n ↦ rw n s
        | inr (flow, f) ↦ rw f (dispatch-Holds x flow none now e s h.0)
      ]

  -- What a lookup gives is stored under its own id.
  pub lookup-IsStored :
      (id : Text) (x : Execution V) (e : Engine V C)
      → Holds e
      → execution_of id e ≡ some x
      → IsStored x e
  lookup-IsStored id x e s h = subst (λ k. execution_of k e ≡ some x) (sym (s.named id x h)) h

  values-IsStored :
      (e : Engine V C) → Holds e → All (λ x. IsStored x e) (values e.state_store.executions)
  values-IsStored e s =
      All-values (λ x. IsStored x e) e.state_store.executions s.distinct
        (λ id x h. lookup-IsStored id x e s h)

  pub dispatch_queued-Holds : (now : ℕ) (e : Engine V C) → Holds e → Holds (dispatch_queued now e)
  unfolding dispatch_queued list_executions
  dispatch_queued-Holds now e s = elim (Bool-cases (leb e.concurrency e.active_executions)) [
    | inl f ↦ rw f s
    | inr f ↦
        let e' = record e { state_store = evict_expired now e.state_store } in
        let s' = evict-Stored now e.state_store s in
        rw f (
          dispatch_next-Holds _ now e' s'
            (sort_by-All _ _ _ (All-filter_by _ _ _ (values-IsStored e' s'))))
  ]

  pub on_execution_terminal-Holds :
      (id : Text) (now : ℕ) (e : Engine V C) → Holds e → Holds (on_execution_terminal id now e)
  unfolding on_execution_terminal free_slot finalize_spans
  on_execution_terminal-Holds id now e s = dispatch_queued-Holds now (free_slot id e) s

  pub fail_and_free-Holds :
      (x : Execution V) (message : Text) (code : Option Text) (retryable : Bool) (now : ℕ)
      (e : Engine V C)
      → Holds e
      → IsStored x e
      → Holds (fail_and_free x message code retryable now e)
  unfolding fail_and_free clear_timers
  fail_and_free-Holds x message code retryable now e s stored =
      on_execution_terminal-Holds x.id now _
        (fail_execution-Holds x message code retryable now (clear_timers x.id e) s stored)
