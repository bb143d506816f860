-- ===== src/Engine/Stored/Calls.antt =====
-- engine.ts: the stored executions through the calls on the engine.
use runcor.Common.{
  ℕ, ◌≡◌, refl, Text, Option, none, some, false, text_eq, arith, Bool-cases, inl, inr, Option-cases,
  subst, truthy,
}
use runcor.Common.Dict
use runcor.Common.Dict.{Dict, get-set_self, get-delete_self, get-set}
use runcor.Execution.{Execution, is_terminal, create_execution}
use runcor.Execution.Lifecycle.{create-IsWellFormed}
use runcor.StateStore.{
  get_execution, get_by_idempotency_key, lookup_id, evict_expired,
  delete_execution as delete_stored, delete_found,
}
use runcor.Policy.Engine.{PreExecution, proceeds, throws, waits}
use runcor.Engine.{Engine, Flow, TriggerOptions, execution_of}
use runcor.Engine.Moves.{persist, clear_timers}
use runcor.Engine.Calls.{
  FlowOptions, admits_trigger, await_policy, check_trigger, mark_replay, trigger_unless,
  start_trigger, start_admitted, create_and_dispatch, continue_trigger, with_store, register,
  unregister,
}
use runcor.Engine.Ending.{cancel, cancel_stored, delete_execution, delete_ended}
use runcor.Engine.Stored.{Holds, IsStored, set-Stored, delete-Stored, evict-Stored}
use runcor.Engine.Stored.Moves.{same_log, dispatch-Holds, fail_execution-Holds, lookup-IsStored}

module _ {V C : Type 0} where
  -- A read of the store may evict.
  pub read-Holds :
      (now : ℕ) (e : Engine V C) → Holds e → Holds (with_store (evict_expired now e.state_store) e)
  read-Holds now e s = evict-Stored now e.state_store s

  pub register-Holds :
      (name : Text) (o : FlowOptions) (e : Engine V C) → Holds e → Holds (register name o e).1
  unfolding register
  register-Holds name o e s = ground (arith, s)

  pub unregister-Holds : (name : Text) (e : Engine V C) → Holds e → Holds (unregister name e).1
  unfolding unregister
  unregister-Holds name e s = ground (arith, s)

  mark_replay-Holds :
      (o : Option Text) (id : Text) (e : Engine V C)
      → Holds e
      → Holds (mark_replay o (execution_of id e) e).1
  unfolding mark_replay persist
  mark_replay-Holds none id e s = s
  mark_replay-Holds (some of) id e s = elim (Option-cases (execution_of id e)) [
    | inl n ↦ rw n s
    | inr (x, p) ↦
        rw p
          (set-Stored (record x { replay_of = some of }) s (same_log _ refl refl (s.formed id x p)))
  ]

  cancel_stored-Holds :
      (x : Execution V) (reason : Option Text) (now : ℕ) (e : Engine V C)
      → Holds e
      → IsStored x e
      → Holds (cancel_stored (some x) reason now e).1
  unfolding cancel_stored clear_timers
  cancel_stored-Holds x reason now e s stored = elim (Bool-cases (is_terminal x.state)) [
    | inl t ↦ rw t s
    | inr t ↦ rw t (fail_execution-Holds x _ _ false now (clear_timers x.id e) s stored)
  ]

  pub cancel-Holds :
      (id : Text) (reason : Option Text) (now : ℕ) (e : Engine V C)
      → Holds e
      → Holds (cancel id reason now e).1
  unfolding cancel get_execution cancel_stored
  cancel-Holds id reason now e s =
      let e' = with_store (evict_expired now e.state_store) e in
      elim (Option-cases (execution_of id e')) [
        | inl n ↦ rw n (read-Holds now e s)
        | inr (x, p) ↦ rw p (
            cancel_stored-Holds x reason now e' (read-Holds now e s)
              (lookup-IsStored id x e' (read-Holds now e s) p))
      ]

  delete_ended-Holds :
      (x : Execution V) (id : Text) (e : Engine V C)
      → Holds e
      → execution_of id e ≡ some x
      → Holds (delete_ended (some x) id e).1
  unfolding delete_ended delete_stored delete_found
  delete_ended-Holds x id e s p = elim (Bool-cases (is_terminal x.state)) [
    | inl t ↦ rw (t, p) (delete-Stored id s)
    | inr t ↦ rw t s
  ]

  pub delete_execution-Holds :
      (id : Text) (now : ℕ) (e : Engine V C) → Holds e → Holds (delete_execution id now e).1
  unfolding delete_execution get_execution delete_ended
  delete_execution-Holds id now e s =
      let e' = with_store (evict_expired now e.state_store) e in
      elim (Option-cases (execution_of id e')) [
        | inl n ↦ rw n (read-Holds now e s)
        | inr (x, p) ↦ rw p (delete_ended-Holds x id e' (read-Holds now e s) p)
      ]

  -- A new execution is stored under an identifier that is not in the store.
  create_and_dispatch-Holds :
      (v : V) (flow : Flow) (o : TriggerOptions V) (fresh : Text) (now : ℕ) (e : Engine V C)
      → Holds e
      → execution_of fresh e ≡ none
      → Holds (create_and_dispatch v flow o fresh now e)
  unfolding create_and_dispatch create_execution persist
  create_and_dispatch-Holds v flow o fresh now e s new =
      let x = create_execution fresh flow.name o.idempotency_key v o.user_id now in
      dispatch-Holds x flow o.timeout now _
        (set-Stored x s (create-IsWellFormed fresh flow.name _ v _ now))
        (get-set_self fresh x e.state_store.executions)

  pub continue_trigger-Holds :
      (pre : PreExecution V) (flow : Flow) (o : TriggerOptions V) (replay_of : Option Text)
      (fresh : Text) (now : ℕ) (e : Engine V C)
      → Holds e
      → execution_of fresh e ≡ none
      → Holds (continue_trigger pre flow o replay_of fresh now e).1
  unfolding continue_trigger
  continue_trigger-Holds (proceeds v) flow o replay_of fresh now e s new =
      mark_replay-Holds replay_of fresh _ (create_and_dispatch-Holds v flow o fresh now e s new)
  continue_trigger-Holds (throws code) flow o replay_of fresh now e s new = s
  continue_trigger-Holds (waits ticket) flow o replay_of fresh now e s new = s

  check_trigger-Holds :
      (f : Option Flow) (call : ℕ) (o : TriggerOptions V) (replay_of : Option Text) (now : ℕ)
      (e : Engine V C)
      → Holds e
      → Holds (check_trigger f call o replay_of now e).1
  unfolding check_trigger await_policy
  check_trigger-Holds none call o replay_of now e s = s
  check_trigger-Holds (some f) call o replay_of now e s = s

  trigger_unless-Holds :
      (id : Text) (call : ℕ) (flow_name : Text) (o : TriggerOptions V) (replay_of : Option Text)
      (now : ℕ) (e : Engine V C)
      → Holds e
      → Holds (trigger_unless (execution_of id e) call flow_name o replay_of now e).1
  unfolding trigger_unless
  trigger_unless-Holds id call flow_name o replay_of now e s =
      elim (Option-cases (execution_of id e)) [
        | inl n ↦ rw n (check_trigger-Holds _ call o replay_of now e s)
        | inr (x, p) ↦ rw p (
            subst (λ z. Holds (mark_replay replay_of z e).1) p (mark_replay-Holds replay_of id e s))
      ]

  -- By what the index of idempotency keys has.
  lookup-Holds :
      (k : Option Text) (call : ℕ) (flow_name : Text) (o : TriggerOptions V)
      (replay_of : Option Text) (now : ℕ) (e : Engine V C)
      → Holds e
      → Holds (trigger_unless (lookup_id k e.state_store) call flow_name o replay_of now e).1
  unfolding trigger_unless lookup_id
  lookup-Holds none call flow_name o replay_of now e s =
      check_trigger-Holds (Dict.get flow_name e.flow_registry) call o replay_of now e s
  lookup-Holds (some id) call flow_name o replay_of now e s = elim (Bool-cases (truthy (some id))) [
    | inl t ↦ rw t (trigger_unless-Holds id call flow_name o replay_of now e s)
    | inr t ↦
        rw t (check_trigger-Holds (Dict.get flow_name e.flow_registry) call o replay_of now e s)
  ]

  pub start_trigger-Holds :
      (call : ℕ) (flow_name : Text) (o : TriggerOptions V) (replay_of : Option Text) (now : ℕ)
      (e : Engine V C)
      → Holds e
      → Holds (start_trigger call flow_name o replay_of now e).1
  unfolding start_trigger start_admitted get_by_idempotency_key
  start_trigger-Holds call flow_name o replay_of now e s =
      elim (Option-cases (admits_trigger e.status o.idempotency_key)) [
        | inr (code, p) ↦ rw p s
        | inl p ↦
            let e' = with_store (evict_expired now e.state_store) e in
            rw p (
              lookup-Holds (Dict.get o.idempotency_key e'.state_store.idempotency_index) call
                flow_name o replay_of now e' (read-Holds now e s))
      ]
