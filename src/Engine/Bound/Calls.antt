-- ===== src/Engine/Bound/Calls.antt =====
-- engine.ts: the count of active executions through the calls on an engine.
use runcor.Common.{
  not, ◌&&◌, ℕ, Text, codes, Option, none, some, List, [], ◌∷◌, false, text_eq, arith, Bool-cases,
  inl, inr, ◌||◌, nat_beq,
}
use runcor.Common.Dict
use runcor.Common.Dict.{Dict}
use runcor.Errors.{ErrorCode}
use runcor.Execution.{Execution, waiting, is_terminal}
use runcor.StateStore.{state_beq, get_by_idempotency_key, list_executions}
use runcor.Policy.Engine.{PreExecution, proceeds, throws, waits}
use runcor.Engine.{Engine, Flow, TriggerOptions, execution_of}
use runcor.Engine.Moves.{persist, clear_timers}
use runcor.Engine.Tasks.{arm_timeout}
use runcor.Engine.Calls.{
  admits_trigger, await_policy, check_trigger, mark_replay, trigger_unless, start_trigger,
  start_admitted, create_and_dispatch, continue_trigger, with_store,
}
use runcor.Engine.Resume.{rerun, resume_within, resume_flow}
use runcor.Engine.Ending.{
  cancel_stored, delete_ended, force_shutdown, fail_all, fail_listed, listed, is_shutting_down,
}
use runcor.Engine.Bound.{
  Bounded, fail_execution-Bounded, dispatch-Bounded, on_execution_terminal-Bounded,
}

module _ {V C : Type 0} (b : ℕ) where
  mark_replay-Bounded :
      (o : Option Text) (x : Option (Execution V)) (e : Engine V C)
      → Bounded b e
      → Bounded b (mark_replay o x e).1
  unfolding mark_replay persist
  mark_replay-Bounded none x e h = h
  mark_replay-Bounded (some id) none e h = h
  mark_replay-Bounded (some id) (some x) e h = h

  pub continue_trigger-Bounded :
      (pre : PreExecution V) (flow : Flow) (o : TriggerOptions V) (replay_of : Option Text)
      (fresh : Text) (now : ℕ) (e : Engine V C)
      → Bounded b e
      → Bounded b (continue_trigger pre flow o replay_of fresh now e).1
  unfolding continue_trigger create_and_dispatch persist
  continue_trigger-Bounded (proceeds v) flow o replay_of fresh now e h =
      mark_replay-Bounded replay_of _ (create_and_dispatch v flow o fresh now e)
        (dispatch-Bounded b _ flow o.timeout now _ h)
  continue_trigger-Bounded (throws code) flow o replay_of fresh now e h = h
  continue_trigger-Bounded (waits ticket) flow o replay_of fresh now e h = h

  check_trigger-Bounded :
      (f : Option Flow) (call : ℕ) (o : TriggerOptions V) (replay_of : Option Text) (now : ℕ)
      (e : Engine V C)
      → Bounded b e
      → Bounded b (check_trigger f call o replay_of now e).1
  unfolding check_trigger await_policy
  check_trigger-Bounded none call o replay_of now e h = h
  check_trigger-Bounded (some f) call o replay_of now e h = h

  trigger_unless-Bounded :
      (x : Option (Execution V)) (call : ℕ) (flow_name : Text) (o : TriggerOptions V)
      (replay_of : Option Text) (now : ℕ) (e : Engine V C)
      → Bounded b e
      → Bounded b (trigger_unless x call flow_name o replay_of now e).1
  unfolding trigger_unless
  trigger_unless-Bounded none call flow_name o replay_of now e h =
      check_trigger-Bounded (Dict.get flow_name e.flow_registry) call o replay_of now e h
  trigger_unless-Bounded (some x) call flow_name o replay_of now e h =
      mark_replay-Bounded replay_of (some x) e h

  start_admitted-Bounded :
      (c : Option ErrorCode) (call : ℕ) (flow_name : Text) (o : TriggerOptions V)
      (replay_of : Option Text) (now : ℕ) (e : Engine V C)
      → Bounded b e
      → Bounded b (start_admitted c call flow_name o replay_of now e).1
  unfolding start_admitted
  start_admitted-Bounded (some c) call flow_name o replay_of now e h = h
  start_admitted-Bounded none call flow_name o replay_of now e h =
      let (x, st) = get_by_idempotency_key o.idempotency_key now e.state_store in
      trigger_unless-Bounded x call flow_name o replay_of now (with_store st e) h

  pub start_trigger-Bounded :
      (call : ℕ) (flow_name : Text) (o : TriggerOptions V) (replay_of : Option Text) (now : ℕ)
      (e : Engine V C)
      → Bounded b e
      → Bounded b (start_trigger call flow_name o replay_of now e).1
  unfolding start_trigger
  start_trigger-Bounded call flow_name o replay_of now e h =
      start_admitted-Bounded (admits_trigger e.status o.idempotency_key) call flow_name o replay_of
        now e h

  pub cancel_stored-Bounded :
      (x : Option (Execution V)) (reason : Option Text) (now : ℕ) (e : Engine V C)
      → Bounded b e
      → Bounded b (cancel_stored x reason now e).1
  unfolding cancel_stored clear_timers
  cancel_stored-Bounded none reason now e h = h
  cancel_stored-Bounded (some x) reason now e h = elim (Bool-cases (is_terminal x.state)) [
    | inl t ↦ rw t h
    | inr t ↦ rw t (fail_execution-Bounded b x _ _ false now (clear_timers x.id e) h)
  ]

  pub delete_ended-Bounded :
      (x : Option (Execution V)) (id : Text) (e : Engine V C)
      → Bounded b e
      → Bounded b (delete_ended x id e).1
  unfolding delete_ended
  delete_ended-Bounded none id e h = h
  delete_ended-Bounded (some x) id e h = ground (arith, h)

  fail_listed-Bounded :
      (x : Option (Execution V)) (now : ℕ) (e : Engine V C)
      → Bounded b e
      → Bounded b (fail_listed x now e)
  unfolding fail_listed clear_timers
  fail_listed-Bounded none now e h = h
  fail_listed-Bounded (some x) now e h =
      elim (Bool-cases (is_terminal x.state || state_beq x.state waiting)) [
        | inl t ↦ rw t h
        | inr t ↦ rw t (fail_execution-Bounded b x _ _ false now (clear_timers x.id e) h)
      ]

  fail_all-Bounded :
      (xs : List (Execution V)) (now : ℕ) (e : Engine V C)
      → Bounded b e
      → Bounded b (fail_all xs now e)
  unfolding fail_all
  fail_all-Bounded [] now e h = h
  fail_all-Bounded (x ∷ xs) now e h =
      fail_all-Bounded xs now (fail_listed (execution_of x.id e) now e)
        (fail_listed-Bounded (execution_of x.id e) now e h)

  pub force_shutdown-Bounded :
      (now : ℕ) (e : Engine V C) → Bounded b e → Bounded b (force_shutdown now e)
  unfolding force_shutdown
  force_shutdown-Bounded now e h = elim (Bool-cases (is_shutting_down e.status && not e.drained)) [
    | inl p ↦
        let (xs, st) = list_executions none now e.state_store in
        rw p (fail_all-Bounded xs now (with_store st e) h)
    | inr p ↦ rw p h
  ]

  pub listed-Bounded :
      (pre : PreExecution V) (flow_name : Option Text) (now : ℕ) (e : Engine V C)
      → Bounded b e
      → Bounded b (listed pre flow_name now e).1
  unfolding listed
  listed-Bounded (proceeds v) flow_name now e h = h
  listed-Bounded (throws code) flow_name now e h = h
  listed-Bounded (waits ticket) flow_name now e h = h

  pub resume_within-Bounded :
      (r : Option ℕ) (x : Execution V) (flow : Flow) (now : ℕ) (e : Engine V C)
      → Bounded b e
      → Bounded b (resume_within r x flow now e)
  unfolding resume_within rerun arm_timeout
  resume_within-Bounded none x flow now e h = h
  resume_within-Bounded (some r) x flow now e h = elim (Bool-cases (nat_beq r 0)) [
    | inl z ↦
        rw z (
          on_execution_terminal-Bounded b x.id now _ (fail_execution-Bounded b x _ _ false now e h))
    | inr z ↦ rw z (ground (arith, h))
  ]

  pub resume_flow-Bounded :
      (f g : Option Flow) (x : Execution V) (now : ℕ) (e : Engine V C)
      → Bounded b e
      → Bounded b (resume_flow f g x now e)
  unfolding resume_flow
  resume_flow-Bounded (some f) g x now e h = resume_within-Bounded _ x f now e h
  resume_flow-Bounded none (some g) x now e h = resume_within-Bounded _ x g now _ h
  resume_flow-Bounded none none x now e h =
      let f =
        fail_execution-Bounded b x (codes "Flow not found for resume")
          (some (codes "FLOW_NOT_FOUND")) false now e h in
      (f.0, omega (arith, f.1))
