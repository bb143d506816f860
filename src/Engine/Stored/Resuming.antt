-- ===== src/Engine/Stored/Resuming.antt =====
-- engine.ts: the stored executions through `resume`, `replay`, `shutdown` and `listWaiting`.
use runcor.Common.{
  ℕ, ◌≡◌, ◌⊎◌, refl, Text, Option, none, some, true, false, text_eq, arith, Bool-cases, inl, inr,
  Option-cases, nat_beq, ltb,
}
use runcor.Common.Dict
use runcor.Common.Dict.{Dict, get-set_self, get-delete_self, get-set}
use runcor.Execution.{State, Execution, running, waiting, allowed, is_terminal}
use runcor.Execution.Lifecycle.{extend, extend-IsWellFormed}
use runcor.StateStore.{state_beq, get_execution, evict_expired}
use runcor.Policy.Engine.{PreExecution, proceeds, throws, waits}
use runcor.Engine.{Engine, Flow, TriggerOptions, Task, in_run, in_resume, execution_of, object_of}
use runcor.Engine.Moves.{persist, fail_execution}
use runcor.Engine.Tasks.{arm_timeout}
use runcor.Engine.Calls.{await_policy, with_store}
use runcor.Engine.Resume.{
  start_resume, check_resume, rerun, resume_within, resume_flow, resumed_run, resume_execution,
  resume_fresh, continue_resume, resume_stored, resume_stored_by, resumed_object, check_replay,
  replay_stored, start_replay, continue_replay,
}
use runcor.Engine.Stored.{Holds, IsStored, set-Stored}
use runcor.Engine.Stored.Calls.{read-Holds, start_trigger-Holds}
use runcor.Engine.Stored.Moves.{
  transition_and_emit-ok, same_log, on_execution_terminal-Holds, fail_execution-Holds,
  lookup-IsStored,
}

pub waiting_resumes : (s : State) → state_beq s waiting ≡ true → allowed s running ≡ true
unfolding allowed
waiting_resumes s h = ground arith

module _ {V C : Type 0} where
  fail_object-Holds :
      (x : Execution V) (message : Text) (code : Option Text) (now : ℕ) (e : Engine V C)
      → Holds e
      → IsStored x e ⊎ (is_terminal x.state ≡ true)
      → Holds (fail_execution x message code false now e)
  unfolding fail_execution
  fail_object-Holds x message code now e s (inl stored) =
      fail_execution-Holds x message code false now e s stored
  fail_object-Holds x message code now e s (inr t) = rw t s

  resume_within-Holds :
      (r : Option ℕ) (x : Execution V) (flow : Flow) (now : ℕ) (e : Engine V C)
      → Holds e
      → IsStored x e ⊎ (is_terminal x.state ≡ true)
      → Holds (resume_within r x flow now e)
  unfolding resume_within arm_timeout rerun
  resume_within-Holds none x flow now e s stored = s
  resume_within-Holds (some r) x flow now e s stored = elim (Bool-cases (nat_beq r 0)) [
    | inl z ↦ rw z (on_execution_terminal-Holds x.id now _ (fail_object-Holds x _ _ now e s stored))
    | inr z ↦ elim (Bool-cases (ltb 0 r)) [ inl p ↦ rw (z, p) s | inr p ↦ rw (z, p) s ]
  ]

  resume_flow-Holds :
      (f g : Option Flow) (x : Execution V) (now : ℕ) (e : Engine V C)
      → Holds e
      → IsStored x e ⊎ (is_terminal x.state ≡ true)
      → Holds (resume_flow f g x now e)
  unfolding resume_flow
  resume_flow-Holds (some f) g x now e s stored = resume_within-Holds _ x f now e s stored
  resume_flow-Holds none (some g) x now e s stored = resume_within-Holds _ x g now _ s stored
  resume_flow-Holds none none x now e s stored = fail_object-Holds x _ _ now e s stored

  object-IsStored :
      (o : Option (Execution V)) (held : Execution V) (id : Text) (e : Engine V C)
      → Holds e
      → execution_of id e ≡ o
      → let x = object_of o held in IsStored x e ⊎ (is_terminal x.state ≡ true)
  object-IsStored none held id e s p = inr refl
  object-IsStored (some x) held id e s p = inl (lookup-IsStored id x e s p)

  resume_stored_by-Holds :
      (t : Task V) (id : Text) (now : ℕ) (e : Engine V C)
      → Holds e
      → Holds (resume_stored_by (some t) (execution_of id e) id now e)
  unfolding resume_stored_by resumed_object
  resume_stored_by-Holds (in_run flow p) id now e s = s
  resume_stored_by-Holds (in_resume held) id now e s =
      resume_flow-Holds _ _ (object_of (execution_of id e) held) now _ s
        (object-IsStored (execution_of id e) held id e s refl)

  pub resume_stored-Holds :
      (id : Text) (now : ℕ) (e : Engine V C) → Holds e → Holds (resume_stored id now e)
  unfolding resume_stored resume_stored_by resumed_object
  resume_stored-Holds id now e s = elim (Option-cases (Dict.get id e.tasks)) [
    | inl n ↦ rw n s
    | inr (t, p) ↦ rw p (resume_stored_by-Holds t id now e s)
  ]

  -- A stored waiting execution is running again.
  resume_execution-Holds :
      (x : Execution V) (d : Option V) (now : ℕ) (e : Engine V C)
      → Holds e
      → IsStored x e
      → state_beq x.state waiting ≡ true
      → Holds (resume_execution x d now e)
  unfolding extend resume_execution resumed_run persist
  resume_execution-Holds x d now e s stored w =
      let y : Execution V = record x { resume_data = d; wait_context = none } in
      let a = waiting_resumes x.state w in
      rw (transition_and_emit-ok y running now _ a) (
        set-Stored (extend y running now) s
          (extend-IsWellFormed y running now a (same_log y refl refl (s.formed x.id x stored))))

module _ {V C : Type 0} (stringify : V → Text) where
  pub continue_resume-Holds :
      (pre : PreExecution V) (id : Text) (d : Option V) (now : ℕ) (e : Engine V C)
      → Holds e
      → Holds (continue_resume stringify pre id d now e).1
  unfolding continue_resume resume_fresh get_execution
  continue_resume-Holds (throws code) id d now e s = s
  continue_resume-Holds (waits ticket) id d now e s = s
  continue_resume-Holds (proceeds v) id d now e s =
      let e' = with_store (evict_expired now e.state_store) e in
      let s' = read-Holds now e s in
      elim (Option-cases (execution_of id e')) [
        | inl n ↦ rw n s'
        | inr (x, p) ↦ elim (Bool-cases (state_beq x.state waiting)) [
          | inl w ↦
              rw (p, w) (resume_execution-Holds x d now e' s' (lookup-IsStored id x e' s' p) w)
          | inr w ↦ rw (p, w) s'
        ]
      ]

module _ {V C : Type 0} (stringify : V → Text) (null empty : V) where
  pub start_resume-Holds :
      (call : ℕ) (id : Text) (d : Option V) (now : ℕ) (e : Engine V C)
      → Holds e
      → Holds (start_resume stringify null empty call id d now e).1
  unfolding start_resume check_resume get_execution await_policy
  start_resume-Holds call id d now e s =
      let e' = with_store (evict_expired now e.state_store) e in
      let s' = read-Holds now e s in
      elim (Option-cases (execution_of id e')) [
        | inl n ↦ rw n s'
        | inr (x, p) ↦ elim (Bool-cases (state_beq x.state waiting)) [
          | inl w ↦ rw (p, w) s'
          | inr w ↦ rw (p, w) s'
        ]
      ]

module _ {V C : Type 0} (empty : V) where
  check_replay-Holds :
      (f : Option Flow) (x : Execution V) (call now : ℕ) (e : Engine V C)
      → Holds e
      → Holds (check_replay empty f x call now e).1
  unfolding check_replay await_policy
  check_replay-Holds none x call now e s = s
  check_replay-Holds (some f) x call now e s = s

  pub start_replay-Holds :
      (call : ℕ) (id : Text) (now : ℕ) (e : Engine V C)
      → Holds e
      → Holds (start_replay empty call id now e).1
  unfolding start_replay replay_stored get_execution
  start_replay-Holds call id now e s =
      let e' = with_store (evict_expired now e.state_store) e in
      let s' = read-Holds now e s in
      elim (Option-cases (execution_of id e')) [
        | inl n ↦ rw n s'
        | inr (x, p) ↦ elim (Bool-cases (is_terminal x.state)) [
          | inl t ↦ rw (p, t) (check_replay-Holds _ x call now e' s')
          | inr t ↦ rw (p, t) s'
        ]
      ]

  pub continue_replay-Holds :
      (pre : PreExecution V) (call : ℕ) (x : Execution V) (o : Option (TriggerOptions V))
      (key : Text) (now : ℕ) (e : Engine V C)
      → Holds e
      → Holds (continue_replay empty pre call x o key now e).1
  unfolding continue_replay
  continue_replay-Holds (proceeds v) call x o key now e s =
      start_trigger-Holds call x.flow_name _ (some x.id) now e s
  continue_replay-Holds (throws code) call x o key now e s = s
  continue_replay-Holds (waits ticket) call x o key now e s = s
