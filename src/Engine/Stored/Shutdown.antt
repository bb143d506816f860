-- ===== src/Engine/Stored/Shutdown.antt =====
-- engine.ts: the stored executions through `shutdown` and `listWaiting`.
use runcor.Common.{
  ℕ, Text, Option, List, [], ◌∷◌, false, text_eq, arith, Bool-cases, inl, inr, Option-cases, ◌||◌,
  ◌&&◌, not,
}
use runcor.Execution.{Execution, waiting, is_terminal}
use runcor.StateStore.{state_beq, list_executions}
use runcor.Policy.Engine.{PreExecution, proceeds, throws, waits}
use runcor.Engine.{Engine, execution_of}
use runcor.Engine.Moves.{clear_timers}
use runcor.Engine.Ending.{
  begin_shutdown, finish_shutdown, force_shutdown, stop_engine, fail_all, fail_listed, list_waiting,
  listed, is_shutting_down,
}
use runcor.Engine.Stored.{Holds}
use runcor.Engine.Stored.Moves.{fail_execution-Holds, lookup-IsStored}
use runcor.Engine.Stored.Calls.{read-Holds}

module _ {V C : Type 0} where
  pub fail_listed-Holds :
      (id : Text) (now : ℕ) (e : Engine V C)
      → Holds e
      → Holds (fail_listed (execution_of id e) now e)
  unfolding fail_listed clear_timers
  fail_listed-Holds id now e s = elim (Option-cases (execution_of id e)) [
    | inl n ↦ rw n s
    | inr (x, p) ↦ elim (Bool-cases (is_terminal x.state || state_beq x.state waiting)) [
      | inl t ↦ rw (p, t) s
      | inr t ↦
          rw (p, t)
            (fail_execution-Holds x _ _ false now (clear_timers x.id e) s
              (lookup-IsStored id x e s p))
    ]
  ]

  fail_all-Holds :
      (xs : List (Execution V)) (now : ℕ) (e : Engine V C) → Holds e → Holds (fail_all xs now e)
  unfolding fail_all
  fail_all-Holds [] now e s = s
  fail_all-Holds (x ∷ xs) now e s =
      fail_all-Holds xs now (fail_listed (execution_of x.id e) now e)
        (fail_listed-Holds x.id now e s)

  pub begin_shutdown-Holds : (e : Engine V C) → Holds e → Holds (begin_shutdown e)
  unfolding begin_shutdown
  begin_shutdown-Holds e s = ground (arith, s)

  pub finish_shutdown-Holds : (e : Engine V C) → Holds e → Holds (finish_shutdown e)
  unfolding finish_shutdown
  finish_shutdown-Holds e s = ground (arith, s)

  pub stop_engine-Holds : (e : Engine V C) → Holds e → Holds (stop_engine e)
  unfolding stop_engine
  stop_engine-Holds e s = ground (arith, s)

  pub force_shutdown-Holds : (now : ℕ) (e : Engine V C) → Holds e → Holds (force_shutdown now e)
  unfolding force_shutdown list_executions
  force_shutdown-Holds now e s = elim (Bool-cases (is_shutting_down e.status && not e.drained)) [
    | inl p ↦ rw p (fail_all-Holds _ now _ (read-Holds now e s))
    | inr p ↦ rw p s
  ]

  listed-Holds :
      (pre : PreExecution V) (flow_name : Option Text) (now : ℕ) (e : Engine V C)
      → Holds e
      → Holds (listed pre flow_name now e).1
  unfolding listed list_executions
  listed-Holds (proceeds v) flow_name now e s = read-Holds now e s
  listed-Holds (throws code) flow_name now e s = s
  listed-Holds (waits ticket) flow_name now e s = read-Holds now e s

  pub list_waiting-Holds :
      (flow_name user_id tenant_id : Option Text) (null metadata : V) (now : ℕ) (e : Engine V C)
      → Holds e
      → Holds (list_waiting flow_name user_id tenant_id null metadata now e).1
  unfolding list_waiting
  list_waiting-Holds flow_name user_id tenant_id null metadata now e s =
      listed-Holds _ flow_name now _ s
