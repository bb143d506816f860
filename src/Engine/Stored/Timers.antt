-- ===== src/Engine/Stored/Timers.antt =====
-- engine.ts: the stored executions through the callbacks of the timers.
use runcor.Common.{
  ℕ, ◌≡◌, refl, Text, some, true, false, leb, text_eq, arith, Bool-cases, inl, inr, Option-cases,
}
use runcor.Common.Dict
use runcor.Common.Dict.{Dict, get-set_self, get-delete_self}
use runcor.Execution.{Execution, running, waiting, retrying, allowed, is_terminal}
use runcor.Execution.Lifecycle.{extend, extend-IsWellFormed}
use runcor.StateStore.{state_beq}
use runcor.Engine.{Engine, Flow, Timer, execution_of}
use runcor.Engine.Moves.{transition_and_emit, persist, finalize_spans, clear_timers}
use runcor.Engine.Continuations.{
  ran_again, retry_fires_by, retry_fires, timeout_fires_by, timeout_fires, wait_timeout_fires_by,
  wait_timeout_fires,
}
use runcor.Engine.Stored.{Holds, IsStored, set-Stored}
use runcor.Engine.Stored.Moves.{
  transition_and_emit-ok, fail_and_free-Holds, fail_execution-Holds, lookup-IsStored,
}

module _ {V C : Type 0} where
  ran_again-Holds :
      (x : Execution V) (flow : Flow) (now : ℕ) (e : Engine V C)
      → Holds e
      → IsStored x e
      → x.state ≡ retrying
      → Holds (ran_again (transition_and_emit x running now e) flow e)
  unfolding extend ran_again persist allowed
  ran_again-Holds x flow now e s stored r =
      let a : allowed x.state running ≡ true = rw r refl in
      rw (transition_and_emit-ok x running now e a) (
        set-Stored (extend x running now) s
          (extend-IsWellFormed x running now a (s.formed x.id x stored)))

  -- By the timer and the execution that is stored.
  retry_fires_by-Holds :
      (t : Timer) (x : Execution V) (now : ℕ) (e : Engine V C)
      → Holds e
      → IsStored x e
      → Holds (retry_fires_by (some t) (some x) now e)
  unfolding retry_fires_by
  retry_fires_by-Holds t x now e s stored = elim (Bool-cases (leb t.due now)) [
    | inr n ↦ rw n s
    | inl due ↦ elim (Bool-cases (state_beq x.state retrying)) [
      | inr n ↦ rw (due, n) s
      | inl r ↦ rw (due, r) (ran_again-Holds x t.flow now _ s stored (ground arith))
    ]
  ]

  timeout_fires_by-Holds :
      (t : Timer) (x : Execution V) (now : ℕ) (e : Engine V C)
      → Holds e
      → IsStored x e
      → Holds (timeout_fires_by (some t) (some x) now e)
  unfolding timeout_fires_by
  timeout_fires_by-Holds t x now e s stored = elim (Bool-cases (leb t.due now)) [
    | inr n ↦ rw n s
    | inl due ↦ elim (Bool-cases (is_terminal x.state)) [
      | inl n ↦ rw (due, n) s
      | inr n ↦ rw (due, n) (fail_and_free-Holds x _ _ false now e s stored)
    ]
  ]

  wait_timeout_fires_by-Holds :
      (t : Timer) (x : Execution V) (now : ℕ) (e : Engine V C)
      → Holds e
      → IsStored x e
      → Holds (wait_timeout_fires_by (some t) (some x) now e)
  unfolding wait_timeout_fires_by finalize_spans clear_timers
  wait_timeout_fires_by-Holds t x now e s stored = elim (Bool-cases (leb t.due now)) [
    | inr n ↦ rw n s
    | inl due ↦ elim (Bool-cases (state_beq x.state waiting)) [
      | inr n ↦ rw (due, n) s
      | inl w ↦ rw (due, w) (fail_execution-Holds x _ _ false now (clear_timers x.id e) s stored)
    ]
  ]

  pub retry_fires-Holds :
      (id : Text) (now : ℕ) (e : Engine V C) → Holds e → Holds (retry_fires id now e)
  unfolding retry_fires retry_fires_by
  retry_fires-Holds id now e s = elim (Option-cases (Dict.get id e.retry_timers)) [
    | inl n ↦ rw n s
    | inr (t, p) ↦ elim (Option-cases (execution_of id e)) [
      | inl n ↦ rw (p, n) s
      | inr (x, q) ↦ rw (p, q) (retry_fires_by-Holds t x now e s (lookup-IsStored id x e s q))
    ]
  ]

  pub timeout_fires-Holds :
      (id : Text) (now : ℕ) (e : Engine V C) → Holds e → Holds (timeout_fires id now e)
  unfolding timeout_fires timeout_fires_by
  timeout_fires-Holds id now e s = elim (Option-cases (Dict.get id e.timeout_timers)) [
    | inl n ↦ rw n s
    | inr (t, p) ↦ elim (Option-cases (execution_of id e)) [
      | inl n ↦ rw (p, n) s
      | inr (x, q) ↦ rw (p, q) (timeout_fires_by-Holds t x now e s (lookup-IsStored id x e s q))
    ]
  ]

  pub wait_timeout_fires-Holds :
      (id : Text) (now : ℕ) (e : Engine V C) → Holds e → Holds (wait_timeout_fires id now e)
  unfolding wait_timeout_fires wait_timeout_fires_by
  wait_timeout_fires-Holds id now e s = elim (Option-cases (Dict.get id e.wait_timeout_timers)) [
    | inl n ↦ rw n s
    | inr (t, p) ↦ elim (Option-cases (execution_of id e)) [
      | inl n ↦ rw (p, n) s
      | inr (x, q) ↦
          rw (p, q) (wait_timeout_fires_by-Holds t x now e s (lookup-IsStored id x e s q))
    ]
  ]
