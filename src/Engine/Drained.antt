-- ===== src/Engine/Drained.antt =====
-- engine.ts: what a forced shutdown leaves in the store.
use runcor.Common.{
  ℕ, ◌≡◌, ◌⊎◌, refl, Text, codes, none, some, List, [], ◌∷◌, map, Bool, true, false, text_eq,
  text_beq, text_beq_iff, arith, Bool-cases, inl, inr, Option-cases, ◌||◌, includes, sym, subst,
  ◌∙◌,
}
use runcor.Common.Dict
use runcor.Common.Dict.{Dict, values, get-set, get-set_self}
use runcor.Execution.{Execution, waiting, failed, is_terminal}
use runcor.Execution.Lifecycle.{extend}
use runcor.StateStore.{state_beq, list_executions, evict_expired}
use runcor.Engine.{Engine, stopped, shutting_down, execution_of}
use runcor.Engine.Moves.{fail_execution, emit_failed, persist, finalize_spans, clear_timers}
use runcor.Engine.Ending.{fail_listed, fail_all, force_shutdown, stop_engine, is_shutting_down}
use runcor.Engine.Calls.{with_store}
use runcor.Engine.Stored.{Holds}
use runcor.Engine.Stored.Moves.{transition_and_emit-ok, allowed_failed}
use runcor.Engine.Stored.Calls.{read-Holds}
use runcor.Engine.Stored.Shutdown.{fail_listed-Holds}

abbrev pub id_of : {V : Type 0} → Execution V → Text
id_of x = x.id

-- An execution that has ended or waits.
abbrev pub is_settled : {V : Type 0} → Execution V → Bool
is_settled x = is_terminal x.state || state_beq x.state waiting

-- Each stored execution is settled, or its id is one of the list.
abbrev Remain : {V C : Type 0} → List Text → Engine V C → Type 0
Remain ids e =
    (k : Text) (z : _) → execution_of k e ≡ some z → (is_settled z ≡ true) ⊎ (includes ids k ≡ true)

includes-values :
    {V : Type 0} (k : Text) (z : Execution V) (m : Dict Text (Execution V))
    → Dict.get k m ≡ some z
    → z.id ≡ k
    → includes (map id_of (values m)) k ≡ true
unfolding Dict.get
includes-values k z [] p n = cc
includes-values k z ((j, y) ∷ m) p n =
    ground (arith, includes-values k z m, text_beq_iff j k, text_beq_iff y.id k, n)

shorter :
    {V : Type 0} (id : Text) (ids : List Text) (k : Text) (z : Execution V)
    → (is_settled z ≡ true) ⊎ (includes (id ∷ ids) k ≡ true)
    → text_beq id k ≡ false
    → (is_settled z ≡ true) ⊎ (includes ids k ≡ true)
shorter id ids k z (inl s) n = inl s
shorter id ids k z (inr i) n = inr (ground (arith, text_beq_iff id k, text_beq_iff k id))

without_head :
    {V C : Type 0} (id : Text) (ids : List Text) (e : Engine V C)
    → Remain (id ∷ ids) e
    → ((z : Execution V) → execution_of id e ≡ some z → is_settled z ≡ true)
    → Remain ids e
without_head id ids e h f k z p = elim (Bool-cases (text_beq id k)) [
  | inl t ↦ inl (f z (subst (λ j. execution_of j e ≡ some z) (sym ((text_beq_iff id k).0 t)) p))
  | inr t ↦ shorter id ids k z (h k z p) t
]

module _ {V C : Type 0} where
  -- A listed execution that is not settled has failed afterwards.
  fail_listed-failed :
      (x : Execution V) (now : ℕ) (e : Engine V C)
      → is_settled x ≡ false
      → (y : Execution V) × (is_settled y ≡ true)
        × ((fail_listed (some x) now e).state_store.executions
            ≡ Dict.set x.id y e.state_store.executions)
  unfolding extend fail_listed fail_execution emit_failed persist finalize_spans clear_timers
  fail_listed-failed x now e n =
      let live : is_terminal x.state ≡ false = ground arith in
      let y : Execution V = record x {
        error = some (record {
          message = codes "Engine shutting down";
          stack = none;
          retryable = false;
          retries = x.retry_count;
          code = some (codes "SHUTDOWN");
        });
      } in
      (
        extend y failed now,
        refl,
        rw
            (
              n,
              live,
              transition_and_emit-ok y failed now (clear_timers x.id e)
                  (allowed_failed x.state live),
            )
            refl,
      )

  fail_listed-Remain :
      (id : Text) (ids : List Text) (now : ℕ) (e : Engine V C)
      → Holds e
      → Remain (id ∷ ids) e
      → Remain ids (fail_listed (execution_of id e) now e)
  unfolding fail_listed
  fail_listed-Remain id ids now e s h = elim (Option-cases (execution_of id e)) [
    | inl n ↦ rw n (without_head id ids e h (λ z q. cc))
    | inr (x, p) ↦ elim (Bool-cases (is_settled x)) [
      | inl q ↦ rw (p, q) (without_head id ids e h (λ z r. ground (arith, q, p, r)))
      | inr q ↦
          let (y, settled, eq) = fail_listed-failed x now e q in
          let i : x.id ≡ id = s.named id x p in
          rw p (λ k z r. elim (Bool-cases (text_beq x.id k)) [
            | inl t ↦
                inl (ground (arith, get-set x.id k y e.state_store.executions, settled, eq, r))
            | inr t ↦
                shorter id ids k z
                  (h k z (ground (arith, get-set x.id k y e.state_store.executions, eq, r)))
                  (ground (arith, i, t))
          ])
    ]
  ]

  fail_all-Remain :
      (xs : List (Execution V)) (now : ℕ) (e : Engine V C)
      → Holds e
      → Remain (map id_of xs) e
      → Remain [] (fail_all xs now e)
  unfolding fail_all
  fail_all-Remain [] now e s h = h
  fail_all-Remain (x ∷ xs) now e s h =
      fail_all-Remain xs now (fail_listed (execution_of x.id e) now e)
        (fail_listed-Holds x.id now e s) (fail_listed-Remain x.id (map id_of xs) now e s h)

  fail_listed-status :
      (id : Text) (now : ℕ) (e : Engine V C)
      → (fail_listed (execution_of id e) now e).status ≡ e.status
  unfolding fail_listed fail_execution emit_failed persist finalize_spans clear_timers
  fail_listed-status id now e = elim (Option-cases (execution_of id e)) [
    | inl n ↦ rw n refl
    | inr (x, p) ↦ elim (Bool-cases (is_settled x)) [
      | inl q ↦ rw (p, q) refl
      | inr q ↦
          let live : is_terminal x.state ≡ false = ground arith in
          let y : Execution V = record x {
            error = some (record {
              message = codes "Engine shutting down";
              stack = none;
              retryable = false;
              retries = x.retry_count;
              code = some (codes "SHUTDOWN");
            });
          } in
          rw
            (
              p,
              q,
              live,
              transition_and_emit-ok y failed now (clear_timers x.id e)
                  (allowed_failed x.state live),
            )
            refl
    ]
  ]

  fail_all-status :
      (xs : List (Execution V)) (now : ℕ) (e : Engine V C) → (fail_all xs now e).status ≡ e.status
  unfolding fail_all
  fail_all-status [] now e = refl
  fail_all-status (x ∷ xs) now e =
      fail_all-status xs now (fail_listed (execution_of x.id e) now e)
      ∙ fail_listed-status x.id now e

  force_shutdown-fails :
      (now : ℕ) (e : Engine V C)
      → e.status ≡ shutting_down
      → e.drained ≡ false
      → let e0 = with_store (evict_expired now e.state_store) e in
        force_shutdown now e
        ≡ record (fail_all (values e0.state_store.executions) now e0) { drained = true }
  unfolding force_shutdown list_executions
  force_shutdown-fails now e down waits =
      let ending : is_shutting_down e.status ≡ true = rw down refl in rw (ending, waits) refl

  stop_engine-stopped :
      (e : Engine V C)
      → e.status ≡ shutting_down
      → e.drained ≡ true
      → ((stop_engine e).status ≡ stopped) × ((stop_engine e).state_store ≡ e.state_store)
  unfolding stop_engine
  stop_engine-stopped e down drained = rw (down, drained) (refl, refl)

  -- The drain timeout of `shutdown` passes while an engine is shutting down that still waits for
  -- its executions, and whose stored executions stand under their ids, as in every reachable one.
  -- Then every execution that is stored has ended or waits to be resumed, while the engine is still
  -- shutting down; and when the rest of `shutdown` follows, the engine has stopped with the same
  -- executions.
  pub force_shutdown-settles :
      (now : ℕ) (e : Engine V C)
      → Holds e
      → e.status ≡ shutting_down
      → e.drained ≡ false
      → let e1 = force_shutdown now e in
        let e2 = stop_engine e1 in
        ((id : Text) (x : Execution V) → execution_of id e1 ≡ some x → is_settled x ≡ true)
        × (e1.status ≡ shutting_down)
        × (e2.status ≡ stopped)
        × (e2.state_store ≡ e1.state_store)
  force_shutdown-settles now e s down waits =
      let e0 = with_store (evict_expired now e.state_store) e in
      let s0 = read-Holds now e s in
      let m = e0.state_store.executions in
      let failed = fail_all (values m) now e0 in
      let kept : failed.status ≡ shutting_down = fail_all-status (values m) now e0 ∙ down in
      let ended = stop_engine-stopped (record failed { drained = true }) kept refl in
      subst
        (λ e1.
          let e2 = stop_engine e1 in
          ((id : Text) (x : Execution V) → execution_of id e1 ≡ some x → is_settled x ≡ true)
          × (e1.status ≡ shutting_down)
          × (e2.status ≡ stopped)
          × (e2.state_store ≡ e1.state_store))
        (sym (force_shutdown-fails now e down waits))
        (
          λ id x p.
              elim (fail_all-Remain (values m) now e0 s0
                (λ k z q. inr (includes-values k z m q (s0.named k z q))) id x p) [
                  | inl t ↦ t
                  | inr i ↦ cc
                ],
          kept,
          ended.0,
          ended.1,
        )
