-- ===== src/Engine/Idempotence.antt =====
-- engine.ts: a second `trigger` with the key of an execution that a first one has created.
use runcor.Common.{
  ℕ, ◌≡◌, refl, sym, Text, Option, none, some, List, [], ◌∷◌, map, true, false, text_eq, text_beq,
  text_beq_iff, arith, Bool-cases, inl, inr, leb, includes, filter_by, All, ◌&&◌, nat_beq, truthy,
  subst,
}
use runcor.Common.Dict
use runcor.Common.Dict.{Dict, values, get-set, get-set_self, get-delete_all}
use runcor.Common.Distinct.{Distinct, set-Distinct, All-values}
use runcor.Errors.{ok}
use runcor.Execution.{Execution, queued, running, is_terminal, create_execution, allowed}
use runcor.Execution.Lifecycle.{extend}
use runcor.StateStore.{
  StateStore, evict_expired, is_expired, key_of, lookup_id, get_by_idempotency_key, set_execution,
  state_beq,
}
use runcor.StateStore.Retention.{evict-lookup}
use runcor.Policy.Engine.{proceeds}
use runcor.Engine.{Engine, Flow, TriggerOptions, execution_of}
use runcor.Engine.Moves.{persist}
use runcor.Engine.Tasks.{dispatch, run_execution, started_run}
use runcor.Engine.Calls.{
  admits_trigger, create_and_dispatch, continue_trigger, start_trigger, start_admitted,
  trigger_unless, mark_replay,
}
use runcor.Engine.Stored.Moves.{transition_and_emit-ok, queued_iff}

module _ {V : Type 0} where
  -- No expired execution of the store has the key.
  abbrev Unexpired : ℕ → ℕ → Text → Execution V → Type 0
  Unexpired period now key x = (is_expired period now x && text_beq x.idempotency_key key) ≡ false

  kept_key :
      (period now : ℕ) (key : Text) (xs : List (Execution V))
      → All (Unexpired period now key) xs
      → includes (map key_of (filter_by (is_expired period now) xs)) key ≡ false
  kept_key period now key [] h = refl
  kept_key period now key (x ∷ xs) h = ground (arith, kept_key period now key xs h.1, h.0)

  -- The execution `y` with the id `id` is live and the only one with its key.
  pub record HasAlone (key id : Text) (y : Execution V) (st : StateStore V) : Type 0 where
    pub distinct : Distinct st.executions
    pub indexed : Dict.get key st.idempotency_index ≡ some id
    pub stored : Dict.get id st.executions ≡ some y
    pub live : is_terminal y.state ≡ false
    pub alone :
        (k : Text) (z : Execution V)
        → Dict.get k st.executions ≡ some z
        → text_beq z.idempotency_key key ≡ true
        → k ≡ id

  unexpired :
      (key id : Text) (now : ℕ) (y : Execution V) (st : StateStore V)
      → HasAlone key id y st
      → (k : Text) (z : Execution V) → Dict.get k st.executions ≡ some z
      → Unexpired st.retention_period_ms now key z
  unexpired key id now y st h k z p = elim (Bool-cases (text_beq z.idempotency_key key)) [
    | inr n ↦ ground (arith, n)
    | inl e ↦
        let q : Dict.get id st.executions ≡ some z =
          subst (λ j. Dict.get j st.executions ≡ some z) (h.alone k z p e) p in
        ground (arith, h.live, h.stored, q)
  ]

  index_kept :
      (key id : Text) (now : ℕ) (y : Execution V) (st : StateStore V)
      → HasAlone key id y st
      → Dict.get key (evict_expired now st).idempotency_index ≡ some id
  unfolding evict_expired
  index_kept key id now y st h =
      let period = st.retention_period_ms in
      let gone = map key_of (filter_by (is_expired period now) (values st.executions)) in
      let kept = kept_key period now key (values st.executions) (
        All-values (Unexpired period now key) st.executions h.distinct
          (unexpired key id now y st h)) in
      elim (Bool-cases (nat_beq period 0)) [
        | inl z ↦ rw z h.indexed
        | inr z ↦ rw (z, get-delete_all gone key st.idempotency_index, kept) h.indexed
      ]

  execution_kept :
      (key id : Text) (now : ℕ) (y : Execution V) (st : StateStore V)
      → HasAlone key id y st
      → Dict.get id (evict_expired now st).executions ≡ some y
  execution_kept key id now y st h =
      ground (arith, evict-lookup id now st h.distinct, h.stored, h.live)

  found_by_key :
      (key id : Text) (now : ℕ) (y : Execution V) (st : StateStore V)
      → truthy (some id) ≡ true
      → HasAlone key id y st
      → (get_by_idempotency_key key now st).0 ≡ some y
  unfolding get_by_idempotency_key lookup_id
  found_by_key key id now y st t h =
      rw (index_kept key id now y st h, t, execution_kept key id now y st h) refl

  stored-HasAlone :
      (y : Execution V) (st : StateStore V)
      → Distinct st.executions
      → is_terminal y.state ≡ false
      → ((k : Text) (z : Execution V)
          → Dict.get k st.executions ≡ some z
          → text_beq z.idempotency_key y.idempotency_key ≡ true
          → k ≡ y.id)
      → HasAlone y.idempotency_key y.id y (set_execution y st)
  unfolding set_execution
  stored-HasAlone y st d live alone = record {
    distinct = set-Distinct y.id y st.executions d;
    indexed = get-set_self y.idempotency_key y.id st.idempotency_index;
    stored = get-set_self y.id y st.executions;
    live = live;
    alone = λ k z p e. elim (Bool-cases (text_beq y.id k)) [
      | inl q ↦ sym ((text_beq_iff y.id k).0 q)
      | inr q ↦ alone k z (ground (arith, get-set y.id k y st.executions)) e
    ];
  }

module _ {V C : Type 0} where
  -- The store after a new execution has been dispatched or left queued.
  dispatched-HasAlone :
      (x : Execution V) (flow : Flow) (o : Option ℕ) (now : ℕ) (e : Engine V C)
      → state_beq x.state queued ≡ true
      → HasAlone x.idempotency_key x.id x e.state_store
      → let e' = dispatch x flow o now e in
        ((y : Execution V) × HasAlone x.idempotency_key x.id y e'.state_store)
        × (e'.status ≡ e.status)
        × (e'.pending ≡ e.pending)
  unfolding extend dispatch run_execution started_run persist allowed set_execution
  dispatched-HasAlone x flow o now e q h =
      let a : allowed x.state running ≡ true = rw (queued_iff x.state q) refl in
      let ran = stored-HasAlone (extend x running now) e.state_store h.distinct refl h.alone in
      elim (Bool-cases (leb e.concurrency e.active_executions)) [
        | inl f ↦ rw (q, f) ((x, h), refl, refl)
        | inr f ↦
            rw (q, f, transition_and_emit-ok x running now _ a)
              ((extend x running now, ran), refl, refl)
      ]

  -- While the engine is ready: an execution that `trigger` has created is what every later `trigger`
  -- with its key returns, whichever flow and input it names, as long as nothing else has happened,
  -- and it creates nothing. The identifier is new and not empty, the key is not blank, and no
  -- execution that was stored had it.
  pub trigger-repeated :
      (v : V) (flow : Flow) (o o' : TriggerOptions V) (fresh : Text) (now then_now call : ℕ)
      (flow_name : Text) (e : Engine V C)
      → Distinct e.state_store.executions
      → execution_of fresh e ≡ none
      → truthy (some fresh) ≡ true
      → admits_trigger e.status o.idempotency_key ≡ none
      → ((k : Text) (z : Execution V)
          → execution_of k e ≡ some z
          → text_beq z.idempotency_key o.idempotency_key ≡ false)
      → o'.idempotency_key ≡ o.idempotency_key
      → let (created, e') = continue_trigger (proceeds v) flow o none fresh now e in
        let (answer, e'') = start_trigger call flow_name o' none then_now e' in
        (answer ≡ created)
        × (created ≡ ok (execution_of fresh e'))
        × (e''.state_store ≡ evict_expired then_now e'.state_store)
        × (e''.pending ≡ e.pending)
  unfolding continue_trigger create_and_dispatch mark_replay start_trigger start_admitted
      trigger_unless create_execution persist set_execution get_by_idempotency_key
  trigger-repeated v flow o o' fresh now then_now call flow_name e d new named admitted nobody
        same =
      let x = create_execution fresh flow.name o.idempotency_key v o.user_id now in
      let e1 = persist x (record e {
        trigger_options_map = Dict.set fresh o e.trigger_options_map;
        start_times = Dict.set fresh now e.start_times;
      }) in
      let e' = create_and_dispatch v flow o fresh now e in
      let h1 = stored-HasAlone x e.state_store d refl (λ k z p q. cc (nobody k z p)) in
      let (hs, status, pending) = dispatched-HasAlone x flow o.timeout now e1 refl h1 in
      let (y, h) = hs in
      let found = found_by_key o.idempotency_key fresh then_now y e'.state_store named h in
      rw (same, status, admitted, found) (rw h.stored refl, refl, refl, pending)
