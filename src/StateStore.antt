-- ===== src/StateStore.antt =====
-- state-store.ts: `InMemoryStateStore`, executions by id with an index of idempotency keys and lazy
-- eviction. `now` is what `Date.now()` gives in the call. Executions are stored as values: the
-- objects that the callers hold are not followed.
pub mod Retention
mod Examples
use runcor.Common.{
  ℕ, ◌+◌, ◌*◌, Text, Option, none, some, List, [], ◌∷◌, Bool, true, false, if◌then◌else◌, ltb,
  nat_beq, ◌&&◌, text_beq, text_eq, truthy, filter_by, map,
}
use runcor.Common.Dict
use runcor.Common.Dict.{Dict, delete_all, values}
use runcor.Common.Distinct.{keys_where}
use runcor.Execution.{
  State, Execution, queued, running, waiting, retrying, complete, failed, is_terminal,
}

pub record StateStore (V : Type 0) : Type 0 where
  pub executions : Dict Text (Execution V)
  pub idempotency_index : Dict Text Text
  pub retention_period_ms : ℕ

pub record StateFilter : Type 0 where
  pub by_state : Option State
  pub by_flow_name : Option Text

abbrev pub state_beq : State → State → Bool
state_beq queued queued = true
state_beq running running = true
state_beq waiting waiting = true
state_beq retrying retrying = true
state_beq complete complete = true
state_beq failed failed = true
state_beq _ _ = false

-- `now - completed > period`, written with a sum.
abbrev pub completed_before : Option ℕ → ℕ → ℕ → Bool
completed_before none period now = false
completed_before (some completed) period now = ltb (completed + period) now

module _ {V : Type 0} where
  -- The constructor; a period of zero seconds means that nothing is evicted.
  unfoldable pub new_store : ℕ → StateStore V
  new_store retention_period_seconds = record {
    executions = [];
    idempotency_index = [];
    retention_period_ms =
        if ltb 0 retention_period_seconds then retention_period_seconds * 1000 else 0;
  }

  abbrev pub is_expired : ℕ → ℕ → Execution V → Bool
  is_expired period now e =
      is_terminal e.state && completed_before e.timestamps.completed period now

  abbrev pub key_of : Execution V → Text
  key_of e = e.idempotency_key

  unfoldable pub evict_expired : ℕ → StateStore V → StateStore V
  evict_expired now st = if nat_beq st.retention_period_ms 0 then st else record st {
    executions =
        delete_all (keys_where (is_expired st.retention_period_ms now) st.executions) st.executions;
    idempotency_index =
        delete_all
          (map key_of (filter_by (is_expired st.retention_period_ms now) (values st.executions)))
          st.idempotency_index;
  }

  unfoldable pub get_execution : Text → ℕ → StateStore V → Option (Execution V) × StateStore V
  get_execution id now st = let st = evict_expired now st in (Dict.get id st.executions, st)

  -- An empty id counts as none.
  unfoldable pub lookup_id : Option Text → StateStore V → Option (Execution V)
  lookup_id none st = none
  lookup_id (some id) st = if truthy (some id) then Dict.get id st.executions else none

  unfoldable pub get_by_idempotency_key :
      Text → ℕ → StateStore V → Option (Execution V) × StateStore V
  unfolding lookup_id
  get_by_idempotency_key key now st =
      let st = evict_expired now st in (lookup_id (Dict.get key st.idempotency_index) st, st)

  unfoldable pub set_execution : Execution V → StateStore V → StateStore V
  set_execution e st = record st {
    executions = Dict.set e.id e st.executions;
    idempotency_index = Dict.set e.idempotency_key e.id st.idempotency_index;
  }

  abbrev pub in_state : Option State → List (Execution V) → List (Execution V)
  in_state none es = es
  in_state (some s) es = filter_by (λ e. state_beq e.state s) es

  abbrev pub of_flow : Option Text → List (Execution V) → List (Execution V)
  of_flow none es = es
  of_flow (some name) es =
      if truthy (some name) then filter_by (λ e. text_beq e.flow_name name) es else es

  abbrev pub filtered : Option StateFilter → List (Execution V) → List (Execution V)
  filtered none es = es
  filtered (some f) es = of_flow f.by_flow_name (in_state f.by_state es)

  unfoldable pub list_executions :
      Option StateFilter → ℕ → StateStore V → List (Execution V) × StateStore V
  list_executions f now st =
      let st = evict_expired now st in (filtered f (values st.executions), st)

  unfoldable pub delete_found : Option (Execution V) → Text → StateStore V → StateStore V
  delete_found none id st = st
  delete_found (some e) id st = record st {
    executions = Dict.delete id st.executions;
    idempotency_index = Dict.delete e.idempotency_key st.idempotency_index;
  }

  unfoldable pub delete_execution : Text → StateStore V → StateStore V
  unfolding delete_found
  delete_execution id st = delete_found (Dict.get id st.executions) id st
