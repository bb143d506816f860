-- ===== src/StateStore/Retention.antt =====
-- state-store.ts: what the reads give, over any sequence of calls.
use runcor.Common.{
  ℕ, ◌≡◌, ap, ◌∙◌, Text, Option, none, some, List, [], ◌∷◌, if◌then◌else◌, text_eq, arith, nat_beq,
}
use runcor.Common.Dict
use runcor.Common.Dict.{Dict, get-set_self}
use runcor.Common.Distinct.{
  Distinct, unless, get-delete_where, set-Distinct, delete-Distinct, delete_all-Distinct,
  keys_where,
}
use runcor.Execution.{Execution}
use runcor.StateStore.{
  StateStore, StateFilter, new_store, is_expired, evict_expired, get_execution,
  get_by_idempotency_key, set_execution, list_executions, delete_found, delete_execution,
}

-- A call on the store, with its time where it reads the clock.
pub data Call (V : Type 0) : Type 0 where
  gets : (id : Text) (now : ℕ) → Call V
  gets_by_key : (key : Text) (now : ℕ) → Call V
  sets : Execution V → Call V
  lists : (f : Option StateFilter) (now : ℕ) → Call V
  deletes : Text → Call V

module _ {V : Type 0} where
  unfoldable pub call : Call V → StateStore V → StateStore V
  call (gets id now) st = (get_execution id now st).1
  call (gets_by_key key now) st = (get_by_idempotency_key key now st).1
  call (sets e) st = set_execution e st
  call (lists f now) st = (list_executions f now st).1
  call (deletes id) st = delete_execution id st

  unfoldable pub calls : List (Call V) → StateStore V → StateStore V
  calls [] st = st
  calls (c ∷ cs) st = calls cs (call c st)

  pub evict-Distinct :
      (now : ℕ) (st : StateStore V)
      → Distinct st.executions
      → Distinct (evict_expired now st).executions
  unfolding evict_expired
  evict-Distinct now st d = ground (
    arith,
    delete_all-Distinct (keys_where (is_expired st.retention_period_ms now) st.executions)
        st.executions d,
    d,
  )

  delete_found-Distinct :
      (o : Option (Execution V)) (id : Text) (st : StateStore V)
      → Distinct st.executions
      → Distinct (delete_found o id st).executions
  unfolding delete_found
  delete_found-Distinct none id st d = d
  delete_found-Distinct (some e) id st d = delete-Distinct id st.executions d

  call-Distinct :
      (c : Call V) (st : StateStore V) → Distinct st.executions → Distinct (call c st).executions
  unfolding call get_execution get_by_idempotency_key set_execution list_executions delete_execution
  call-Distinct (gets id now) st d = evict-Distinct now st d
  call-Distinct (gets_by_key key now) st d = evict-Distinct now st d
  call-Distinct (sets e) st d = set-Distinct e.id e st.executions d
  call-Distinct (lists f now) st d = evict-Distinct now st d
  call-Distinct (deletes id) st d = delete_found-Distinct (Dict.get id st.executions) id st d

  calls-Distinct :
      (cs : List (Call V)) (st : StateStore V)
      → Distinct st.executions
      → Distinct (calls cs st).executions
  unfolding calls
  calls-Distinct [] st d = d
  calls-Distinct (c ∷ cs) st d = calls-Distinct cs (call c st) (call-Distinct c st d)

  -- The execution, unless the store has a retention period and the execution has ended before it.
  abbrev pub retained : ℕ → ℕ → Option (Execution V) → Option (Execution V)
  retained period now o = if nat_beq period 0 then o else unless (is_expired period now) o

  pub evict-lookup :
      (id : Text) (now : ℕ) (st : StateStore V)
      → Distinct st.executions
      → Dict.get id (evict_expired now st).executions
        ≡ retained st.retention_period_ms now (Dict.get id st.executions)
  unfolding evict_expired
  evict-lookup id now st d =
      ground (arith, get-delete_where (is_expired st.retention_period_ms now) id st.executions d)

  -- In every store that calls can lead to, a read of an id gives the execution that is stored under
  -- it, and nothing when that execution has ended longer ago than the retention period; what is
  -- written is what a read then gives, under the same condition.
  pub read_retained :
      (period : ℕ) (cs : List (Call V)) (id : Text) (now : ℕ) (e : Execution V)
      → let st = calls cs (new_store period) in
        ((get_execution id now st).0
          ≡ retained st.retention_period_ms now (Dict.get id st.executions))
        × ((get_execution e.id now (set_execution e st)).0
            ≡ retained st.retention_period_ms now (some e))
  unfolding get_execution set_execution new_store
  read_retained period cs id now e =
      let st = calls cs (new_store period) in
      let d = calls-Distinct cs (new_store period) tt in
      (
        evict-lookup id now st d,
        evict-lookup e.id now (set_execution e st) (set-Distinct e.id e st.executions d)
            ∙ ap (retained st.retention_period_ms now) (get-set_self e.id e st.executions),
      )
