-- ===== src/Engine/Stored.antt =====
-- engine.ts: what the executions that are stored keep through every method: the store has each under
-- its id, once, with a log that is well-formed.
pub mod Moves
pub mod Runs
pub mod Continuations
pub mod Timers
pub mod Calls
pub mod Resuming
pub mod Shutdown
pub mod Reachable
use runcor.Common.{
  ℕ, ◌+◌, ◌-◌, ◌≤◌, ◌≡◌, refl, Text, Option, none, some, List, [], ◌∷◌, Bool, true, false,
  if◌then◌else◌, text_eq, text_beq, text_beq_iff, arith, Bool-cases, inl, inr, Option-cases, sym,
  ◌∙◌, ap, subst,
}
use runcor.Common.Dict
use runcor.Common.Dict.{Dict, get-set, get-delete}
use runcor.Common.Distinct.{Distinct, set-Distinct, delete-Distinct}
use runcor.Execution.{Execution}
use runcor.Execution.Lifecycle.{IsWellFormed}
use runcor.StateStore.{StateStore, evict_expired}
use runcor.StateStore.Retention.{evict-Distinct, evict-lookup}
use runcor.Engine.{Engine, execution_of}

module _ {V : Type 0} where
  -- The executions that a store holds have distinct ids, stand under their ids and have well-formed
  -- logs.
  pub record Stored (m : Dict Text (Execution V)) : Type 0 where
    pub distinct : Distinct m
    pub named : (id : Text) (x : Execution V) → Dict.get id m ≡ some x → x.id ≡ id
    pub formed : (id : Text) (x : Execution V) → Dict.get id m ≡ some x → IsWellFormed x

module _ {V : Type 0} where
  -- What a lookup gives after `set`, by whether it is of that key.
  after_set :
      (P : Text → Execution V → Type 0) (k : Text) (x : Execution V) (m : Dict Text (Execution V))
      → P k x
      → ((id : Text) (y : Execution V) → Dict.get id m ≡ some y → P id y)
      → (id : Text) (y : Execution V) → Dict.get id (Dict.set k x m) ≡ some y
      → P id y
  after_set P k x m p f id y h = elim (Bool-cases (text_beq k id)) [
    | inl e ↦ ground (arith, get-set k id x m, text_beq_iff k id, p)
    | inr e ↦ f id y (ground (arith, get-set k id x m))
  ]

  -- An execution is stored.
  pub set-Stored :
      {m : Dict Text (Execution V)} (x : Execution V)
      → Stored m
      → IsWellFormed x
      → Stored (Dict.set x.id x m)
  set-Stored {m} x s w = record {
    distinct = set-Distinct x.id x m s.distinct;
    named = after_set (λ id y. y.id ≡ id) x.id x m refl s.named;
    formed = after_set (λ id y. IsWellFormed y) x.id x m w s.formed;
  }

  pub delete-Stored :
      {m : Dict Text (Execution V)} (id : Text) → Stored m → Stored (Dict.delete id m)
  delete-Stored {m} id s = record {
    distinct = delete-Distinct id m s.distinct;
    named = λ j x h. s.named j x (ground (arith, get-delete id j m, h));
    formed = λ j x h. s.formed j x (ground (arith, get-delete id j m, h));
  }

  kept_after_eviction :
      (st : StateStore V) (id : Text) (now : ℕ) (x : Execution V)
      → Distinct st.executions
      → Dict.get id (evict_expired now st).executions ≡ some x
      → Dict.get id st.executions ≡ some x
  kept_after_eviction st id now x d h = elim (Option-cases (Dict.get id st.executions)) [
    | inl e ↦ ground (arith, evict-lookup id now st d)
    | inr (y, e) ↦ ground (arith, evict-lookup id now st d)
  ]

  pub evict-Stored :
      (now : ℕ) (st : StateStore V)
      → Stored st.executions
      → Stored (evict_expired now st).executions
  evict-Stored now st s = record {
    distinct = evict-Distinct now st s.distinct;
    named = λ j x h. s.named j x (kept_after_eviction st j now x s.distinct h);
    formed = λ j x h. s.formed j x (kept_after_eviction st j now x s.distinct h);
  }

module _ {V C : Type 0} where
  abbrev pub Holds : Engine V C → Type 0
  Holds e = Stored e.state_store.executions

  -- The execution is the one that the store has under its id.
  abbrev pub IsStored : Execution V → Engine V C → Type 0
  IsStored x e = execution_of x.id e ≡ some x
