-- ===== src/Lib.antt =====
-- Runcor, an engine that runs flows with model calls, adapters and policies: a model of the parts
-- that decide, and what holds of them.
--
-- How the parts work together. A caller triggers a flow. The policy engine first checks the access
-- policies, then the rate limits, then the rules, and runs guardrails over the flow's input and
-- output. An execution is created and moves through its states; the state store keeps it and forgets
-- it some time after its end. A flow asks the model router for completions; the router orders the
-- providers by a strategy, leaves out those whose circuit breaker is open, retries transient errors
-- and falls back to the next provider. Flows keep values in the memory store, call the tools that
-- the tool router finds, and poor results are flagged for human review.
--
-- Files and sources:
--   Execution       src/execution.ts: `createExecution`, `transitionExecution`
--   StateStore      src/state-store.ts: `InMemoryStateStore`
--   CircuitBreaker  src/model/circuit-breaker.ts: `CircuitBreaker`
--   Router          src/model/router.ts and src/model/strategies.ts: `ModelRouter.complete`,
--                   `completeWithRetry`, the strategies by priority, round-robin and of the caller
--   Policy          src/policy/*.ts: Context and RateLimiter (`RateLimiter`, with the calls over
--                   several limits in RateLimiter/Calls), AccessControl (`evaluateAccess`, tenants),
--                   Rules (`evaluateRules`), Guardrails (`runGuardrails`), Engine (`PolicyEngine`,
--                   with its registries in Engine/Registry)
--   Engine          src/engine.ts: `Runcor`. Its state is in Engine; Engine/Moves and Engine/Tasks have
--                   its private methods, Engine/Continuations what a run does after each wait and
--                   the timers' callbacks, Engine/Calls, Engine/Resume and Engine/Ending the calls
--                   on it, Engine/Step all of these as steps. Proofs: Engine/Stored, Engine/Bound,
--                   Engine/Cancellation, Engine/Idempotence,
--                   Engine/Drained, Engine/LateResult
--   Budget          src/cost/budget.ts: `BudgetEnforcer`
--   Memory          src/memory/store.ts: `InMemoryStore`, and in Memory/Scoped
--                   src/memory/scoped.ts: `ScopedMemoryImpl`
--   FlagManager     src/evaluation/flag-manager.ts: `FlagManager`
--   ToolRouter      src/adapter/tool-router.ts: `ToolRouter`
--   Errors          src/errors.ts: the codes of `EngineError`, and calls that return or throw
--   Common          the shared types, tests and lemmas: maps in insertion order (Dict, Distinct),
--                   the stable sort (Sort), lists, texts as lists of code units (Equality)
--
-- How the code becomes a model. A class is a record of its fields and a method a function from the
-- record to the result and the new record; what a method does before it throws is kept. Each reading
-- of the clock, each random identifier, each handler that a user gives and each provider's service is
-- an argument. An asynchronous method runs in one step where it awaits nothing. Where it awaits a
-- provider (Router), the network lists what others do to the breakers meanwhile; where it awaits a
-- queued rate limit (Policy/Engine), the call is split at the wait and the promise is a ticket.
-- The engine (Engine) is a sequence of steps: what runs between two waits of an asynchronous method is
-- one function, an unfinished run is an entry of `tasks`, an unfinished call an entry of `pending`,
-- and an event carries what the wait has come to. An execution's object, which the methods share, is
-- the store's entry under its id. `runExecution` and `resume` wait for the store to write that an
-- execution is running, and `shutdown` for the server, the adapters and the store to close: these
-- waits are steps of their own (`stores_run`, `stores_resume`, `stops`).
-- A `Map` is an association list in insertion order. Times, counts and limits are natural numbers,
-- priorities and amounts are integers. A timer is the time at which it is due, and its callback a step of its own.
--
-- Loops are structural recursion over their lists; `completeWithRetry` recurses on its three rounds,
-- after which the code leaves its loop too. There is no fuel.
--
-- Not modelled: the other waits for a write of the store in src/engine.ts (before a new execution is
-- dispatched, before a retry timer or a wait timeout is set, before the end of a run frees its slot,
-- and in `replay`), which are one step with what follows them; a handler's errors and results are
-- taken when it is done. A strategy of the caller's is a function that may throw and keeps no state.
-- Nor log messages, error texts and telemetry; the strategy by lowest cost, whose sums are
-- floating-point; `ModelRouter.stream`; the constructor of `PolicyEngine`, which fills the
-- registries; the identity of objects that are handed out and changed later (flags, and executions
-- in StateStore on its own). Of src/engine.ts the schedules, objectives, the evaluation after a run,
-- the MCP server and plain getters are left out. The scheduler, costs but for the budgets, evaluation
-- but for its flags, agents, adapters but for the tool router, configuration, the discernment
-- reports, the command line and the HTTP interface are left out.
pub mod Common
pub mod Errors
pub mod Execution
pub mod StateStore
pub mod CircuitBreaker
pub mod Router
pub mod Policy
pub mod Engine
pub mod Budget
pub mod Memory
pub mod FlagManager
pub mod ToolRouter
