-- ===== src/Policy.antt =====
-- policy/: access control, policy rules, guardrails, rate limits and the engine that runs them.
pub mod Context
pub mod RateLimiter
pub mod AccessControl
pub mod Rules
pub mod Guardrails
pub mod Engine
mod Examples
