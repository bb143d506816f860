-- ===== src/Errors.antt =====
-- Failing calls as values: `EngineError` (errors.ts) carries a code, on which callers branch; the
-- message, which is only printed, is left out.
use runcor.Common.{◌≡◌, refl, ◌⊎◌, inl, inr}

-- The codes that the modelled parts throw.
pub data ErrorCode : Type 0 where
  invalid_transition : ErrorCode
  rate_limited access_denied policy_denied guardrail_blocked : ErrorCode
  duplicate_policy duplicate_guardrail duplicate_rate_limit invalid_policy_config : ErrorCode
  already_flagged flag_not_found invalid_flag_transition : ErrorCode
  reserved_tool_name duplicate_tool : ErrorCode
  invalid_memory_key invalid_memory_value : ErrorCode
  engine_shutting_down engine_not_ready missing_idempotency_key : ErrorCode
  flow_not_found duplicate_flow execution_not_found invalid_state : ErrorCode
  invalid_request provider_not_found no_healthy_providers : ErrorCode

-- A call that returns or throws.
pub data Result {ℓ κ} (E : Type ℓ) (A : Type κ) : Type (ℓ ⊔ κ) where
  ok : A → Result E A
  err : E → Result E A

infixl 5 ◌>>=◌
abbrev pub ◌>>=◌ {ℓ κ μ} :
    {E : Type ℓ} {A : Type κ} {B : Type μ} → Result E A → (A → Result E B) → Result E B
ok a >>= f = f a
err e >>= f = err e

pub Result-cases {ℓ κ} :
    {E : Type ℓ} {A : Type κ} (r : Result E A) → ((a : A) × (r ≡ ok a)) ⊎ ((e : E) × (r ≡ err e))
Result-cases (ok a) = inl (a, refl)
Result-cases (err e) = inr (e, refl)

pub ok-injective {ℓ κ} :
    {E : Type ℓ} {A : Type κ} {a b : A} → ◌≡◌ {A = Result E A} (ok a) (ok b) → a ≡ b
ok-injective h = cc
