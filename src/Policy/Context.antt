-- ===== src/Policy/Context.antt =====
-- types.ts, "Policy Types": what the evaluators of policy/ are called with.
use runcor.Common.{Text, Option, Bool, true, false}
use runcor.Common.{Eq, ◌↔◌, ◌≡◌, arith}

pub data OperationType : Type 0 where
  trigger resume replay list_waiting : OperationType

abbrev pub operation_beq : OperationType → OperationType → Bool
operation_beq trigger trigger = true
operation_beq resume resume = true
operation_beq replay replay = true
operation_beq list_waiting list_waiting = true
operation_beq _ _ = false

pub operation_beq_iff : (a b : OperationType) → (operation_beq a b ≡ true) ↔ (a ≡ b)
operation_beq_iff a b = (λ h. ground arith, λ h. ground arith)

instance abbrev pub operation_eq : Eq OperationType
operation_eq = record { same = operation_beq; same_iff = operation_beq_iff }

-- `metadata` and `executionId` are only handed on to the rules.
pub record PolicyContext (V : Type 0) : Type 0 where
  pub operation : OperationType
  pub flow_name : Text
  pub user_id : Option Text
  pub tenant_id : Option Text
  pub input : V
  pub execution_id : Option Text
  pub metadata : V
