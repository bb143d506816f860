-- ===== src/Policy/Guardrails.antt =====
-- policy/guardrail-runner.ts. A handler is a function of the content and the context that returns a
-- result or throws.
pub mod Run
use runcor.Common.{
  Text, Option, none, some, List, [], ◌∷◌, ◌++◌, Bool, true, false, if◌then◌else◌, filter_by,
  text_eq, ◌==◌,
}
use runcor.Common.Int.{ℤ}
use runcor.Common.Sort.{sort_by}
use runcor.Errors.{Result, ok, err, ErrorCode, guardrail_blocked}

pub data Phase : Type 0 where
  input output : Phase

abbrev pub phase_beq : Phase → Phase → Bool
phase_beq input input = true
phase_beq output output = true
phase_beq _ _ = false

pub record GuardrailContext : Type 0 where
  pub execution_id : Text
  pub flow_name : Text
  pub user_id : Option Text
  pub tenant_id : Option Text
  pub phase : Phase

-- The four actions, with what the runner reads of each, and every other one.
pub data GuardrailResult (V : Type 0) : Type 0 where
  passes : GuardrailResult V
  blocks : GuardrailResult V
  warns : Option Text → GuardrailResult V
  transforms : V → GuardrailResult V
  unknown_action : GuardrailResult V
  throws : GuardrailResult V

pub data FailureMode : Type 0 where
  block pass : FailureMode

pub record Guardrail (V : Type 0) : Type 0 where
  pub name : Text
  pub guards : Phase
  pub priority : ℤ
  pub handler : V → GuardrailContext → GuardrailResult V
  pub failure_mode : Option FailureMode
  pub flow_name : Option Text

pub record GuardrailWarning : Type 0 where
  pub guardrail_name : Text
  pub reason : Option Text
  pub during : Phase

abbrev pub flow_matches : Option Text → Text → Bool
flow_matches none flow_name = true
flow_matches (some f) flow_name = f == flow_name

module _ {V : Type 0} where
  abbrev pub applicable : GuardrailContext → Guardrail V → Bool
  applicable context g =
      if phase_beq g.guards context.phase then flow_matches g.flow_name context.flow_name else false

  abbrev on_throw : Option FailureMode → V → Result ErrorCode (V × List GuardrailWarning)
  on_throw (some pass) content = ok (content, [])
  on_throw _ content = err guardrail_blocked

  -- One turn of the loop: the content behind the guardrail, and its warning.
  unfoldable pub apply :
      Guardrail V → V → GuardrailContext → Result ErrorCode (V × List GuardrailWarning)
  apply g content context = elim (g.handler content context) [
    | passes ↦ ok (content, [])
    | blocks ↦ err guardrail_blocked
    | warns why ↦
        ok (content, record { guardrail_name = g.name; reason = why; during = context.phase } ∷ [])
    | transforms content' ↦ ok (content', [])
    | unknown_action ↦ err guardrail_blocked
    | throws ↦ on_throw g.failure_mode content
  ]

  unfoldable pub run_sorted :
      List (Guardrail V)
      → V
      → List GuardrailWarning
      → GuardrailContext
      → Result ErrorCode (V × List GuardrailWarning)
  run_sorted [] content warnings context = ok (content, warnings)
  run_sorted (g ∷ gs) content warnings context = elim (apply g content context) [
    | ok (content', new) ↦ run_sorted gs content' (warnings ++ new) context
    | err e ↦ err e
  ]

  -- `filter` by the phase and then by the flow, `sort`, and the loop.
  unfoldable pub run_guardrails :
      List (Guardrail V) → V → GuardrailContext → Result ErrorCode (V × List GuardrailWarning)
  run_guardrails gs content context =
      run_sorted (sort_by (λ g. g.priority) (filter_by (applicable context) gs)) content [] context
