-- ===== src/FlagManager.antt =====
-- evaluation/flag-manager.ts: `FlagManager`, the review flags of executions. `now` is what
-- `new Date()` gives in the call. A flag that is handed out is the stored object itself; the model
-- hands out its value at the time.
pub mod Lifecycle
mod Examples
use runcor.Common.{
  ℕ, Text, Option, none, some, List, Bool, true, false, if◌then◌else◌, not, text_beq, text_eq,
  filter_by, truthy,
}
use runcor.Common.Dict
use runcor.Common.Dict.{Dict, has, values}
use runcor.Errors.{
  Result, ok, err, ErrorCode, already_flagged, flag_not_found, invalid_flag_transition,
}

pub data FlagStatus : Type 0 where
  pending reviewed resolved : FlagStatus

abbrev pub status_beq : FlagStatus → FlagStatus → Bool
status_beq pending pending = true
status_beq reviewed reviewed = true
status_beq resolved resolved = true
status_beq _ _ = false

pub data Source : Type 0 where
  auto manual : Source

pub record HumanReviewFlag : Type 0 where
  pub execution_id : Text
  pub flow_name : Text
  pub status : FlagStatus
  pub reason : Text
  pub source : Source
  pub created_at : ℕ
  pub updated_at : ℕ

pub record FlagFilter : Type 0 where
  pub by_flow_name : Option Text
  pub by_status : Option FlagStatus

abbrev pub Flags : Type 0
Flags = Dict Text HumanReviewFlag

-- `VALID_TRANSITIONS.get(from).has(to)`.
unfoldable pub valid_next : FlagStatus → FlagStatus → Bool
valid_next pending reviewed = true
valid_next reviewed resolved = true
valid_next _ _ = false

unfoldable pub create_flag :
    Text → Text → Text → Source → ℕ → Flags → Result ErrorCode (HumanReviewFlag × Flags)
create_flag execution_id flow_name reason source now flags =
    if has execution_id flags
    then err already_flagged
    else let flag : HumanReviewFlag = record {
      execution_id = execution_id;
      flow_name = flow_name;
      status = pending;
      reason = reason;
      source = source;
      created_at = now;
      updated_at = now;
    } in
      ok (flag, Dict.set execution_id flag flags)

unfoldable update_found :
    Option HumanReviewFlag → Text → FlagStatus → ℕ → Flags → Result ErrorCode Flags
update_found none execution_id status now flags = err flag_not_found
update_found (some flag) execution_id status now flags =
    if not (valid_next flag.status status)
    then err invalid_flag_transition
    else ok (Dict.set execution_id (record flag { status = status; updated_at = now }) flags)

unfoldable pub update_flag : Text → FlagStatus → ℕ → Flags → Result ErrorCode Flags
unfolding update_found
update_flag execution_id status now flags =
    update_found (Dict.get execution_id flags) execution_id status now flags

unfoldable pub get_flag : Text → Flags → Option HumanReviewFlag
get_flag execution_id flags = Dict.get execution_id flags

-- An absent filter and an empty flow name let every flag pass.
abbrev pub flow_passes : Option Text → Text → Bool
flow_passes none flow = true
flow_passes (some name) flow = if truthy (some name) then text_beq flow name else true

abbrev pub status_passes : Option FlagStatus → FlagStatus → Bool
status_passes none s = true
status_passes (some t) s = status_beq s t

abbrev pub matches : FlagFilter → HumanReviewFlag → Bool
matches f flag =
    if not (flow_passes f.by_flow_name flag.flow_name)
    then false
    else if not (status_passes f.by_status flag.status)
    then false
    else true

unfoldable pub list_flags : Option FlagFilter → Flags → List HumanReviewFlag
list_flags none flags = values flags
list_flags (some f) flags = filter_by (matches f) (values flags)
