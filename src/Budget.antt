-- ===== src/Budget.antt =====
-- cost/budget.ts: `BudgetEnforcer`, which checks budgets and keeps what has been spent in each scope.
-- Amounts are whole numbers of a unit that all of them are multiples of. `Calendar` holds what `Date`
-- says of the hours of the local time and of the months; `warns` is the test against
-- `config.limit * warningThreshold`.
pub mod Limits
mod Examples
use runcor.Common.{
  ℕ, ◌+◌, ◌-◌, ◌%◌, Text, codes, Option, none, some, List, [], ◌∷◌, ◌++◌, Bool, true, false,
  if◌then◌else◌, leb, not, ◌&&◌, ◌||◌, text_eq, truthy,
}
use runcor.Common.Dict
use runcor.Common.Dict.{Dict}
use runcor.Common.Int.{ℤ, pos, leb_ℤ, ◌+ℤ◌, ◌-ℤ◌}

pub data WindowType : Type 0 where
  hourly daily monthly custom unbounded : WindowType

pub record Window : Type 0 where
  pub kind : WindowType
  pub duration_ms : ℕ

pub data Enforcement : Type 0 where
  hard soft disabled : Enforcement

pub record ScopeConfig : Type 0 where
  pub limit : ℤ
  pub enforcement : Option Enforcement
  pub window : Option Window

pub data Scope : Type 0 where
  request user flow global : Scope

pub record Budgets : Type 0 where
  pub per_request : Option ScopeConfig
  pub per_user : Option ScopeConfig
  pub per_flow : Option ScopeConfig
  pub overall : Option ScopeConfig

pub record BudgetContext : Type 0 where
  pub flow_name : Text
  pub user_id : Option Text

pub record Calendar : Type 0 where
  pub hour_start : ℕ → ℕ
  pub month_start : ℕ → ℕ
  pub month_end : ℕ → ℕ

-- A window without an end is one whose end is the invalid date of `Number.MAX_SAFE_INTEGER`.
pub record Accumulator : Type 0 where
  pub current_spend : ℤ
  pub window_start : ℕ
  pub window_end : Option ℕ
  pub warning_emitted : Bool

pub record Warning : Type 0 where
  pub scope_key : Text
  pub spend : ℤ

pub record Exceeded : Type 0 where
  pub scope : Scope
  pub scope_key : Text
  pub spend : ℤ
  pub limit : ℤ

-- A call that returns, or throws a `BudgetExceededError`.
pub data CheckResult : Type 0 where
  allowed : Option Exceeded → List Warning → (applicable_scopes : List Text) → CheckResult
  refused : Exceeded → CheckResult

pub record ScopeCheck : Type 0 where
  pub scope : Scope
  pub config : Option ScopeConfig
  pub scope_key : Text
  pub skip : Bool

abbrev pub Accumulators : Type 0
Accumulators = Dict Text Accumulator

abbrev or_config : Option ScopeConfig → Option ScopeConfig → Option ScopeConfig
or_config none d = d
or_config (some c) d = some c

abbrev pub user_key : Option Text → Text
user_key none = []
user_key (some id) = if truthy (some id) then codes "user:" ++ id else []

abbrev is_absent : Option Text → Bool
is_absent none = true
is_absent (some id) = false

-- `scopeChecks`.
unfoldable pub scope_checks : Budgets → BudgetContext → Option ScopeConfig → List ScopeCheck
scope_checks b context flow_budget =
    record { scope = request; config = b.per_request; scope_key = codes "request"; skip = false }
    ∷ record {
      scope = user;
      config = b.per_user;
      scope_key = user_key context.user_id;
      skip = is_absent context.user_id;
    }
    ∷ record {
      scope = flow;
      config = or_config flow_budget b.per_flow;
      scope_key = codes "flow:" ++ context.flow_name;
      skip = false;
    }
    ∷ record { scope = global; config = b.overall; scope_key = codes "global"; skip = false }
    ∷ []

abbrev enforcement_of : Option Enforcement → Enforcement
enforcement_of none = hard
enforcement_of (some e) = e

abbrev pub ended : Option ℕ → ℕ → Bool
ended none now = false
ended (some end) now = leb end now

module _ (calendar : Calendar) where
  bounds_of : WindowType → ℕ → ℕ → ℕ × Option ℕ
  bounds_of unbounded duration now = (0, none)
  bounds_of hourly duration now =
      (calendar.hour_start now, some (calendar.hour_start now + 3600000))
  bounds_of daily duration now = (now - now % 86400000, some (now - now % 86400000 + 86400000))
  bounds_of monthly duration now = (calendar.month_start now, some (calendar.month_end now))
  bounds_of custom duration now = (now - now % duration, some (now - now % duration + duration))

  unfoldable pub get_window_bounds : Option Window → ℕ → ℕ × Option ℕ
  unfolding bounds_of
  get_window_bounds none now = bounds_of daily 0 now
  get_window_bounds (some w) now = bounds_of w.kind w.duration_ms now

  unfoldable pub new_accumulator : Option Window → ℕ → Accumulator
  new_accumulator window now =
      let (start, end) = get_window_bounds window now in
      record {
        current_spend = pos 0;
        window_start = start;
        window_end = end;
        warning_emitted = false;
      }

  -- `getOrCreateAccumulator` and then `maybeResetWindow`, without the write.
  unfoldable pub current_accumulator : Option Accumulator → Option Window → ℕ → Accumulator
  current_accumulator none window now =
      let a = new_accumulator window now in
      if ended a.window_end now then new_accumulator window now else a
  current_accumulator (some a) window now =
      if ended a.window_end now then new_accumulator window now else a

abbrev pub is_disabled : Enforcement → Bool
is_disabled disabled = true
is_disabled _ = false

abbrev pub accumulates : Scope → Bool
accumulates request = false
accumulates _ = true

abbrev pub exceeds : ℤ → ℤ → Bool
exceeds spend limit = not (leb_ℤ spend limit)

-- What a scope comes to: the end of the call, or the next scope.
pub data Next : Type 0 where
  stops : CheckResult → Next
  goes_on : List Warning → List Text → Next

abbrev pub over : Enforcement → Exceeded → List Warning → List Text → Next
over hard x warnings scopes = stops (refused x)
over _ x warnings scopes = stops (allowed (some x) warnings scopes)

abbrev pub after_check :
    Next
    → Accumulators
    → (List Warning → List Text → CheckResult × Accumulators)
    → CheckResult × Accumulators
after_check (stops result) m rest = (result, m)
after_check (goes_on warnings scopes) m rest = rest warnings scopes

module _ (calendar : Calendar) (warns : ℤ → ℤ → Bool) where
  unfoldable pub check_accumulated :
      ScopeCheck → ScopeConfig → ℤ → Accumulator → List Warning → List Text → Next × Accumulator
  check_accumulated c config estimate a warnings scopes =
      let spend = a.current_spend +ℤ estimate in
      if exceeds spend config.limit
      then (
        over (enforcement_of config.enforcement)
            (record {
              scope = c.scope;
              scope_key = c.scope_key;
              spend = a.current_spend;
              limit = config.limit;
            })
            warnings scopes,
        a,
      )
      else if not a.warning_emitted && warns spend config.limit
      then (
        goes_on (warnings ++ record { scope_key = c.scope_key; spend = spend } ∷ []) scopes,
        record a { warning_emitted = true },
      )
      else (goes_on warnings scopes, a)

  unfoldable pub check_request : ScopeCheck → ScopeConfig → ℤ → List Warning → List Text → Next
  check_request c config estimate warnings scopes =
      if exceeds estimate config.limit
      then over (enforcement_of config.enforcement)
          (record { scope = c.scope; scope_key = c.scope_key; spend = pos 0; limit = config.limit })
          warnings scopes
      else goes_on warnings scopes

  unfoldable pub check_config :
      Option ScopeConfig
      → ScopeCheck
      → ℤ
      → ℕ
      → List Warning
      → List Text
      → Accumulators
      → Next × Accumulators
  check_config none c estimate now warnings scopes m = (goes_on warnings scopes, m)
  check_config (some config) c estimate now warnings scopes m =
      let applicable = scopes ++ c.scope_key ∷ [] in
      let current = current_accumulator calendar (Dict.get c.scope_key m) config.window now in
      let (next, a) = check_accumulated c config estimate current warnings applicable in
      if c.skip || is_disabled (enforcement_of config.enforcement)
      then (goes_on warnings scopes, m)
      else if accumulates c.scope
      then (next, Dict.set c.scope_key a m)
      else (check_request c config estimate warnings applicable, m)

  unfoldable pub check_loop :
      List ScopeCheck → ℤ → ℕ → List Warning → List Text → Accumulators → CheckResult × Accumulators
  check_loop [] estimate now warnings scopes m = (allowed none warnings scopes, m)
  check_loop (c ∷ cs) estimate now warnings scopes m =
      let (next, m') = check_config c.config c estimate now warnings scopes m in
      after_check next m' (λ warnings' scopes'. check_loop cs estimate now warnings' scopes' m')

  unfoldable pub check_budgets :
      ℤ
      → Option Budgets
      → BudgetContext
      → Option ScopeConfig
      → ℕ
      → Accumulators
      → CheckResult × Accumulators
  check_budgets estimate none context flow_budget now m = (allowed none [] [], m)
  check_budgets estimate (some b) context flow_budget now m =
      check_loop (scope_checks b context flow_budget) estimate now [] [] m

-- An accumulator that is missing is created for a day.
abbrev pub charged : Option Accumulator → ℤ → ℕ → Accumulator
charged none amount now = record {
  current_spend = amount;
  window_start = now;
  window_end = some (now + 86400000);
  warning_emitted = false;
}
charged (some a) amount now = record a { current_spend = a.current_spend +ℤ amount }

unfoldable pub reserve_cost : ℤ → List Text → ℕ → Accumulators → Accumulators
reserve_cost amount [] now m = m
reserve_cost amount (k ∷ ks) now m =
    reserve_cost amount ks now (Dict.set k (charged (Dict.get k m) amount now) m)

abbrev reconciled : Option Accumulator → Text → ℤ → Accumulators → Accumulators
reconciled none k change m = m
reconciled (some a) k change m =
    Dict.set k (record a { current_spend = a.current_spend -ℤ change }) m

unfoldable pub reconcile_cost : ℤ → ℤ → List Text → Accumulators → Accumulators
reconcile_cost estimate actual [] m = m
reconcile_cost estimate actual (k ∷ ks) m =
    reconcile_cost estimate actual ks (reconciled (Dict.get k m) k (estimate -ℤ actual) m)

abbrev spend_of : Option Accumulator → ℤ
spend_of none = pos 0
spend_of (some a) = a.current_spend

unfoldable pub get_current_spend : Text → Accumulators → ℤ
get_current_spend k m = spend_of (Dict.get k m)
