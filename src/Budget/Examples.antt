-- ===== src/Budget/Examples.antt =====
-- A budget of ten over all requests and one of four for each user.
use runcor.Common.{◌≡◌, refl, codes, none, some, [], ◌∷◌, Bool, true, false, ◌-◌, ◌%◌}
use runcor.Common.Dict
use runcor.Common.Int.{ℤ, pos, leb_ℤ, ◌+ℤ◌, difference}
use runcor.Budget.{
  Budgets, BudgetContext, ScopeConfig, Calendar, Accumulators, soft, user, allowed, check_budgets,
  scope_checks, check_loop, check_config, check_accumulated, current_accumulator, new_accumulator,
  get_window_bounds, bounds_of, reserve_cost, get_current_spend,
}
use runcor.Budget.Limits.{check-reserve-within}

abbrev calendar : Calendar
calendar = record {
  hour_start = λ now. now - now % 3600000;
  month_start = λ now. 0;
  month_end = λ now. 2678400000;
}

abbrev never : ℤ → ℤ → Bool
never spend limit = false

abbrev of_ten : ScopeConfig
of_ten = record { limit = pos 10; enforcement = none; window = none }

abbrev softly : ScopeConfig
softly = record { limit = pos 4; enforcement = some soft; window = none }

abbrev budgets : Budgets
budgets = record { per_request = none; per_user = none; per_flow = none; overall = some of_ten }

abbrev for_ann : BudgetContext
for_ann = record { flow_name = codes "brief"; user_id = some (codes "ann") }

abbrev spent : Accumulators
spent =
    (
      codes "global",
      record {
        current_spend = pos 7;
        window_start = 0;
        window_end = some 86400000;
        warning_emitted = false;
      },
    )
    ∷ []

three_allowed :
    (check_budgets calendar never (pos 3) (some budgets) for_ann none 1000 spent).0
    ≡ allowed none [] (codes "global" ∷ [])
unfolding check_budgets scope_checks check_loop check_config check_accumulated current_accumulator
    ◌+ℤ◌ difference Dict.get Dict.set
three_allowed = refl

check-reserve-within_example :
    let m' = (check_budgets calendar never (pos 3) (some budgets) for_ann none 1000 spent).1 in
    leb_ℤ
      (get_current_spend (codes "global") (reserve_cost (pos 3) (codes "global" ∷ []) 1001 m'))
      (pos 10)
    ≡ true
check-reserve-within_example =
    check-reserve-within calendar never (pos 3) budgets for_ann none 1000 1001 spent of_ten []
      (codes "global" ∷ []) refl refl three_allowed

-- A user's soft budget that is exceeded ends the check: the overall budget is neither checked nor
-- named among the scopes to be charged.
soft_skips_overall :
    (check_budgets calendar never
      (pos 50)
      (some (record budgets { per_user = some softly }))
      for_ann
      none
      1000
      spent).0
    ≡ allowed
        (some (record { scope = user; scope_key = codes "user:ann"; spend = pos 0; limit = pos 4 }))
        []
        (codes "user:ann" ∷ [])
unfolding check_budgets scope_checks check_loop check_config check_accumulated current_accumulator
    new_accumulator get_window_bounds bounds_of ◌+ℤ◌ difference Dict.get Dict.set
soft_skips_overall = refl
