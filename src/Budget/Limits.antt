-- ===== src/Budget/Limits.antt =====
-- cost/budget.ts: what a budget that has been checked promises when the estimate is reserved.
use runcor.Common.{
  ℕ, ◌≡◌, ◌⊎◌, refl, sym, ◌∙◌, ap, Text, codes, Option, none, some, List, [], ◌∷◌, ◌++◌, Bool, true,
  false, not, ◌&&◌, ◌||◌, text_eq, text_beq, All, All-append, Bool-cases, inl, inr, subst, take,
}
use runcor.Common.Dict
use runcor.Common.Dict.{Dict, get-set, get-set_self}
use runcor.Common.Int.{ℤ, leb_ℤ, ◌+ℤ◌}
use runcor.Budget.{
  Budgets, BudgetContext, ScopeConfig, ScopeCheck, global, Calendar, Accumulator, Accumulators,
  Warning, Exceeded, CheckResult, allowed, refused, Next, stops, goes_on, over, exceeds,
  is_disabled, enforcement_of, accumulates, scope_checks, user_key, current_accumulator,
  check_accumulated, check_request, check_config, check_loop, check_budgets, charged, reserve_cost,
  get_current_spend, hard, soft, disabled, Enforcement,
}

Next-cases :
    (n : Next)
    → ((r : CheckResult) × (n ≡ stops r))
      ⊎ ((ws : List Warning) × (ks : List Text) × (n ≡ goes_on ws ks))
Next-cases (stops r) = inl (r, refl)
Next-cases (goes_on ws ks) = inr (ws, ks, refl)

over_stops :
    (f : Enforcement) (x : Exceeded) (ws : List Warning) (ks : List Text) (ws' : List Warning)
    (ks' : List Text)
    → ¬ (over f x ws ks ≡ goes_on ws' ks')
over_stops hard x ws ks ws' ks' h = cc
over_stops soft x ws ks ws' ks' h = cc
over_stops disabled x ws ks ws' ks' h = cc

scopes_of : Next → List Text
scopes_of (stops r) = []
scopes_of (goes_on ws ks) = ks

scopes-injective :
    {ws ws' : List Warning} {ks ks' : List Text} → goes_on ws ks ≡ goes_on ws' ks' → ks ≡ ks'
unfolding scopes_of
scopes-injective h = ap scopes_of h

listed : CheckResult → List Text
listed (allowed x ws ks) = ks
listed (refused x) = []

allowed-injective :
    {x y : Option Exceeded} {ws ws' : List Warning} {ks ks' : List Text}
    → allowed x ws ks ≡ allowed y ws' ks'
    → ks ≡ ks'
unfolding listed
allowed-injective h = ap listed h

-- A scope stops a check only by an exceeded budget.
over_exceeds :
    (f : Enforcement) (x : Exceeded) (ws : List Warning) (ks : List Text) (r : CheckResult)
    (ws' : List Warning) (ks' : List Text)
    → over f x ws ks ≡ stops r
    → ¬ (r ≡ allowed none ws' ks')
over_exceeds hard x ws ks r ws' ks' h g = cc
over_exceeds soft x ws ks r ws' ks' h g = cc
over_exceeds disabled x ws ks r ws' ks' h g = cc

user_apart : (id : Option Text) → text_beq (user_key id) (codes "global") ≡ false
user_apart none = refl
user_apart (some []) = refl
user_apart (some (c ∷ cs)) = refl

module _ (calendar : Calendar) (warns : ℤ → ℤ → Bool) where
  -- A scope that lets the call go on keeps the estimate within its limit.
  accumulated-fits :
      (c : ScopeCheck) (config : ScopeConfig) (estimate : ℤ) (a : Accumulator) (ws : List Warning)
      (ks : List Text) (ws' : List Warning) (ks' : List Text)
      → (check_accumulated calendar warns c config estimate a ws ks).0 ≡ goes_on ws' ks'
      → let b = (check_accumulated calendar warns c config estimate a ws ks).1 in
        (leb_ℤ (b.current_spend +ℤ estimate) config.limit ≡ true) × (ks' ≡ ks)
  unfolding check_accumulated
  accumulated-fits c config estimate a ws ks ws' ks' =
      let spend = a.current_spend +ℤ estimate in
      elim (Bool-cases (leb_ℤ spend config.limit)) [
        | inr e ↦
            rw e (λ h. absurd (over_stops (enforcement_of config.enforcement) _ ws ks ws' ks' h))
        | inl e ↦ elim (Bool-cases (not a.warning_emitted && warns spend config.limit)) [
          | inl w ↦ rw (e, w) (λ h. (e, cc))
          | inr w ↦ rw (e, w) (λ h. (e, cc))
        ]
      ]

  request_scopes :
      (c : ScopeCheck) (config : ScopeConfig) (estimate : ℤ) (ws : List Warning) (ks : List Text)
      (ws' : List Warning) (ks' : List Text)
      → check_request calendar warns c config estimate ws ks ≡ goes_on ws' ks'
      → ks' ≡ ks
  unfolding check_request
  request_scopes c config estimate ws ks ws' ks' =
      elim (Bool-cases (exceeds estimate config.limit)) [
        | inl e ↦
            rw e (λ h. absurd (over_stops (enforcement_of config.enforcement) _ ws ks ws' ks' h))
        | inr e ↦ rw e (λ h. cc)
      ]

  -- A check that goes on adds at most its own scope.
  config_scopes :
      (P : Text → Type 0) (o : Option ScopeConfig) (c : ScopeCheck) (estimate : ℤ) (now : ℕ)
      (ws : List Warning) (ks : List Text) (m : Accumulators) (ws' : List Warning) (ks' : List Text)
      → P c.scope_key
      → All P ks
      → (check_config calendar warns o c estimate now ws ks m).0 ≡ goes_on ws' ks'
      → All P ks'
  unfolding check_config
  config_scopes P none c estimate now ws ks m ws' ks' p q =
      λ h. subst (λ z. All P z) (scopes-injective h) q
  config_scopes P (some config) c estimate now ws ks m ws' ks' p q =
      let longer = All-append P ks (c.scope_key ∷ []) q (p, tt) in
      elim (Bool-cases (c.skip || is_disabled (enforcement_of config.enforcement))) [
        | inl e ↦ rw e (λ h. subst (λ z. All P z) (scopes-injective h) q)
        | inr e ↦ elim (Bool-cases (accumulates c.scope)) [
          | inl t ↦
              rw (e, t)
                (λ h.
                  subst (λ z. All P z)
                    (sym
                      (accumulated-fits c config estimate _ ws (ks ++ c.scope_key ∷ []) ws' ks'
                        h).1)
                    longer)
          | inr t ↦
              rw (e, t)
                (λ h.
                  subst (λ z. All P z)
                    (sym (request_scopes c config estimate ws (ks ++ c.scope_key ∷ []) ws' ks' h))
                    longer)
        ]
      ]

  -- A check of a budget that applies and goes on: its accumulator fits, and its scope is added.
  config-fits :
      (o : Option ScopeConfig) (config : ScopeConfig) (c : ScopeCheck) (estimate : ℤ) (now : ℕ)
      (ws : List Warning) (ks : List Text) (m : Accumulators) (ws' : List Warning) (ks' : List Text)
      → o ≡ some config
      → (c.skip || is_disabled (enforcement_of config.enforcement)) ≡ false
      → accumulates c.scope ≡ true
      → (check_config calendar warns o c estimate now ws ks m).0 ≡ goes_on ws' ks'
      → let m' = (check_config calendar warns o c estimate now ws ks m).1 in
        ((a : Accumulator) × (Dict.get c.scope_key m' ≡ some a)
          × (leb_ℤ (a.current_spend +ℤ estimate) config.limit ≡ true))
        × (ks' ≡ ks ++ c.scope_key ∷ [])
  unfolding check_config
  config-fits o config c estimate now ws ks m ws' ks' eq e t =
      let current = current_accumulator calendar (Dict.get c.scope_key m) config.window now in
      let longer = ks ++ c.scope_key ∷ [] in
      let a = (check_accumulated calendar warns c config estimate current ws longer).1 in
      rw (eq, e, t)
        (λ h.
          let fits = accumulated-fits c config estimate current ws longer ws' ks' h in
          ((a, get-set_self c.scope_key a m, fits.0), fits.1))

  accumulated_stops :
      (c : ScopeCheck) (config : ScopeConfig) (estimate : ℤ) (a : Accumulator) (ws : List Warning)
      (ks : List Text) (r : CheckResult) (ws' : List Warning) (ks' : List Text)
      → (check_accumulated calendar warns c config estimate a ws ks).0 ≡ stops r
      → ¬ (r ≡ allowed none ws' ks')
  unfolding check_accumulated
  accumulated_stops c config estimate a ws ks r ws' ks' =
      let spend = a.current_spend +ℤ estimate in
      elim (Bool-cases (leb_ℤ spend config.limit)) [
        | inr e ↦ rw e (over_exceeds (enforcement_of config.enforcement) _ ws ks r ws' ks')
        | inl e ↦ elim (Bool-cases (not a.warning_emitted && warns spend config.limit)) [
          | inl w ↦ rw (e, w) (λ h. cc)
          | inr w ↦ rw (e, w) (λ h. cc)
        ]
      ]

  -- A check that stops has exceeded a budget.
  config_stops :
      (o : Option ScopeConfig) (c : ScopeCheck) (estimate : ℤ) (now : ℕ) (ws : List Warning)
      (ks : List Text) (m : Accumulators) (r : CheckResult) (ws' : List Warning) (ks' : List Text)
      → (check_config calendar warns o c estimate now ws ks m).0 ≡ stops r
      → ¬ (r ≡ allowed none ws' ks')
  unfolding check_config check_request
  config_stops none c estimate now ws ks m r ws' ks' = λ h. cc
  config_stops (some config) c estimate now ws ks m r ws' ks' =
      let longer = ks ++ c.scope_key ∷ [] in
      let f = enforcement_of config.enforcement in
      elim (Bool-cases (c.skip || is_disabled f)) [
        | inl e ↦ rw e (λ h. cc)
        | inr e ↦ elim (Bool-cases (accumulates c.scope)) [
          | inl t ↦
              let a = current_accumulator calendar (Dict.get c.scope_key m) config.window now in
              rw (e, t) (accumulated_stops c config estimate a ws longer r ws' ks')
          | inr t ↦ elim (Bool-cases (exceeds estimate config.limit)) [
            | inl x ↦ rw (e, t, x) (over_exceeds f _ ws longer r ws' ks')
            | inr x ↦ rw (e, t, x) (λ h. cc)
          ]
        ]
      ]

  -- The last scope of a check that exceeds no budget.
  last-fits :
      (P : Text → Type 0) (cs : List ScopeCheck) (config : ScopeConfig) (c : ScopeCheck)
      (estimate : ℤ) (now : ℕ) (ws : List Warning) (ks : List Text) (m : Accumulators)
      (ws' : List Warning) (ks' : List Text)
      → c.config ≡ some config
      → (c.skip || is_disabled (enforcement_of config.enforcement)) ≡ false
      → accumulates c.scope ≡ true
      → All P ks
      → All (λ d. P d.scope_key) cs
      → (check_loop calendar warns (cs ++ c ∷ []) estimate now ws ks m).0 ≡ allowed none ws' ks'
      → let m' = (check_loop calendar warns (cs ++ c ∷ []) estimate now ws ks m).1 in
        ((a : Accumulator) × (Dict.get c.scope_key m' ≡ some a)
          × (leb_ℤ (a.current_spend +ℤ estimate) config.limit ≡ true))
        × ((js : List Text) × All P js × (ks' ≡ js ++ c.scope_key ∷ []))
  unfolding check_loop
  last-fits P [] config c estimate now ws ks m ws' ks' o e t p q =
      elim (Next-cases (check_config calendar warns c.config c estimate now ws ks m).0) [
        | inl (r, n) ↦
            rw n (λ h. absurd (config_stops c.config c estimate now ws ks m r ws' ks' n h))
        | inr (ws1, ks1, n) ↦
            let fits = config-fits c.config config c estimate now ws ks m ws1 ks1 o e t n in
            rw n (λ h. (fits.0, (ks, p, sym (allowed-injective h) ∙ fits.1)))
      ]
  last-fits P (d ∷ cs) config c estimate now ws ks m ws' ks' o e t p q =
      elim (Next-cases (check_config calendar warns d.config d estimate now ws ks m).0) [
        | inl (r, n) ↦
            rw n (λ h. absurd (config_stops d.config d estimate now ws ks m r ws' ks' n h))
        | inr (ws1, ks1, n) ↦ rw n (
            last-fits P cs config c estimate now ws1 ks1
              (check_config calendar warns d.config d estimate now ws ks m).1 ws' ks' o e t
              (config_scopes P d.config d estimate now ws ks m ws1 ks1 q.0 p n) q.1)
      ]

  reserve-other :
      (amount : ℤ) (ks : List Text) (k : Text) (now : ℕ) (m : Accumulators)
      → All (λ j. text_beq j k ≡ false) ks
      → Dict.get k (reserve_cost amount ks now m) ≡ Dict.get k m
  unfolding reserve_cost
  reserve-other amount [] k now m h = refl
  reserve-other amount (j ∷ js) k now m h =
      reserve-other amount js k now _ h.1
      ∙ (get-set j k (charged (Dict.get j m) amount now) m ∙ rw h.0 refl)

  reserve-append :
      (amount : ℤ) (ks js : List Text) (now : ℕ) (m : Accumulators)
      → reserve_cost amount (ks ++ js) now m
        ≡ reserve_cost amount js now (reserve_cost amount ks now m)
  unfolding reserve_cost
  reserve-append amount [] js now m = refl
  reserve-append amount (k ∷ ks) js now m =
      reserve-append amount ks js now (Dict.set k (charged (Dict.get k m) amount now) m)

  -- When `checkBudgets` finds no budget exceeded and the estimate is then reserved in the scopes
  -- that it has named, what has been spent over all requests is within the overall budget, unless
  -- that is disabled: whatever the other budgets are and whatever was spent before.
  pub check-reserve-within :
      (estimate : ℤ) (b : Budgets) (context : BudgetContext) (flow_budget : Option ScopeConfig)
      (now then_now : ℕ) (m : Accumulators) (config : ScopeConfig) (warnings : List Warning)
      (scopes : List Text)
      → b.overall ≡ some config
      → is_disabled (enforcement_of config.enforcement) ≡ false
      → (check_budgets calendar warns estimate (some b) context flow_budget now m).0
        ≡ allowed none warnings scopes
      → let m' = (check_budgets calendar warns estimate (some b) context flow_budget now m).1 in
        leb_ℤ
          (get_current_spend (codes "global") (reserve_cost estimate scopes then_now m'))
          config.limit
        ≡ true
  unfolding check_budgets scope_checks get_current_spend reserve_cost
  check-reserve-within estimate b context flow_budget now then_now m config warnings scopes o e h =
      let P : Text → Type 0 = λ k. text_beq k (codes "global") ≡ false in
      let checks = scope_checks b context flow_budget in
      let (fits, named) =
        last-fits P (take 3 checks) config
          (record { scope = global; config = b.overall; scope_key = codes "global"; skip = false })
          estimate now [] [] m warnings scopes o e refl tt
          (refl, (user_apart context.user_id, (refl, tt))) h in
      let (js, apart, eq) = named in
      let (a, stored, within) = fits in
      let k = codes "global" in
      let m' = (check_budgets calendar warns estimate (some b) context flow_budget now m).1 in
      rw
        (
          eq,
          reserve-append estimate js (k ∷ []) then_now m',
          get-set_self k
              (charged (Dict.get k (reserve_cost estimate js then_now m')) estimate then_now)
              (reserve_cost estimate js then_now m'),
          reserve-other estimate js k then_now m' apart,
          stored,
        )
        within
