-- ===== src/Policy/AccessControl/Correct.antt =====
-- policy/access-control.ts against a description of it that names no test.
use runcor.Common.{
  ◌≡◌, refl, ◌⊎◌, inl, inr, ◌≢◌, ◌↔◌, Text, codes, Option, none, some, List, [], ◌∷◌, true, false,
  includes, text_eq, arith, Eq, Bool-cases, Option-cases, AnyOf,
}
use runcor.Common.Dict
use runcor.Common.Dict.{Dict}
use runcor.Policy.Context.{OperationType, operation_eq}
use runcor.Policy.AccessControl.{
  AccessPolicy, evaluate_access, find_policy, get_truthy, apply_policy, decide_by, listed, unlisted,
}

-- A list that is set names the item.
abbrev pub Names : {A : Type 0} → Option (List A) → A → Type 0
Names none a = ⊥
Names (some xs) a = AnyOf (λ x. x ≡ a) xs

-- Every identity but the empty one selects its own policy.
abbrev pub Selects : Dict Text AccessPolicy → Option Text → AccessPolicy → Type 0
Selects policies none p = ⊥
Selects policies (some k) p = (k ≢ []) × (Dict.get k policies ≡ some p)

-- The policy of the user, else that of the tenant, else that of `*`.
pub data InForce (policies : Dict Text AccessPolicy) (user_id tenant_id : Option Text)
    (p : AccessPolicy) : Type 0 where
  by_user : Selects policies user_id p → InForce policies user_id tenant_id p
  by_tenant :
      ((q : AccessPolicy) → ¬ Selects policies user_id q)
      → Selects policies tenant_id p
      → InForce policies user_id tenant_id p
  by_default :
      ((q : AccessPolicy) → ¬ Selects policies user_id q)
      → ((q : AccessPolicy) → ¬ Selects policies tenant_id q)
      → Dict.get (codes "*") policies ≡ some p
      → InForce policies user_id tenant_id p

-- Nothing that is denied, and nothing outside a list of what is allowed.
pub record Permits (p : AccessPolicy) (operation : OperationType) (flow_name : Text) : Type 0 where
  pub operation_free : ¬ Names p.denied_operations operation
  pub operation_in : (p.allowed_operations ≡ none) ⊎ Names p.allowed_operations operation
  pub flow_free : ¬ Names p.denied_flows flow_name
  pub flow_in : (p.allowed_flows ≡ none) ⊎ Names p.allowed_flows flow_name

module _ {A : Type 0} ⦃e : Eq A⦄ where
  includes_iff : (xs : List A) (a : A) → (includes xs a ≡ true) ↔ AnyOf (λ x. x ≡ a) xs
  includes_iff [] a = (λ h. cc, λ h. absurd h)
  includes_iff (x ∷ xs) a = (
    λ h. ground (arith, e.same_iff x a, includes_iff xs a),
    λ h. ground (arith, e.same_iff x a, includes_iff xs a),
  )

  listed_free : (o : Option (List A)) (a : A) → (listed o a ≡ false) ↔ (¬ Names o a)
  listed_free none a = (λ _ h. h, λ _. refl)
  listed_free (some xs) a = (
    λ h n. cc ((includes_iff xs a).1 n),
    λ h. elim (Bool-cases (includes xs a)) [
      | inl p ↦ absurd (h ((includes_iff xs a).0 p))
      | inr p ↦ p
    ],
  )

  unlisted_in : (o : Option (List A)) (a : A) → (unlisted o a ≡ false) ↔ ((o ≡ none) ⊎ Names o a)
  unlisted_in none a = (λ _. inl refl, λ _. refl)
  unlisted_in (some xs) a = (
    λ h. inr ((includes_iff xs a).0 (ground arith)),
    elim [ inl n ↦ cc | inr n ↦ rw ((includes_iff xs a).1 n) ],
  )

get_truthy_iff :
    (ps : Dict Text AccessPolicy) (u : Option Text) (p : AccessPolicy)
    → (get_truthy ps u ≡ some p) ↔ Selects ps u p
unfolding get_truthy
get_truthy_iff ps none p = (λ h. cc, λ h. absurd h)
get_truthy_iff ps (some []) p = (λ h. cc, λ h. absurd (h.0 refl))
get_truthy_iff ps (some (c ∷ cs)) p = (λ h. (λ e. cc, h), λ h. h.1)

get_truthy-none :
    (ps : Dict Text AccessPolicy) (u : Option Text)
    → (get_truthy ps u ≡ none) ↔ ((q : AccessPolicy) → ¬ Selects ps u q)
get_truthy-none ps u = (
  λ h q s. cc ((get_truthy_iff ps u q).1 s),
  λ h. elim (Option-cases (get_truthy ps u)) [
    | inl e ↦ e
    | inr (q, e) ↦ absurd (h q ((get_truthy_iff ps u q).0 e))
  ],
)

find_policy_iff :
    (ps : Dict Text AccessPolicy) (u t : Option Text) (p : AccessPolicy)
    → (find_policy ps u t ≡ some p) ↔ InForce ps u t p
unfolding find_policy
find_policy_iff ps u t p = (
  λ h. elim (Option-cases (get_truthy ps u)) [
    | inr (q, e) ↦ by_user ((get_truthy_iff ps u p).0 (ground arith))
    | inl e ↦ elim (Option-cases (get_truthy ps t)) [
      | inr (q, f) ↦
          by_tenant ((get_truthy-none ps u).0 e) ((get_truthy_iff ps t p).0 (ground arith))
      | inl f ↦ by_default ((get_truthy-none ps u).0 e) ((get_truthy-none ps t).0 f) (ground arith)
    ]
  ],
  elim [
    | by_user s ↦ rw ((get_truthy_iff ps u p).1 s)
    | by_tenant n s ↦ rw ((get_truthy-none ps u).1 n, (get_truthy_iff ps t p).1 s)
    | by_default n m s ↦ rw ((get_truthy-none ps u).1 n, (get_truthy-none ps t).1 m, s)
  ],
)

evaluate-decide :
    (ps : Dict Text AccessPolicy) (u t : Option Text) (o : OperationType) (f : Text)
    → evaluate_access ps u t o f ≡ decide_by (find_policy ps u t) o f
unfolding evaluate_access Dict.has
evaluate-decide ps u t o f = ground arith

apply_policy_iff :
    (p : AccessPolicy) (o : OperationType) (f : Text)
    → ((apply_policy p o f).allowed ≡ true) ↔ Permits p o f
unfolding apply_policy
apply_policy_iff p o f = (
  λ h. record {
    operation_free = (listed_free p.denied_operations o).0 (ground arith);
    operation_in = (unlisted_in p.allowed_operations o).0 (ground arith);
    flow_free = (listed_free p.denied_flows f).0 (ground arith);
    flow_in = (unlisted_in p.allowed_flows f).0 (ground arith);
  },
  λ h. rw (
    (listed_free p.denied_operations o).1 h.operation_free,
    (unlisted_in p.allowed_operations o).1 h.operation_in,
    (listed_free p.denied_flows f).1 h.flow_free,
    (unlisted_in p.allowed_flows f).1 h.flow_in,
  ),
)

-- A request is allowed exactly if the policy in force, should there be one, permits its operation
-- and its flow. In force is the policy of the user, else that of the tenant, else the one for `*`;
-- it permits what none of its denials names and each of its lists of allowed items, if set, names.
pub evaluate_access-allowed :
    (ps : Dict Text AccessPolicy) (u t : Option Text) (o : OperationType) (f : Text)
    → ((evaluate_access ps u t o f).allowed ≡ true)
      ↔ ((p : AccessPolicy) → InForce ps u t p → Permits p o f)
unfolding decide_by
evaluate_access-allowed ps u t o f =
    rw (evaluate-decide ps u t o f) (elim (Option-cases (find_policy ps u t)) [
      | inl e ↦ rw (e, decide_by) (λ _ p h. cc (e, (find_policy_iff ps u t p).1 h), λ _. refl)
      | inr (q, e) ↦
          rw (e, decide_by)
            (
              λ h p g. (apply_policy_iff p o f).0 (cc (h, e, (find_policy_iff ps u t p).1 g)),
              λ h. (apply_policy_iff q o f).1 (h q ((find_policy_iff ps u t q).0 e)),
            )
    ])
