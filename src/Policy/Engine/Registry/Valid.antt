-- ===== src/Policy/Engine/Registry/Valid.antt =====
-- policy/policy-engine.ts: what the registries hold after any sequence of additions and removals.
use runcor.Common.{
  ℕ, ◌<◌, ◌≡◌, refl, inl, inr, Text, List, [], ◌∷◌, ◌++◌, Bool, true, false, if◌then◌else◌, arith,
  any, text_eq, text_beq, text_beq_iff, ◌==◌, nat_beq, ◌||◌, Bool-cases, subst, sym,
}
use runcor.Common.Dict
use runcor.Common.Dict.{Dict}
use runcor.Errors.{Result, ok, err, ErrorCode}
use runcor.Policy.AccessControl.{AccessPolicy}
use runcor.Policy.RateLimiter.{RateLimitConfig}
use runcor.Policy.Rules.{PolicyRule}
use runcor.Policy.Guardrails.{Guardrail}
use runcor.Policy.Engine.{PolicyEngine, is_nil}
use runcor.Policy.Engine.Registry.{
  remove_first, add_policy, remove_policy, add_guardrail, remove_guardrail, add_rate_limit,
  remove_rate_limit, set_access_policy, remove_access_policy, set_tenant_config,
  remove_tenant_config, clear,
}

-- What each entry of a map satisfies, by its key and value.
abbrev pub Entries : {V : Type 0} → (Text → V → Type 0) → Dict Text V → Type 0
Entries P [] = Unit
Entries P ((k, v) ∷ m) = P k v × Entries P m

set-Entries :
    {V : Type 0} (P : Text → V → Type 0) (k : Text) (v : V) (m : Dict Text V)
    → P k v
    → Entries P m
    → Entries P (Dict.set k v m)
unfolding Dict.set
set-Entries P k v [] p h = (p, tt)
set-Entries P k v ((j, w) ∷ m) p h = elim (Bool-cases (text_beq j k)) [
  | inl e ↦ rw e (subst (λ i. P i v) (sym ((text_beq_iff j k).0 e)) p, h.1)
  | inr e ↦ rw e (h.0, set-Entries P k v m p h.1)
]

delete-Entries :
    {V : Type 0} (P : Text → V → Type 0) (k : Text) (m : Dict Text V)
    → Entries P m
    → Entries P (Dict.delete k m)
unfolding Dict.delete
delete-Entries P k [] h = tt
delete-Entries P k ((j, w) ∷ m) h = elim (Bool-cases (text_beq j k)) [
  | inl e ↦ rw e (delete-Entries P k m h.1)
  | inr e ↦ rw e (h.0, delete-Entries P k m h.1)
]

module _ {V : Type 0} where
  abbrev pub named : Text → List (Guardrail V) → Bool
  named name gs = any (λ h. h.name == name) gs

  -- No two guardrails have one name.
  abbrev pub UniqueNames : List (Guardrail V) → Type 0
  UniqueNames [] = Unit
  UniqueNames (g ∷ gs) = (named g.name gs ≡ false) × UniqueNames gs

  named-append :
      (name : Text) (gs : List (Guardrail V)) (g : Guardrail V)
      → named name (gs ++ g ∷ []) ≡ (if named name gs then true else text_beq g.name name)
  named-append name [] g = ground arith
  named-append name (h ∷ gs) g = ground (arith, named-append name gs g)

  append-UniqueNames :
      (gs : List (Guardrail V)) (g : Guardrail V)
      → UniqueNames gs
      → named g.name gs ≡ false
      → UniqueNames (gs ++ g ∷ [])
  append-UniqueNames [] g u n = (refl, tt)
  append-UniqueNames (h ∷ gs) g u n = (
    ground (
      arith,
      named-append h.name gs g,
      text_beq_iff h.name g.name,
      text_beq_iff g.name h.name,
      u.0,
      n,
    ),
    append-UniqueNames gs g u.1 (ground (arith, n)),
  )

  named-remove_first :
      (name other : Text) (gs : List (Guardrail V))
      → named other gs ≡ false
      → named other (remove_first name gs) ≡ false
  unfolding remove_first
  named-remove_first name other [] n = refl
  named-remove_first name other (g ∷ gs) n = ground (arith, named-remove_first name other gs)

  remove_first-UniqueNames :
      (name : Text) (gs : List (Guardrail V)) → UniqueNames gs → UniqueNames (remove_first name gs)
  unfolding remove_first
  remove_first-UniqueNames name [] u = tt
  remove_first-UniqueNames name (g ∷ gs) u =
      ground (arith, named-remove_first name g.name gs u.0, remove_first-UniqueNames name gs u.1, u)

  abbrev pub IsRule : Text → PolicyRule V → Type 0
  IsRule k r = (r.name ≡ k) × (is_nil r.operations ≡ false)

abbrev pub IsLimit : Text → RateLimitConfig → Type 0
IsLimit k c = (c.name ≡ k) × (0 < c.limit) × (0 < c.window_ms)

-- A call that changes the registries.
pub data Change (V C : Type 0) : Type 0 where
  adds_policy : PolicyRule V → Change V C
  removes_policy : Text → Change V C
  adds_guardrail : Guardrail V → Change V C
  removes_guardrail : Text → Change V C
  adds_rate_limit : RateLimitConfig → Change V C
  removes_rate_limit : Text → ℕ → Change V C
  sets_access_policy : AccessPolicy → Change V C
  removes_access_policy : Text → Change V C
  sets_tenant_config : Text → C → Change V C
  removes_tenant_config : Text → Change V C
  clears : Change V C

module _ {V C : Type 0} where
  -- A call that throws leaves the engine as it is.
  abbrev pub kept : PolicyEngine V C → Result ErrorCode (PolicyEngine V C) → PolicyEngine V C
  kept e (ok e') = e'
  kept e (err code) = e

  unfoldable pub change : Change V C → PolicyEngine V C → PolicyEngine V C
  change (adds_policy r) e = kept e (add_policy r e)
  change (removes_policy name) e = remove_policy name e
  change (adds_guardrail g) e = kept e (add_guardrail g e)
  change (removes_guardrail name) e = remove_guardrail name e
  change (adds_rate_limit c) e = kept e (add_rate_limit c e)
  change (removes_rate_limit name now) e = remove_rate_limit name now e
  change (sets_access_policy p) e = set_access_policy p e
  change (removes_access_policy identity) e = remove_access_policy identity e
  change (sets_tenant_config id config) e = set_tenant_config id config e
  change (removes_tenant_config id) e = remove_tenant_config id e
  change clears e = clear e

  unfoldable pub changes : List (Change V C) → PolicyEngine V C → PolicyEngine V C
  changes [] e = e
  changes (c ∷ cs) e = changes cs (change c e)

  pub record IsValid (e : PolicyEngine V C) : Type 0 where
    pub rules_valid : Entries IsRule e.rules
    pub limits_valid : Entries IsLimit e.rate_limits
    pub names_unique : UniqueNames e.guardrails

  add_policy-IsValid :
      (r : PolicyRule V) (e : PolicyEngine V C) → IsValid e → IsValid (kept e (add_policy r e))
  unfolding add_policy
  add_policy-IsValid r e v = elim (Bool-cases (Dict.has r.name e.rules)) [
    | inl h ↦ rw h v
    | inr h ↦ elim (Bool-cases (is_nil r.operations)) [
      | inl n ↦ rw (h, n) v
      | inr n ↦
          rw (h, n)
            (record {
              rules_valid = set-Entries IsRule r.name r e.rules (refl, n) v.rules_valid;
              limits_valid = v.limits_valid;
              names_unique = v.names_unique;
            })
    ]
  ]

  add_guardrail-IsValid :
      (g : Guardrail V) (e : PolicyEngine V C) → IsValid e → IsValid (kept e (add_guardrail g e))
  unfolding add_guardrail
  add_guardrail-IsValid g e v = elim (Bool-cases (named g.name e.guardrails)) [
    | inl h ↦ rw h v
    | inr h ↦ rw h (record {
      rules_valid = v.rules_valid;
      limits_valid = v.limits_valid;
      names_unique = append-UniqueNames e.guardrails g v.names_unique h;
    })
  ]

  add_rate_limit-IsValid :
      (c : RateLimitConfig) (e : PolicyEngine V C)
      → IsValid e
      → IsValid (kept e (add_rate_limit c e))
  unfolding add_rate_limit
  add_rate_limit-IsValid c e v = elim (Bool-cases (Dict.has c.name e.rate_limits)) [
    | inl h ↦ rw h v
    | inr h ↦ elim (Bool-cases (nat_beq c.limit 0 || nat_beq c.window_ms 0)) [
      | inl n ↦ rw (h, n) v
      | inr n ↦
          rw (h, n)
            (record {
              rules_valid = v.rules_valid;
              limits_valid =
                  set-Entries IsLimit c.name c e.rate_limits
                    (refl, ground (arith, n), ground (arith, n)) v.limits_valid;
              names_unique = v.names_unique;
            })
    ]
  ]

  remove_rate_limit-IsValid :
      (name : Text) (now : ℕ) (e : PolicyEngine V C)
      → IsValid e
      → IsValid (remove_rate_limit name now e)
  unfolding remove_rate_limit
  remove_rate_limit-IsValid name now e v = elim (Bool-cases (Dict.has name e.rate_limits)) [
    | inl h ↦ rw h (record {
      rules_valid = v.rules_valid;
      limits_valid = delete-Entries IsLimit name e.rate_limits v.limits_valid;
      names_unique = v.names_unique;
    })
    | inr h ↦ rw h v
  ]

  change-IsValid : (c : Change V C) (e : PolicyEngine V C) → IsValid e → IsValid (change c e)
  unfolding change remove_policy remove_guardrail set_access_policy remove_access_policy
      set_tenant_config remove_tenant_config clear
  change-IsValid (adds_policy r) e v = add_policy-IsValid r e v
  change-IsValid (removes_policy name) e v = record {
    rules_valid = delete-Entries IsRule name e.rules v.rules_valid;
    limits_valid = v.limits_valid;
    names_unique = v.names_unique;
  }
  change-IsValid (adds_guardrail g) e v = add_guardrail-IsValid g e v
  change-IsValid (removes_guardrail name) e v = record {
    rules_valid = v.rules_valid;
    limits_valid = v.limits_valid;
    names_unique = remove_first-UniqueNames name e.guardrails v.names_unique;
  }
  change-IsValid (adds_rate_limit c) e v = add_rate_limit-IsValid c e v
  change-IsValid (removes_rate_limit name now) e v = remove_rate_limit-IsValid name now e v
  change-IsValid (sets_access_policy p) e v = record {
    rules_valid = v.rules_valid;
    limits_valid = v.limits_valid;
    names_unique = v.names_unique;
  }
  change-IsValid (removes_access_policy identity) e v = record {
    rules_valid = v.rules_valid;
    limits_valid = v.limits_valid;
    names_unique = v.names_unique;
  }
  change-IsValid (sets_tenant_config id config) e v = record {
    rules_valid = v.rules_valid;
    limits_valid = v.limits_valid;
    names_unique = v.names_unique;
  }
  change-IsValid (removes_tenant_config id) e v = record {
    rules_valid = v.rules_valid;
    limits_valid = v.limits_valid;
    names_unique = v.names_unique;
  }
  change-IsValid clears e v = record {
    rules_valid = v.rules_valid;
    limits_valid = v.limits_valid;
    names_unique = v.names_unique;
  }

  -- Over any sequence of additions, removals and clearings, with those that throw: every rule stands
  -- under its name and has an operation, every rate limit stands under its name and has a positive
  -- limit and window, and no two guardrails have one name, if that was so at the start.
  pub changes-IsValid :
      (cs : List (Change V C)) (e : PolicyEngine V C) → IsValid e → IsValid (changes cs e)
  unfolding changes
  changes-IsValid [] e v = v
  changes-IsValid (c ∷ cs) e v = changes-IsValid cs (change c e) (change-IsValid c e v)
