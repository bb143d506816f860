-- ===== src/Policy/Guardrails/Run.antt =====
-- policy/guardrail-runner.ts: a run as a path of single verdicts.
use runcor.Common.{
  ◌≡◌, refl, sym, ap, subst, ◌∙◌, ◌⊎◌, inl, inr, ◌↔◌, Text, Option, none, some, List, [], ◌∷◌, ◌++◌,
  true, filter_by, AnyOf, AnyOf-filter_by,
}
use mathlib.Core.List.{append_assoc, append-nil}
use runcor.Common.Sort.{sort_by, sort_by-AnyOf}
use runcor.Errors.{ok, err, guardrail_blocked, ok-injective}
use runcor.Policy.Guardrails.{
  GuardrailContext, GuardrailResult, passes, blocks, warns, transforms, unknown_action, throws,
  FailureMode, pass, block, Guardrail, GuardrailWarning, applicable, apply, run_sorted,
  run_guardrails,
}

module _ {V : Type 0} (context : GuardrailContext) where
  -- A guardrail lets content through as other content, with the warnings that it gives.
  pub data Lets (g : Guardrail V) (x : V) : V → List GuardrailWarning → Type 0 where
    by_pass : g.handler x context ≡ passes → Lets g x x []
    by_warning :
        (why : Option Text)
        → g.handler x context ≡ warns why
        → Lets g x x (record { guardrail_name = g.name; reason = why; during = context.phase } ∷ [])
    by_transform : (y : V) → g.handler x context ≡ transforms y → Lets g x y []
    by_failure_pass : g.handler x context ≡ throws → g.failure_mode ≡ some pass → Lets g x x []

  -- The guardrails of a list let content through one after another.
  pub data Passage : List (Guardrail V) → V → V → List GuardrailWarning → Type 0 where
    done : {x : V} → Passage [] x x []
    next :
        {g : Guardrail V} {gs : List (Guardrail V)} {x y z : V} {ws vs us : List GuardrailWarning}
        → Lets g x y ws
        → Passage gs y z vs
        → us ≡ ws ++ vs
        → Passage (g ∷ gs) x z us

  Lets-apply :
      {g : Guardrail V} {x y : V} {ws : List GuardrailWarning}
      → Lets g x y ws
      → apply g x context ≡ ok (y, ws)
  unfolding apply
  Lets-apply (by_pass e) = rw (e, apply)
  Lets-apply (by_warning why e) = rw (e, apply)
  Lets-apply (by_transform y e) = rw (e, apply)
  Lets-apply (by_failure_pass e m) = rw (e, apply, m)

  apply-Lets :
      (g : Guardrail V) (x : V)
      → ((y : V) × (ws : List GuardrailWarning) × (apply g x context ≡ ok (y, ws)) × Lets g x y ws)
        ⊎ (apply g x context ≡ err guardrail_blocked)
  unfolding apply
  apply-Lets g x = go (g.handler x context) refl
    where
      on_failure :
          (m : Option FailureMode)
          → g.failure_mode ≡ m
          → g.handler x context ≡ throws
          → ((y : V) × (ws : List GuardrailWarning) × (apply g x context ≡ ok (y, ws))
              × Lets g x y ws)
            ⊎ (apply g x context ≡ err guardrail_blocked)
      on_failure none m e = inr (rw (e, apply, m))
      on_failure (some block) m e = inr (rw (e, apply, m))
      on_failure (some pass) m e = inl (x, [], rw (e, apply, m), by_failure_pass e m)

      go :
          (r : GuardrailResult V)
          → g.handler x context ≡ r
          → ((y : V) × (ws : List GuardrailWarning) × (apply g x context ≡ ok (y, ws))
              × Lets g x y ws)
            ⊎ (apply g x context ≡ err guardrail_blocked)
      go passes e = inl (x, [], rw (e, apply), by_pass e)
      go blocks e = inr (rw (e, apply))
      go (warns why) e = inl (x, _, rw (e, apply), by_warning why e)
      go (transforms y) e = inl (y, [], rw (e, apply), by_transform y e)
      go unknown_action e = inr (rw (e, apply))
      go throws e = on_failure g.failure_mode refl e

  Passage-run :
      (gs : List (Guardrail V)) {x y : V} {us : List GuardrailWarning}
      (before : List GuardrailWarning)
      → Passage gs x y us
      → run_sorted gs x before context ≡ ok (y, before ++ us)
  unfolding run_sorted
  Passage-run [] before done = rw append-nil
  Passage-run (g ∷ gs) {y = y} before (next {ws = ws} {vs = vs} l p e) =
      rw (Lets-apply l, run_sorted)
        (Passage-run gs (before ++ ws) p
          ∙ ap (λ us. ok (y, us)) (append_assoc before ws vs ∙ ap (λ us. before ++ us) (sym e)))

  run-Passage :
      (gs : List (Guardrail V)) (x : V) (before : List GuardrailWarning)
      → ((y : V) × (us : List GuardrailWarning) × (run_sorted gs x before context
            ≡ ok (y, before ++ us))
          × Passage gs x y us)
        ⊎ (run_sorted gs x before context ≡ err guardrail_blocked)
  unfolding run_sorted
  run-Passage [] x before = inl (x, [], rw append-nil, done)
  run-Passage (g ∷ gs) x before = elim (apply-Lets g x) [
    | inr e ↦ inr (rw (e, run_sorted))
    | inl (y, ws, e, l) ↦ elim (run-Passage gs y (before ++ ws)) [
      | inr f ↦ inr (rw (e, run_sorted) f)
      | inl (z, vs, f, p) ↦ inl (
        z,
        ws ++ vs,
        rw (e, run_sorted) (f ∙ ap (λ us. ok (z, us)) (append_assoc before ws vs)),
        next l p refl,
      )
    ]
  ]

  abbrev pub in_order : List (Guardrail V) → List (Guardrail V)
  in_order gs = sort_by (λ g. g.priority) (filter_by (applicable context) gs)

  -- A run succeeds with some content and warnings exactly if the guardrails of its phase and flow
  -- let the content through one after another in order of priority, each seeing what the one
  -- before it made, with those warnings in that order; every other run ends in GUARDRAIL_BLOCKED.
  pub run_guardrails-Passage :
      (gs : List (Guardrail V)) (x y : V) (ws : List GuardrailWarning)
      → ((run_guardrails gs x context ≡ ok (y, ws)) ↔ Passage (in_order gs) x y ws)
        × ((run_guardrails gs x context ≡ err guardrail_blocked)
            ↔ ((y : V) (ws : List GuardrailWarning) → ¬ Passage (in_order gs) x y ws))
  unfolding run_guardrails
  run_guardrails-Passage gs x y ws = (
    (
      λ h. elim (run-Passage (in_order gs) x []) [
        | inl (z, us, e, p) ↦
            (subst (λ r. Passage (in_order gs) x r.0 r.1) (ok-injective (sym e ∙ h)) p)
        | inr e ↦ cc
      ],
      λ p. Passage-run (in_order gs) [] p,
    ),
    (
      λ h y ws p. cc (Passage-run (in_order gs) [] p),
      λ h. elim (run-Passage (in_order gs) x []) [
        | inl (z, us, e, p) ↦ absurd (h z us p)
        | inr e ↦ e
      ],
    ),
  )

  abbrev AlwaysBlocks : Guardrail V → Type 0
  AlwaysBlocks g = (y : V) → g.handler y context ≡ blocks

  not-Lets :
      {g : Guardrail V} {x y : V} {ws : List GuardrailWarning} → Lets g x y ws → ¬ AlwaysBlocks g
  not-Lets {x = x} (by_pass e) b = cc (b x)
  not-Lets {x = x} (by_warning why e) b = cc (b x)
  not-Lets {x = x} (by_transform y e) b = cc (b x)
  not-Lets {x = x} (by_failure_pass e m) b = cc (b x)

  no-Passage :
      (gs : List (Guardrail V)) {x y : V} {ws : List GuardrailWarning}
      → Passage gs x y ws
      → ¬ AnyOf AlwaysBlocks gs
  no-Passage [] done b = b
  no-Passage (g ∷ gs) (next l p e) b = elim b [ inl h ↦ not-Lets l h | inr h ↦ no-Passage gs p h ]

  -- Nothing gets past a guardrail of the run's phase and flow that blocks whatever it sees.
  pub run_guardrails-blocks :
      (gs : List (Guardrail V)) (x : V)
      → AnyOf (λ g. (applicable context g ≡ true) × ((y : V) → g.handler y context ≡ blocks)) gs
      → run_guardrails gs x context ≡ err guardrail_blocked
  run_guardrails-blocks gs x h = (run_guardrails-Passage gs x x []).1.1 (λ y ws p.
      no-Passage (in_order gs) p (
        (sort_by-AnyOf (λ g. g.priority) AlwaysBlocks (filter_by (applicable context) gs)).1
          ((AnyOf-filter_by AlwaysBlocks (applicable context) gs).1 h)))
