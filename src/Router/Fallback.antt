-- ===== src/Router/Fallback.antt =====
-- model/router.ts: what the fallback of `complete` promises.
use runcor.Common.{
  ◌+◌, ◌≡◌, refl, ap, ◌⊎◌, inl, inr, ◌≢◌, Option, List, [], ◌∷◌, ◌++◌, false, arith, nat_beq, AnyOf,
  All, take, length, min,
}
use runcor.Errors.{Result, ok, err, no_healthy_providers}
use runcor.Router.{Provider, ProviderError, Network, Action}
use runcor.Router.Strategies.{StrategyChoice, CleanRequest}
use runcor.Router.Complete.{
  RouterError, engine_error, strategy_threw, Router, available_providers, active_order, try_ordered,
  route,
}
use runcor.Router.Attempts.{Answered, Exhausted, Responds, CallsOnly, try_providers-Responds}

list-cases :
    (xs : List Provider) → (xs ≡ []) ⊎ ((p : Provider) × (ps : List Provider) × (xs ≡ p ∷ ps))
list-cases [] = inl refl
list-cases (p ∷ ps) = inr (p, ps, refl)

positive :
    (xs : List Provider) (p : Provider) (ps : List Provider)
    → xs ≡ p ∷ ps
    → nat_beq (length xs) 0 ≡ false
positive xs p ps e = ground (arith, ap length e)

-- The providers of an order that may be tried.
abbrev pub allowed_of :
    {Q : Type 0} → Router Q → Result ProviderError (List Provider) → List Provider
allowed_of r (ok ordered) = take (min (length ordered) (r.max_fallback_attempts + 1)) ordered
allowed_of r (err thrown) = []

-- The providers that normal routing may try, in the order of the strategy in charge.
abbrev pub candidates :
    {Q : Type 0} → Option (StrategyChoice Q) → CleanRequest Q → Router Q → List Provider
candidates choice q r =
    let (ordered, r') = active_order choice r (available_providers r) q in allowed_of r' ordered

-- What the strategy in charge says for a request.
abbrev pub order_of :
    {Q : Type 0}
    → Option (StrategyChoice Q)
    → CleanRequest Q
    → Router Q
    → Result ProviderError (List Provider)
order_of choice q r = (active_order choice r (available_providers r) q).0

module _ {Q R W : Type 0} (net : Network (CleanRequest Q) R W) (q : CleanRequest Q) where
  route-cases :
      (choice : Option (StrategyChoice Q)) (r : Router Q) (w : W)
      → ((available_providers r ≡ [])
          × (route net choice q r w ≡ (err (engine_error no_healthy_providers), r, w)))
        ⊎ ((available_providers r ≢ [])
            × (route net choice q r w
                ≡ try_ordered net
                    (order_of choice q r)
                    q
                    (active_order choice r (available_providers r) q).1
                    w))
  unfolding route
  route-cases choice r w = elim (list-cases (available_providers r)) [
    | inl e ↦ inl (e, rw (ap length e) refl)
    | inr (p, ps, e) ↦ inr (λ n. cc, rw (positive (available_providers r) p ps e) refl)
  ]

  -- The strategy threw, and nothing was asked.
  abbrev pub Threw :
      Result ProviderError (List Provider)
      → Router Q
      → W
      → Result RouterError R × Router Q × W
      → Type 0
  Threw order r w (result, r', w') =
      (x : ProviderError) × (order ≡ err x)
      × (result ≡ err (strategy_threw x))
      × (r'.health ≡ r.health)
      × (w' ≡ w)

  -- What the fallback over an order comes to, by that order.
  abbrev pub Settled :
      Result ProviderError (List Provider)
      → List Provider
      → Router Q
      → W
      → Result RouterError R × Router Q × W
      → Type 0
  Settled order ps r w (result, r', w') =
      Threw order r w (result, r', w')
      ⊎ ((Answered net q ps r.health w (result, r'.health, w')
            ⊎ Exhausted net q ps [] r.health w (result, r'.health, w'))
          × ((new : List Action) × (r'.health.trace ≡ r.health.trace ++ new)
              × All (CallsOnly net q ps) new))

  try_ordered-Responds :
      (order : Result ProviderError (List Provider)) (r : Router Q) (w : W)
      → AnyOf (Responds net q) (allowed_of r order)
      → (x : R) × ((try_ordered net order q r w).0 ≡ ok x)
  unfolding try_ordered
  try_ordered-Responds (err x) r w a = absurd a
  try_ordered-Responds (ok ordered) r w a =
      try_providers-Responds net q (allowed_of r (ok ordered)) [] r.health w a

  -- While some provider is available, normal routing returns an answer if some candidate answers
  -- the request whenever it is called, whatever the others do and whatever happens to the breakers
  -- meanwhile.
  pub route-Responds :
      (choice : Option (StrategyChoice Q)) (r : Router Q) (w : W)
      → available_providers r ≢ []
      → AnyOf (Responds net q) (candidates choice q r)
      → (x : R) × ((route net choice q r w).0 ≡ ok x)
  route-Responds choice r w some_available a = elim (route-cases choice r w) [
    | inl (n, e) ↦ absurd (some_available n)
    | inr (n, e) ↦ rw e (
        try_ordered-Responds (order_of choice q r)
          (active_order choice r (available_providers r) q).1 w a)
  ]
