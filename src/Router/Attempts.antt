-- ===== src/Router/Attempts.antt =====
-- model/router.ts: the loop of `complete` over the providers that it may still try.
use runcor.Common.{
  ℕ, zero, suc, ◌+◌, ◌≡◌, refl, sym, ap, ◌∙◌, ◌⊎◌, inl, inr, Text, some, List, [], ◌∷◌, ◌++◌, AnyOf,
  All, All-append, All-map, subst,
}
use mathlib.Core.List.{append_assoc, append-nil}
use runcor.Errors.{Result, ok, err}
use runcor.Router.{
  Provider, ProviderError, responded, raised, Network, Health, Action, called, slept,
  complete_with_retry,
}
use runcor.Router.Retry.{
  Reply-cases, attempts, complete_with_retry-bounded, complete_with_retry-responds,
  update_breaker-trace, update_breaker-resolved,
}
use runcor.Router.Strategies.{CleanRequest}
use runcor.Router.Complete.{
  ProviderFailure, RouterError, all_providers_failed, succeed, fail, try_providers, as_error,
}

module _ {Q R W : Type 0} (net : Network (CleanRequest Q) R W) (q : CleanRequest Q) where
  try_responded :
      (p : Provider) (ps : List Provider) (fs : List ProviderFailure) (h : Health) (w : W) (r : R)
      → (complete_with_retry net p.name q h w).0 ≡ responded r
      → try_providers net (p ∷ ps) q fs h w ≡ (
        ok r,
        succeed p.name (complete_with_retry net p.name q h w).1,
        (complete_with_retry net p.name q h w).2,
      )
  unfolding try_providers
  try_responded p ps fs h w r e = rw (e, try_providers)

  abbrev pub failed_state : Provider → Health → W → Health
  failed_state p h w =
      let (reply, h', w') = complete_with_retry net p.name q h w in fail p.name (net.clock w') h'

  abbrev pub failed_world : Provider → Health → W → W
  failed_world p h w = (complete_with_retry net p.name q h w).2

  abbrev pub failure : Provider → ProviderError → Health → W → ProviderFailure
  failure p x h w = record {
    provider_name = p.name;
    error = as_error x;
    timestamp = net.clock (failed_world p h w);
  }

  try_raised :
      (p : Provider) (ps : List Provider) (fs : List ProviderFailure) (h : Health) (w : W)
      (x : ProviderError)
      → (complete_with_retry net p.name q h w).0 ≡ raised x
      → try_providers net (p ∷ ps) q fs h w
        ≡ try_providers net ps q
            (fs ++ failure p x h w ∷ [])
            (failed_state p h w)
            (failed_world p h w)
  unfolding try_providers
  try_raised p ps fs h w x e = rw (e, try_providers)

  fail-resolved :
      (p : Provider) (h : Health) (w : W)
      → (failed_state p h w).last_resolved ≡ (complete_with_retry net p.name q h w).1.last_resolved
  unfolding fail
  fail-resolved p h w = update_breaker-resolved p.name _ _

  -- Each provider of a list failed in turn: what the call of it with its retries threw is noted, its
  -- breaker records the failure, and the last resolved provider stays what the call left it as.
  pub data Failing : List Provider → Health → W → List ProviderFailure → Health → W → Type 0 where
    none_left : {h : Health} {w : W} → Failing [] h w [] h w
    failed :
        {p : Provider} {ps : List Provider} {h h' : Health} {w w' : W} {fs : List ProviderFailure}
        {x : ProviderError}
        → (complete_with_retry net p.name q h w).0 ≡ raised x
        → (failed_state p h w).last_resolved
          ≡ (complete_with_retry net p.name q h w).1.last_resolved
        → Failing ps (failed_state p h w) (failed_world p h w) fs h' w'
        → Failing (p ∷ ps) h w (failure p x h w ∷ fs) h' w'

  -- A provider answered after those before it had failed: its call with its retries gave the
  -- answer, and it is the last resolved one.
  abbrev pub Answered : List Provider → Health → W → Result RouterError R × Health × W → Type 0
  Answered ps h w (result, h', w') =
      (before : List Provider) × (p : Provider) × (after : List Provider) × (fs : List
        ProviderFailure)
      × (h1 : Health) × (w1 : W) × (r : R) × (ps ≡ before ++ p ∷ after)
      × Failing before h w fs h1 w1
      × ((complete_with_retry net p.name q h1 w1).0 ≡ responded r)
      × (result ≡ ok r)
      × (h'.last_resolved ≡ some p.name)
      × (w' ≡ (complete_with_retry net p.name q h1 w1).2)

  -- All failed, and the error lists them in order, behind the failures `known` before.
  abbrev pub Exhausted :
      List Provider → List ProviderFailure → Health → W → Result RouterError R × Health × W → Type 0
  Exhausted ps known h w (result, h', w') =
      (fs : List ProviderFailure) × Failing ps h w fs h' w'
      × (result ≡ err (all_providers_failed (known ++ fs)))

  pub try_providers-Settled :
      (ps : List Provider) (fs : List ProviderFailure) (h : Health) (w : W)
      → Answered ps h w (try_providers net ps q fs h w)
        ⊎ Exhausted ps fs h w (try_providers net ps q fs h w)
  unfolding try_providers succeed
  try_providers-Settled [] fs h w =
      inr ([], none_left, ap (λ all. err (all_providers_failed all)) (sym (append-nil fs)))
  try_providers-Settled (p ∷ ps) fs h w =
      elim (Reply-cases (complete_with_retry net p.name q h w).0) [
        | inl (r, e) ↦
            rw (try_responded p ps fs h w r e)
              (inl ([], p, ps, [], h, w, r, refl, none_left, e, refl, refl, refl))
        | inr (x, e) ↦
            let known = fs ++ failure p x h w ∷ [] in
            let kept = fail-resolved p h w in
            subst (λ t. Answered (p ∷ ps) h w t ⊎ Exhausted (p ∷ ps) fs h w t)
              (sym (try_raised p ps fs h w x e))
              (elim (try_providers-Settled ps known (failed_state p h w) (failed_world p h w)) [
                | inl (before, p', after, gs, h1, w1, r, split, f, answer, told, last, world) ↦
                    inl (
                      p ∷ before,
                      p',
                      after,
                      failure p x h w ∷ gs,
                      h1,
                      w1,
                      r,
                      ap (λ xs. p ∷ xs) split,
                      failed e kept f,
                      answer,
                      told,
                      last,
                      world,
                    )
                | inr (gs, f, told) ↦ inr (
                  failure p x h w ∷ gs,
                  failed e kept f,
                  told
                      ∙ ap (λ all. err (all_providers_failed all))
                          (append_assoc fs (failure p x h w ∷ []) gs),
                )
              ])
      ]

  -- A provider that answers the request whenever it is called.
  abbrev pub Responds : Provider → Type 0
  Responds p = (w : W) → (r : R) × ((net.call p.name q w).0 ≡ responded r)

  pub try_providers-Responds :
      (ps : List Provider) (fs : List ProviderFailure) (h : Health) (w : W)
      → AnyOf Responds ps
      → (r : R) × ((try_providers net ps q fs h w).0 ≡ ok r)
  try_providers-Responds [] fs h w a = absurd a
  try_providers-Responds (p ∷ ps) fs h w a =
      elim (Reply-cases (complete_with_retry net p.name q h w).0) [
        | inl (r, e) ↦ (r, ap (λ t. t.0) (try_responded p ps fs h w r e))
        | inr (x, e) ↦ rw (try_raised p ps fs h w x e) (
            try_providers-Responds ps (fs ++ failure p x h w ∷ []) (failed_state p h w)
              (failed_world p h w) (elim a [ inl b ↦ absurd (answered b x e) | inr b ↦ b ]))
      ]
    where
      answered :
          Responds p → (x : ProviderError) → (complete_with_retry net p.name q h w).0 ≡ raised x → ⊥
      answered b x e = let (r, f) = b w in cc (e, complete_with_retry-responds net p.name q h w r f)

  -- An action that calls no provider outside the list.
  abbrev pub CallsOnly : List Provider → Action → Type 0
  CallsOnly ps (called name) = AnyOf (λ p. p.name ≡ name) ps
  CallsOnly ps (slept ms) = Unit

  attempts-CallsOnly :
      (name : Text) (attempt k : ℕ) (ps : List Provider)
      → AnyOf (λ p. p.name ≡ name) ps
      → All (CallsOnly ps) (attempts name attempt k)
  attempts-CallsOnly name attempt zero ps a = (a, tt)
  attempts-CallsOnly name attempt (suc k) ps a =
      (a, (tt, attempts-CallsOnly name (attempt + 1) k ps a))

  weaken : (p : Provider) (ps : List Provider) (a : Action) → CallsOnly ps a → CallsOnly (p ∷ ps) a
  weaken p ps (called name) c = inr c
  weaken p ps (slept ms) c = tt

  fail-trace :
      (p : Provider) (h : Health) (w : W)
      → (failed_state p h w).trace ≡ (complete_with_retry net p.name q h w).1.trace
  unfolding fail
  fail-trace p h w = update_breaker-trace p.name _ _

  succeed-trace : (name : Text) (h : Health) → (succeed name h).trace ≡ h.trace
  unfolding succeed
  succeed-trace name h = update_breaker-trace name _ h

  pub try_providers-CallsOnly :
      (ps : List Provider) (fs : List ProviderFailure) (h : Health) (w : W)
      → (new : List Action) × ((try_providers net ps q fs h w).1.trace ≡ h.trace ++ new)
        × All (CallsOnly ps) new
  unfolding try_providers
  try_providers-CallsOnly [] fs h w = ([], sym (append-nil h.trace), tt)
  try_providers-CallsOnly (p ∷ ps) fs h w =
      let (k, _, told, _) = complete_with_retry-bounded net p.name q h w in
      let first = attempts-CallsOnly p.name 1 k (p ∷ ps) (inl refl) in
      elim (Reply-cases (complete_with_retry net p.name q h w).0) [
        | inl (r, e) ↦
            rw (try_responded p ps fs h w r e)
              (attempts p.name 1 k, succeed-trace p.name _ ∙ told, first)
        | inr (x, e) ↦
            let (new, then_told, c) =
              try_providers-CallsOnly ps (fs ++ failure p x h w ∷ []) (failed_state p h w)
                (failed_world p h w) in
            rw (try_raised p ps fs h w x e) (
              attempts p.name 1 k ++ new,
              then_told ∙ ap (λ t. t ++ new) (fail-trace p h w ∙ told) ∙ append_assoc h.trace _ new,
              All-append (CallsOnly (p ∷ ps)) (attempts p.name 1 k) new first
                  (All-map (weaken p ps) new c),
            )
      ]
