-- ===== src/Router/Retry.antt =====
-- model/router.ts: `completeWithRetry` calls one provider at most three times.
use runcor.Common.{
  ℕ, zero, suc, ◌+◌, ◌-◌, ◌*◌, ◌^◌, ◌≤◌, ◌≡◌, refl, ap, ◌∙◌, ◌⊎◌, inl, inr, Text, List, [], ◌∷◌,
  ◌++◌, true, false, arith, nat_beq, Bool-cases, text_eq,
}
use mathlib.Core.List.{append_assoc}
use runcor.CircuitBreaker.{CircuitBreaker}
use runcor.Router.{
  ProviderError, Reply, responded, raised, Network, Health, Interference, succeeds, fails,
  timer_fires, resolves, Action, called, slept, note, interfere, update_breaker, is_transient,
  retry_loop, complete_with_retry, undefined,
}

pub update_breaker-trace :
    (name : Text) (f : CircuitBreaker → CircuitBreaker) (h : Health)
    → (update_breaker name f h).trace ≡ h.trace
unfolding update_breaker
update_breaker-trace name f h = ground arith

pub update_breaker-resolved :
    (name : Text) (f : CircuitBreaker → CircuitBreaker) (h : Health)
    → (update_breaker name f h).last_resolved ≡ h.last_resolved
unfolding update_breaker
update_breaker-resolved name f h = ground arith

pub interfere-trace : (is : List Interference) (h : Health) → (interfere is h).trace ≡ h.trace
unfolding interfere
interfere-trace [] h = refl
interfere-trace (succeeds n now ∷ is) h = interfere-trace is _ ∙ update_breaker-trace n _ h
interfere-trace (fails n now ∷ is) h = interfere-trace is _ ∙ update_breaker-trace n _ h
interfere-trace (timer_fires n now ∷ is) h = interfere-trace is _ ∙ update_breaker-trace n _ h
interfere-trace (resolves n ∷ is) h = interfere-trace is _

pub Reply-cases :
    {R : Type 0} (r : Reply R)
    → ((x : R) × (r ≡ responded x)) ⊎ ((e : ProviderError) × (r ≡ raised e))
Reply-cases (responded x) = inl (x, refl)
Reply-cases (raised e) = inr (e, refl)

-- A call, then `k` times a wait, each twice as long as the one before, and a call.
abbrev pub attempts : Text → ℕ → ℕ → List Action
attempts name attempt zero = called name ∷ []
attempts name attempt (suc k) =
    called name ∷ slept (200 * 2 ^ (attempt - 1)) ∷ attempts name (attempt + 1) k

abbrev pub Tried : Text → ℕ → ℕ → {R : Type 0} → Reply R → List Action → List Action → Type 0
Tried name attempt n reply before after =
    (k : ℕ) × (k ≤ n)
    × (after ≡ before ++ attempts name attempt k)
    × ((e : ProviderError) → reply ≡ raised e → is_transient e ≡ true → k ≡ n)

module _ {Q R W : Type 0} (net : Network Q R W) (name : Text) (q : Q) where
  -- The state behind the round's call.
  abbrev called_state : Health → W → Health
  called_state h w = interfere (net.call name q w).1 (note (called name) h)

  abbrev slept_state : ℕ → Health → W → Health
  slept_state attempt h w =
      let delay = 200 * 2 ^ (attempt - 1) in
      interfere (net.sleep delay (net.call name q w).2).0 (note (slept delay) (called_state h w))

  loop_responded :
      (n attempt : ℕ) (last : ProviderError) (h : Health) (w : W) (r : R)
      → (net.call name q w).0 ≡ responded r
      → retry_loop net (suc n) attempt name q last h w
        ≡ (responded r, called_state h w, (net.call name q w).2)
  unfolding retry_loop
  loop_responded n attempt last h w r e = rw (e, retry_loop)

  loop_stops :
      (n attempt : ℕ) (last : ProviderError) (h : Health) (w : W) (x : ProviderError)
      → (net.call name q w).0 ≡ raised x
      → (is_transient x ≡ false) ⊎ (attempt ≡ 3)
      → retry_loop net (suc n) attempt name q last h w
        ≡ (raised x, called_state h w, (net.call name q w).2)
  unfolding retry_loop
  loop_stops n attempt last h w x e (inl t) = rw (e, retry_loop, t)
  loop_stops n attempt last h w x e (inr t) = elim (Bool-cases (is_transient x)) [
    | inl y ↦ rw (e, retry_loop, y, t)
    | inr y ↦ rw (e, retry_loop, y)
  ]

  loop_again :
      (n attempt : ℕ) (last : ProviderError) (h : Health) (w : W) (x : ProviderError)
      → (net.call name q w).0 ≡ raised x
      → is_transient x ≡ true
      → nat_beq attempt 3 ≡ false
      → retry_loop net (suc n) attempt name q last h w
        ≡ retry_loop net n
            (attempt + 1)
            name
            q
            x
            (slept_state attempt h w)
            (net.sleep (200 * 2 ^ (attempt - 1)) (net.call name q w).2).1
  unfolding retry_loop
  loop_again n attempt last h w x e t l = rw (e, retry_loop, t, l)

  called-trace : (h : Health) (w : W) → (called_state h w).trace ≡ h.trace ++ called name ∷ []
  called-trace h w = interfere-trace _ _

  slept-trace :
      (attempt : ℕ) (h : Health) (w : W)
      → (slept_state attempt h w).trace
        ≡ h.trace ++ called name ∷ slept (200 * 2 ^ (attempt - 1)) ∷ []
  slept-trace attempt h w =
      interfere-trace _ _
      ∙ ap (λ t. t ++ slept (200 * 2 ^ (attempt - 1)) ∷ []) (called-trace h w)
      ∙ append_assoc h.trace (called name ∷ []) (slept (200 * 2 ^ (attempt - 1)) ∷ [])

  loop-Tried :
      (n attempt : ℕ) (last : ProviderError) (h : Health) (w : W)
      → attempt + n ≡ 3
      → let (reply, h', w') = retry_loop net (suc n) attempt name q last h w in
        Tried name attempt n reply h.trace h'.trace
  loop-Tried zero attempt last h w s = elim (Reply-cases (net.call name q w).0) [
    | inl (r, e) ↦
        rw (loop_responded zero attempt last h w r e)
          (0, omega arith, called-trace h w, λ x f t. refl)
    | inr (x, e) ↦
        rw (loop_stops zero attempt last h w x e (inr (omega arith)))
          (0, omega arith, called-trace h w, λ y f t. refl)
  ]
  loop-Tried (suc n) attempt last h w s = elim (Reply-cases (net.call name q w).0) [
    | inl (r, e) ↦
        rw (loop_responded (suc n) attempt last h w r e)
          (0, omega arith, called-trace h w, λ x f t. cc)
    | inr (x, e) ↦ elim (Bool-cases (is_transient x)) [
      | inr t ↦
          rw (loop_stops (suc n) attempt last h w x e (inl t))
            (0, omega arith, called-trace h w, λ y f u. cc)
      | inl t ↦
          let (k, below, told, exhausted) =
            loop-Tried n (attempt + 1) x (slept_state attempt h w)
              (net.sleep (200 * 2 ^ (attempt - 1)) (net.call name q w).2).1 (omega arith) in
          rw (loop_again (suc n) attempt last h w x e t (ground arith)) (
            suc k,
            omega arith,
            told
                ∙ ap (λ b. b ++ attempts name (attempt + 1) k) (slept-trace attempt h w)
                ∙ append_assoc h.trace _ _,
            λ y f u. ap suc (exhausted y f u),
          )
    ]
  ]

  -- A provider gets one to three calls in a row, with waits of 200 ms and then 400 ms between
  -- them, and nothing else is asked of the network. An error that is transient is reported only
  -- after the third call.
  pub complete_with_retry-bounded :
      (h : Health) (w : W)
      → let (reply, h', w') = complete_with_retry net name q h w in
        (k : ℕ) × (k ≤ 2)
        × (h'.trace ≡ h.trace ++ attempts name 1 k)
        × ((e : ProviderError) → reply ≡ raised e → is_transient e ≡ true → k ≡ 2)
  unfolding complete_with_retry
  complete_with_retry-bounded h w = loop-Tried 2 1 undefined h w refl

  -- A provider that answers the call at hand is not called again.
  pub complete_with_retry-responds :
      (h : Health) (w : W) (r : R)
      → (net.call name q w).0 ≡ responded r
      → (complete_with_retry net name q h w).0 ≡ responded r
  unfolding complete_with_retry
  complete_with_retry-responds h w r e = ap (λ t. t.0) (loop_responded 2 1 undefined h w r e)
