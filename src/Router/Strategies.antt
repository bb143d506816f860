-- ===== src/Router/Strategies.antt =====
-- model/strategies.ts: the order in which providers are tried. `lowest-cost`, which adds prices in
-- floating point, is left to the caller's own strategies, which are any function that keeps no state.
use runcor.Common.{
  ℕ, zero, suc, ◌+◌, ◌%◌, ◌≤◌, ◌<◌, ◌≡◌, refl, sym, ap, ◌∙◌, Text, Bool, Option, none, some, List,
  [], ◌∷◌, length, drop, arith,
}
use mathlib.Core.List.{Perm}
use native.Mathlib.Nat.{mod-eq_of_lt, zero-add}
use native.Mathlib.Numerals.{add-one}
use runcor.Common.Sort.{sort_by, sort_by-perm, sort_by-IsSorted, IsSorted}
use runcor.Errors.{Result, ok}
use runcor.Router.{Provider, ProviderError}

pub record Message : Type 0 where
  pub is_system : Bool
  pub content : Text

-- A request without its overrides, as `normalizeRequest` leaves it: the fields that the router
-- reads, and the others, `Q`.
pub record CleanRequest (Q : Type 0) : Type 0 where
  pub prompt : Option Text
  pub messages : Option (List Message)
  pub system_prompt : Option Text
  pub rest : Q

-- A strategy of the caller's: the order of the providers for a request, or what it throws.
abbrev pub RoutingStrategy : Type 0 → Type 0
RoutingStrategy Q = List Provider → CleanRequest Q → Result ProviderError (List Provider)

pub data Strategy (Q : Type 0) : Type 0 where
  by_priority : Strategy Q
  -- The closure's counter.
  round_robin : ℕ → Strategy Q
  custom : RoutingStrategy Q → Strategy Q

abbrev pub get_elem? {ℓ} : {A : Type ℓ} → List A → ℕ → Option A
get_elem? [] i = none
get_elem? (x ∷ xs) zero = some x
get_elem? (x ∷ xs) (suc i) = get_elem? xs i

abbrev pub push_some {ℓ} : {A : Type ℓ} → Option A → List A → List A
push_some none xs = xs
push_some (some x) xs = x ∷ xs

-- The loop that pushes `providers[(index + i) % len]`, with the rounds left and `i`.
unfoldable pub rotate_from : List Provider → ℕ → ℕ → ℕ → List Provider
rotate_from ps index zero i = []
rotate_from ps index (suc n) i =
    push_some (get_elem? ps ((index + i) % length ps)) (rotate_from ps index n (i + 1))

unfoldable pub priority_order : List Provider → List Provider
priority_order ps = sort_by (λ p. p.priority) ps

-- A strategy's call: what it returns or throws, and the strategy with its counter moved on.
unfoldable pub apply_strategy :
    {Q : Type 0}
    → Strategy Q
    → List Provider
    → CleanRequest Q
    → Result ProviderError (List Provider) × Strategy Q
unfolding rotate_from priority_order
apply_strategy by_priority ps q = (ok (priority_order ps), by_priority)
apply_strategy (round_robin counter) ps q =
    (ok (rotate_from ps (counter % length ps) (length ps) 0), round_robin (counter + 1))
apply_strategy (custom f) ps q = (f ps q, custom f)

-- The names and functions that a configuration or a request may give.
pub data StrategyChoice (Q : Type 0) : Type 0 where
  named_priority named_round_robin : StrategyChoice Q
  given : RoutingStrategy Q → StrategyChoice Q

-- `resolveStrategy`: a name makes a new strategy.
unfoldable pub resolve_strategy : {Q : Type 0} → StrategyChoice Q → Strategy Q
resolve_strategy named_priority = by_priority
resolve_strategy named_round_robin = round_robin 0
resolve_strategy (given f) = custom f

get_elem?-drop :
    (ps : List Provider) (i : ℕ)
    → i < length ps
    → (p : Provider) × (get_elem? ps i ≡ some p) × (drop i ps ≡ p ∷ drop (suc i) ps)
get_elem?-drop [] i h = absurd (omega arith)
get_elem?-drop (p ∷ ps) zero h = (p, refl, refl)
get_elem?-drop (p ∷ ps) (suc i) h = get_elem?-drop ps i (omega arith)

drop_all : (ps : List Provider) (i : ℕ) → length ps ≤ i → drop i ps ≡ []
drop_all [] zero h = refl
drop_all [] (suc i) h = refl
drop_all (p ∷ ps) zero h = absurd (omega arith)
drop_all (p ∷ ps) (suc i) h = drop_all ps i (omega arith)

mod_start : (i n : ℕ) → i < n → (0 + i) % n ≡ i
mod_start i n h = rw (zero-add, mod-eq_of_lt h)

rotate_from-start :
    (ps : List Provider) (n i : ℕ) → i + n ≡ length ps → rotate_from ps 0 n i ≡ drop i ps
unfolding rotate_from
rotate_from-start ps zero i h = sym (drop_all ps i (omega arith))
rotate_from-start ps (suc n) i h =
    let (p, found, split) = get_elem?-drop ps i (omega arith) in
    let place : (0 + i) % length ps ≡ i = mod_start i (length ps) (omega arith) in
    rw (place, found, add-one, rotate_from-start ps n (suc i) (omega arith)) (sym split)

-- The priority strategy tries every provider once, in ascending order of priority.
pub priority_order-IsSorted :
    (ps : List Provider)
    → Perm (priority_order ps) ps × IsSorted (λ p. p.priority) (priority_order ps)
unfolding priority_order
priority_order-IsSorted ps =
    (sort_by-perm (λ p. p.priority) ps, sort_by-IsSorted (λ p. p.priority) ps)

-- A round-robin strategy that is resolved anew, as an override by name is for each request, starts
-- at the first provider: it always gives the order of registration.
pub resolved_round_robin :
    {Q : Type 0} (ps : List Provider) (q : CleanRequest Q)
    → (apply_strategy (resolve_strategy named_round_robin) ps q).0 ≡ ok ps
unfolding apply_strategy resolve_strategy
resolved_round_robin [] q = refl
resolved_round_robin (p ∷ ps) q =
    ap (λ k. ok (rotate_from (p ∷ ps) k (length (p ∷ ps)) 0))
      (mod-eq_of_lt (let h : 0 < length (p ∷ ps) = omega arith in h))
    ∙ ap (λ xs. ok xs) (rotate_from-start (p ∷ ps) (length (p ∷ ps)) 0 (omega arith))
