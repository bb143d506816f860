-- ===== src/Common/Distinct.antt =====
-- Maps whose keys are distinct, and the removal of the entries that pass a test.
use mathlib.Core.Path.{◌≡◌, refl}
use mathlib.Core.Bool.{Bool, true, false}
use mathlib.Core.List.{List, [], ◌∷◌}
use mathlib.Core.Option.{Option, none, some}
use mathlib.Core.Logic.{inl, inr}
use native.Mathlib.Omega.{arith}
use runcor.Common.Tests.{if◌then◌else◌, Option-cases}
use runcor.Common.Lists.{filter_by, All}
use runcor.Common.Equality.{Eq, includes}
use runcor.Common.Dict.{
  Dict, get, set, delete, keys, values, delete_all, get-set, get-delete, get-delete_all,
}

module _ {κ} {V : Type κ} where
  -- The value, unless it passes the test.
  abbrev pub unless : (V → Bool) → Option V → Option V
  unless p none = none
  unless p (some v) = if p v then none else some v

module _ {ℓ κ} {K : Type ℓ} {V : Type κ} ⦃e : Eq K⦄ where
  abbrev pub Distinct : Dict K V → Type κ
  Distinct [] = Unit
  Distinct ((k, v) ∷ m) = (get k m ≡ none) × Distinct m

  -- The keys of the values that pass a test.
  abbrev pub keys_where : (V → Bool) → Dict K V → List K
  keys_where p m = keys (filter_by (λ kv. p kv.1) m)

  absent-keys_where :
      (p : V → Bool) (j : K) (m : Dict K V) → get j m ≡ none → includes (keys_where p m) j ≡ false
  unfolding get
  absent-keys_where p j [] h = refl
  absent-keys_where p j ((k, v) ∷ m) h = ground (arith, absent-keys_where p j m)

  hit-keys_where :
      (p : V → Bool) (j : K) (v : V) (m : Dict K V)
      → get j m ≡ some v
      → p v ≡ true
      → includes (keys_where p m) j ≡ true
  unfolding get
  hit-keys_where p j v [] h q = cc
  hit-keys_where p j v ((k, w) ∷ m) h q = ground (arith, hit-keys_where p j v m)

  miss-keys_where :
      (p : V → Bool) (j : K) (v : V) (m : Dict K V)
      → Distinct m
      → get j m ≡ some v
      → p v ≡ false
      → includes (keys_where p m) j ≡ false
  unfolding get
  miss-keys_where p j v [] d h q = cc
  miss-keys_where p j v ((k, w) ∷ m) d h q =
      ground (arith, e.same_iff k j, miss-keys_where p j v m d.1, absent-keys_where p j m, d.0)

  pub get-delete_where :
      (p : V → Bool) (j : K) (m : Dict K V)
      → Distinct m
      → get j (delete_all (keys_where p m) m) ≡ unless p (get j m)
  get-delete_where p j m d = elim (Option-cases (get j m)) [
    | inl h ↦ ground (arith, get-delete_all (keys_where p m) j m, h)
    | inr (v, h) ↦ ground (
      arith,
      get-delete_all (keys_where p m) j m,
      hit-keys_where p j v m h,
      miss-keys_where p j v m d h,
      h,
    )
  ]

  pub set-Distinct : (k : K) (v : V) (m : Dict K V) → Distinct m → Distinct (set k v m)
  unfolding set get
  set-Distinct k v [] d = (refl, tt)
  set-Distinct k v ((j, w) ∷ m) d =
      ground (arith, e.same_iff j k, e.same_iff k j, set-Distinct k v m d.1, get-set k j v m, d.0)

  pub delete-Distinct : (k : K) (m : Dict K V) → Distinct m → Distinct (delete k m)
  unfolding delete
  delete-Distinct k [] d = tt
  delete-Distinct k ((j, w) ∷ m) d = ground (arith, delete-Distinct k m d.1, get-delete k j m, d.0)

  pub delete_all-Distinct : (ks : List K) (m : Dict K V) → Distinct m → Distinct (delete_all ks m)
  unfolding delete_all
  delete_all-Distinct [] m d = d
  delete_all-Distinct (k ∷ ks) m d = delete_all-Distinct ks (delete k m) (delete-Distinct k m d)

  -- What every lookup gives satisfies `P`, and so every value does.
  pub All-values :
      (P : V → Type 0) (m : Dict K V)
      → Distinct m
      → ((k : K) (v : V) → get k m ≡ some v → P v)
      → All P (values m)
  unfolding get
  All-values P [] d f = tt
  All-values P ((k, v) ∷ m) d f = (
    f k v (ground (arith, e.same_iff k k)),
    All-values P m d.1 (λ j w h. f j w (ground (arith, e.same_iff k j, d.0, h))),
  )
