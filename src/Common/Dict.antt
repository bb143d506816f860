-- ===== src/Common/Dict.antt =====
-- A JavaScript `Map` as an association list in insertion order: `set` on a key that is there keeps
-- its place, `delete` takes the entry out.
use mathlib.Core.Path.{◌≡◌, refl}
use mathlib.Core.Logic.{◌≢◌}
use mathlib.Core.Bool.{Bool, true, false}
use mathlib.Core.List.{List, [], ◌∷◌, map}
use mathlib.Core.Option.{Option, none, some}
use native.Mathlib.Omega.{arith}
use runcor.Common.Tests.{if◌then◌else◌}
use runcor.Common.Equality.{Eq, ◌==◌, eq_refl, eq_of_ne, includes}

abbrev pub Dict {ℓ κ} : Type ℓ → Type κ → Type (ℓ ⊔ κ)
Dict K V = List (K × V)

abbrev pub is_some {ℓ} : {V : Type ℓ} → Option V → Bool
is_some none = false
is_some (some v) = true

module _ {ℓ κ} {K : Type ℓ} {V : Type κ} ⦃e : Eq K⦄ where
  unfoldable pub get : K → Dict K V → Option V
  get k [] = none
  get k ((j, v) ∷ m) = if j == k then some v else get k m

  unfoldable pub set : K → V → Dict K V → Dict K V
  set k v [] = (k, v) ∷ []
  set k v ((j, w) ∷ m) = if j == k then (j, v) ∷ m else (j, w) ∷ set k v m

  unfoldable pub delete : K → Dict K V → Dict K V
  delete k [] = []
  delete k ((j, v) ∷ m) = if j == k then delete k m else (j, v) ∷ delete k m

  unfoldable pub has : K → Dict K V → Bool
  has k m = is_some (get k m)

  pub get-set :
      (k j : K) (v : V) (m : Dict K V) → get j (set k v m) ≡ (if k == j then some v else get j m)
  unfolding get set
  get-set k j v [] = refl
  get-set k j v ((i, w) ∷ m) =
      ground (arith, e.same_iff k j, e.same_iff i k, e.same_iff i j, get-set k j v m)

  pub get-delete :
      (k j : K) (m : Dict K V) → get j (delete k m) ≡ (if k == j then none else get j m)
  unfolding get delete
  get-delete k j [] = ground arith
  get-delete k j ((i, w) ∷ m) =
      ground (arith, e.same_iff k j, e.same_iff i k, e.same_iff i j, get-delete k j m)

  pub get-set_self : (k : K) (v : V) (m : Dict K V) → get k (set k v m) ≡ some v
  get-set_self k v m = rw (get-set, eq_refl)

  pub get-set_ne : (k j : K) (v : V) (m : Dict K V) → k ≢ j → get j (set k v m) ≡ get j m
  get-set_ne k j v m h = rw (get-set, eq_of_ne k j h)

  pub get-delete_self : (k : K) (m : Dict K V) → get k (delete k m) ≡ none
  get-delete_self k m = rw (get-delete, eq_refl)

  pub get-delete_ne : (k j : K) (m : Dict K V) → k ≢ j → get j (delete k m) ≡ get j m
  get-delete_ne k j m h = rw (get-delete, eq_of_ne k j h)

module _ {ℓ κ} {K : Type ℓ} {V : Type κ} where
  abbrev pub values : Dict K V → List V
  values m = map (λ kv. kv.1) m

module _ {ℓ κ} {K : Type ℓ} {V : Type κ} ⦃e : Eq K⦄ where
  abbrev pub keys : Dict K V → List K
  keys m = map (λ kv. kv.0) m

  -- `delete` for each key of a list.
  unfoldable pub delete_all : List K → Dict K V → Dict K V
  delete_all [] m = m
  delete_all (k ∷ ks) m = delete_all ks (delete k m)

  pub get-delete_all :
      (ks : List K) (j : K) (m : Dict K V)
      → get j (delete_all ks m) ≡ (if includes ks j then none else get j m)
  unfolding delete_all
  get-delete_all [] j m = refl
  get-delete_all (k ∷ ks) j m = ground (arith, get-delete_all ks j (delete k m), get-delete k j m)

  pub get-keys : (j : K) (m : Dict K V) (v : V) → get j m ≡ some v → includes (keys m) j ≡ true
  unfolding get
  get-keys j [] v h = cc
  get-keys j ((k, w) ∷ m) v h = ground (arith, get-keys j m v)
