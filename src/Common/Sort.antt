-- ===== src/Common/Sort.antt =====
-- `Array.prototype.sort` is stable: by ascending keys, equal keys in their old order.
use mathlib.Core.List.{List, [], ◌∷◌, Perm}
use mathlib.Core.List.Perm
use mathlib.Core.Logic.{◌⊎◌, inl, inr, ◌↔◌}
use native.Mathlib.Omega.{arith}
use runcor.Common.Tests.{if◌then◌else◌, Bool-cases}
use runcor.Common.Lists.{All, AnyOf, All-map}
use runcor.Common.Int.{ℤ, leb_ℤ, ◌≤ℤ◌}

module _ {ℓ} {A : Type ℓ} (key : A → ℤ) where
  unfoldable pub insert : A → List A → List A
  insert x [] = x ∷ []
  insert x (y ∷ ys) = if leb_ℤ (key x) (key y) then x ∷ y ∷ ys else y ∷ insert x ys

  unfoldable pub sort_by : List A → List A
  unfolding insert
  sort_by [] = []
  sort_by (x ∷ xs) = insert x (sort_by xs)

  insert-perm : (x : A) (xs : List A) → Perm (insert x xs) (x ∷ xs)
  unfolding insert
  insert-perm x [] = Perm.refl _
  insert-perm x (y ∷ ys) = elim (Bool-cases (leb_ℤ (key x) (key y))) [
    | inl p ↦ rw p (Perm.refl _)
    | inr p ↦ rw p (Perm.trans (Perm.cons y (insert-perm x ys)) (Perm.swap x y ys))
  ]

  pub sort_by-perm : (xs : List A) → Perm (sort_by xs) xs
  unfolding sort_by
  sort_by-perm [] = Perm.refl []
  sort_by-perm (x ∷ xs) = Perm.trans (insert-perm x (sort_by xs)) (Perm.cons x (sort_by-perm xs))

  abbrev pub IsSorted : List A → Type 0
  IsSorted [] = Unit
  IsSorted (x ∷ xs) = All (λ y. key x ≤ℤ key y) xs × IsSorted xs

  insert-All {κ} : (P : A → Type κ) (x : A) (xs : List A) → P x → All P xs → All P (insert x xs)
  unfolding insert
  insert-All P x [] p h = (p, tt)
  insert-All P x (y ∷ ys) p h = elim (Bool-cases (leb_ℤ (key x) (key y))) [
    | inl q ↦ rw q (p, h)
    | inr q ↦ rw q (h.0, insert-All P x ys p h.1)
  ]

  insert-IsSorted : (x : A) (xs : List A) → IsSorted xs → IsSorted (insert x xs)
  unfolding insert
  insert-IsSorted x [] h = (tt, tt)
  insert-IsSorted x (y ∷ ys) h = elim (Bool-cases (leb_ℤ (key x) (key y))) [
    | inl q ↦ rw q (((ground arith), All-map (λ z r. ground arith) ys h.0), h)
    | inr q ↦ rw q (insert-All _ x ys (ground arith) h.0, insert-IsSorted x ys h.1)
  ]

  pub sort_by-IsSorted : (xs : List A) → IsSorted (sort_by xs)
  unfolding sort_by
  sort_by-IsSorted [] = tt
  sort_by-IsSorted (x ∷ xs) = insert-IsSorted x (sort_by xs) (sort_by-IsSorted xs)

  insert-AnyOf : (P : A → Type 0) (x : A) (xs : List A) → AnyOf P (insert x xs) ↔ (P x ⊎ AnyOf P xs)
  unfolding insert
  insert-AnyOf P x [] = (λ h. h, λ h. h)
  insert-AnyOf P x (y ∷ ys) = elim (Bool-cases (leb_ℤ (key x) (key y))) [
    | inl q ↦ rw q (λ h. h, λ h. h)
    | inr q ↦ rw q (
      elim [
        | inl p ↦ inr (inl p)
        | inr r ↦ elim ((insert-AnyOf P x ys).0 r) [ inl p ↦ inl p | inr s ↦ inr (inr s) ]
      ],
      elim [
        | inl p ↦ inr ((insert-AnyOf P x ys).1 (inl p))
        | inr r ↦ elim r [ inl p ↦ inl p | inr s ↦ inr ((insert-AnyOf P x ys).1 (inr s)) ]
      ],
    )
  ]

  -- Sorting does not change what some element satisfies.
  pub sort_by-AnyOf : (P : A → Type 0) (xs : List A) → AnyOf P (sort_by xs) ↔ AnyOf P xs
  unfolding sort_by
  sort_by-AnyOf P [] = (λ h. h, λ h. h)
  sort_by-AnyOf P (x ∷ xs) = (
    λ h. elim ((insert-AnyOf P x (sort_by xs)).0 h) [
      | inl p ↦ inl p
      | inr r ↦ inr ((sort_by-AnyOf P xs).0 r)
    ],
    λ h.
        (insert-AnyOf P x (sort_by xs)).1
          (elim h [ inl p ↦ inl p | inr r ↦ inr ((sort_by-AnyOf P xs).1 r) ]),
  )

  pub sort_by-All {κ} : (P : A → Type κ) (xs : List A) → All P xs → All P (sort_by xs)
  unfolding sort_by
  sort_by-All P [] h = tt
  sort_by-All P (x ∷ xs) h = insert-All P x (sort_by xs) h.0 (sort_by-All P xs h.1)
