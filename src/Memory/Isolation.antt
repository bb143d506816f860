-- ===== src/Memory/Isolation.antt =====
-- memory/store.ts: which namespaces are kept apart by the composite keys, and which are not.
use runcor.Common.{
  ℕ, ◌≡◌, refl, sym, ap, ◌∙◌, subst, ◌⊎◌, inl, inr, ◌≢◌, Text, Option, none, some, [], ◌∷◌, ◌++◌,
  true, false, if◌then◌else◌, text_eq, codes, arith, text_beq_iff, includes, Bool-cases,
  Option-cases,
}
use mathlib.Core.List.{append_assoc}
use runcor.Common.Dict
use runcor.Common.Dict.{
  Dict, get-set, get-set_self, get-set_ne, get-delete_ne, get-delete_all, get-keys,
}
use runcor.Memory.{
  MemoryEntry, Store, composite_key, starts_with, expired, get, set, delete, delete_namespace,
  inside, found,
}

-- The prefix that marks the keys of a namespace.
abbrev pub prefix : Text → Text
prefix namespace = namespace ++ codes ":"

-- Neither prefix starts with the other.
abbrev pub Apart : Text → Text → Type 0
Apart n m =
    (starts_with (prefix n) (prefix m) ≡ false) × (starts_with (prefix m) (prefix n) ≡ false)

-- Two prefixes of one text are comparable.
prefixes_meet :
    (a b x y : Text) → a ++ x ≡ b ++ y → (starts_with a b ≡ true) ⊎ (starts_with b a ≡ true)
prefixes_meet [] b x y e = inl refl
prefixes_meet (c ∷ cs) [] x y e = inr refl
prefixes_meet (c ∷ cs) (d ∷ ds) x y e = ground (arith, prefixes_meet cs ds x y)

composite-ne : (n m k j : Text) → Apart n m → composite_key n k ≢ composite_key m j
unfolding composite_key
composite-ne n m k j a e =
    elim (prefixes_meet (prefix n) (prefix m) k j
      (append_assoc n (codes ":") k ∙ e ∙ sym (append_assoc m (codes ":") j))) [
        | inl p ↦ cc (a.0)
        | inr p ↦ cc (a.1)
      ]

starts_with-append : (a x : Text) → starts_with a (a ++ x) ≡ true
starts_with-append [] x = refl
starts_with-append (c ∷ cs) x = ground (arith, starts_with-append cs x)

inside-keys :
    {V : Type 0} (n j : Text) (s : Store V)
    → includes (Dict.keys (inside n s)) j
      ≡ (if starts_with (prefix n) j then includes (Dict.keys s) j else false)
inside-keys n j [] = ground arith
inside-keys n j ((k, e) ∷ s) = ground (arith, inside-keys n j s, text_beq_iff k j)

-- A prefix of a longer text is comparable with the start of that text.
prefix_meets :
    (a b y : Text)
    → starts_with a (b ++ y) ≡ true
    → (starts_with a b ≡ true) ⊎ (starts_with b a ≡ true)
prefix_meets [] b y h = inl refl
prefix_meets (c ∷ cs) [] y h = inr refl
prefix_meets (c ∷ cs) (d ∷ ds) y h = ground (arith, prefix_meets cs ds y)

-- No key of one namespace starts with the prefix of one that is apart from it.
outside : (n m j : Text) → Apart n m → starts_with (prefix n) (composite_key m j) ≡ false
unfolding composite_key
outside n m j a = elim (Bool-cases (starts_with (prefix n) (composite_key m j))) [
  | inl h ↦
      elim (prefix_meets (prefix n) (prefix m) j
        (ap (starts_with (prefix n)) (append_assoc m (codes ":") j) ∙ h)) [
          | inl p ↦ cc (a.0)
          | inr p ↦ cc (a.1)
        ]
  | inr h ↦ h
]

same_key :
    (n m k : Text)
    → composite_key (n ++ (codes ":" ++ m)) k ≡ composite_key n (m ++ (codes ":" ++ k))
unfolding composite_key
same_key n m k = append_assoc n (codes ":" ++ m) (codes ":" ++ k)

inside_collision :
    (n m k : Text) → starts_with (prefix n) (composite_key (n ++ (codes ":" ++ m)) k) ≡ true
unfolding composite_key
inside_collision n m k =
    subst (λ t. starts_with (prefix n) t ≡ true)
      ((append_assoc n (codes ":") (m ++ (codes ":" ++ k)) ∙ sym (same_key n m k)))
      (starts_with-append (prefix n) (m ++ (codes ":" ++ k)))

module _ {V : Type 0} where
  found-value :
      (o : Option (MemoryEntry V)) (ck : Text) (now : ℕ) (s r : Store V)
      → (found o ck now s).0 ≡ (found o ck now r).0
  unfolding found
  found-value none ck now s r = refl
  found-value (some e) ck now s r = ground arith

  -- A read gives the same when the key holds the same.
  same_read :
      (m j : Text) (now : ℕ) (s r : Store V)
      → Dict.get (composite_key m j) s ≡ Dict.get (composite_key m j) r
      → (get m j now s).0 ≡ (get m j now r).0
  unfolding get found
  same_read m j now s r e =
      found-value (Dict.get (composite_key m j) s) (composite_key m j) now s r
      ∙ ap (λ o. (found o (composite_key m j) now r).0) e

  read_some :
      (m j : Text) (now : ℕ) (entry : MemoryEntry V) (s : Store V)
      → Dict.get (composite_key m j) s ≡ some entry
      → expired entry now ≡ false
      → (get m j now s).0 ≡ some entry
  unfolding get found
  read_some m j now entry s e h = ground (arith, e)

  read_none :
      (m j : Text) (now : ℕ) (s : Store V)
      → Dict.get (composite_key m j) s ≡ none
      → (get m j now s).0 ≡ none
  unfolding get found
  read_none m j now s e = ground (arith, e)

  get-delete_namespace :
      (n j : Text) (s : Store V)
      → Dict.get j (delete_namespace n s)
        ≡ (if starts_with (prefix n) j then none else Dict.get j s)
  unfolding delete_namespace
  get-delete_namespace n j s = elim (Option-cases (Dict.get j s)) [
    | inl e ↦ (ground (arith, get-delete_all (Dict.keys (inside n s)) j s, e))
    | inr (v, e) ↦
        (ground
          (arith, get-delete_all (Dict.keys (inside n s)) j s, inside-keys n j s, get-keys j s v e))
  ]

  -- Writes, deletions and the removal of a whole namespace leave every key of another namespace as
  -- it is, provided that neither namespace, with its colon, starts with the other with its own.
  pub namespaces-Apart :
      (n m k j : Text) (now : ℕ) (entry : MemoryEntry V) (s : Store V)
      → Apart n m
      → ((get m j now (set n k entry s)).0 ≡ (get m j now s).0)
        × ((get m j now (delete n k s)).0 ≡ (get m j now s).0)
        × ((get m j now (delete_namespace n s)).0 ≡ (get m j now s).0)
  unfolding set delete
  namespaces-Apart n m k j now entry s a =
      let ne = composite-ne n m k j a in
      (
        same_read m j now (set n k entry s) s
            (get-set_ne (composite_key n k) (composite_key m j) entry s ne),
        same_read m j now (delete n k s) s
            (get-delete_ne (composite_key n k) (composite_key m j) s ne),
        same_read m j now (delete_namespace n s) s
            (get-delete_namespace n (composite_key m j) s ∙ rw (outside n m j a)),
      )

  -- A namespace that ends in a colon and more shares its keys with the namespace in front of that
  -- colon: what is written for the key `k` of `n:m` is what `n` reads as its key `m:k`, and the
  -- removal of `n` removes it.
  pub namespaces_collide :
      (n m k : Text) (now : ℕ) (entry : MemoryEntry V) (s : Store V)
      → expired entry now ≡ false
      → let written = set (n ++ (codes ":" ++ m)) k entry s in
        ((get n (m ++ (codes ":" ++ k)) now written).0 ≡ some entry)
        × ((get (n ++ (codes ":" ++ m)) k now (delete_namespace n written)).0 ≡ none)
  unfolding set
  namespaces_collide n m k now entry s h =
      let written = set (n ++ (codes ":" ++ m)) k entry s in
      (
        read_some n (m ++ (codes ":" ++ k)) now entry written
            (subst (λ t. Dict.get t written ≡ some entry) (same_key n m k)
              (get-set_self (composite_key (n ++ (codes ":" ++ m)) k) entry s))
            h,
        read_none (n ++ (codes ":" ++ m)) k now (delete_namespace n written) (
            get-delete_namespace n (composite_key (n ++ (codes ":" ++ m)) k) written
            ∙ rw (inside_collision n m k)),
      )
