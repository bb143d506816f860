-- ===== src/Memory.antt =====
-- memory/store.ts: `InMemoryStore`, one map over composite keys with lazy expiry. `now` is what
-- `Date.now()` gives in the call.
pub mod Isolation
pub mod Expiry
pub mod Scoped
mod Examples
use runcor.Common.{
  ℕ, Text, Option, none, some, List, [], ◌∷◌, ◌++◌, map, Bool, true, false, if◌then◌else◌, leb,
  nat_beq, ◌&&◌, filter_by, text_eq, codes, not,
}
use runcor.Common.Dict
use runcor.Common.Dict.{Dict}

pub record MemoryEntry (V : Type 0) : Type 0 where
  pub key : Text
  pub value : V
  pub created_at : ℕ
  pub expires_at : Option ℕ

abbrev pub Store : Type 0 → Type 0
Store V = Dict Text (MemoryEntry V)

unfoldable pub composite_key : Text → Text → Text
composite_key namespace key = namespace ++ (codes ":" ++ key)

-- `String.prototype.startsWith`.
abbrev pub starts_with : Text → Text → Bool
starts_with [] s = true
starts_with (c ∷ cs) [] = false
starts_with (c ∷ cs) (d ∷ ds) = nat_beq c d && starts_with cs ds

abbrev pub expired_at : Option ℕ → ℕ → Bool
expired_at none now = false
expired_at (some t) now = leb t now

module _ {V : Type 0} where
  abbrev pub expired : MemoryEntry V → ℕ → Bool
  expired e now = expired_at e.expires_at now

  unfoldable found : Option (MemoryEntry V) → Text → ℕ → Store V → Option (MemoryEntry V) × Store V
  found none ck now s = (none, s)
  found (some e) ck now s = if expired e now then (none, Dict.delete ck s) else (some e, s)

  unfoldable pub get : Text → Text → ℕ → Store V → Option (MemoryEntry V) × Store V
  unfolding found
  get namespace key now s = let ck = composite_key namespace key in found (Dict.get ck s) ck now s

  unfoldable pub set : Text → Text → MemoryEntry V → Store V → Store V
  set namespace key entry s = Dict.set (composite_key namespace key) entry s

  unfoldable pub delete : Text → Text → Store V → Store V
  delete namespace key s = Dict.delete (composite_key namespace key) s

  -- The entries whose composite key starts with the prefix of the namespace.
  abbrev pub inside : Text → Store V → Store V
  inside namespace s = filter_by (λ kv. starts_with (namespace ++ codes ":") kv.0) s

  -- The keys that are listed, and the store without the expired entries met on the way.
  unfoldable pub list : Text → ℕ → Store V → List Text × Store V
  list namespace now s =
      let entries = inside namespace s in
      (
        map (λ kv. kv.1.key) (filter_by (λ kv. not (expired kv.1 now)) entries),
        Dict.delete_all (Dict.keys (filter_by (λ kv. expired kv.1 now) entries)) s,
      )

  unfoldable pub delete_namespace : Text → Store V → Store V
  delete_namespace namespace s = Dict.delete_all (Dict.keys (inside namespace s)) s
