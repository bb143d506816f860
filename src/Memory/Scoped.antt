-- ===== src/Memory/Scoped.antt =====
-- memory/scoped.ts: `ScopedMemoryImpl` over the in-memory store, for one namespace. `serialize` is
-- the round trip through `JSON.stringify` and `JSON.parse`, which may throw, and `null` the value
-- of that name; telemetry is left out.
use runcor.Common.{
  ℕ, zero, suc, ◌+◌, ◌≡◌, refl, ap, ◌∙◌, Text, Option, none, some, List, [], ◌∷◌, Bool, true, false,
  if◌then◌else◌, ltb, arith, text_eq,
}
use runcor.Common.Int.{ℤ, pos, negsuc}
use runcor.Errors.{Result, ok, err, ErrorCode, invalid_memory_key, invalid_memory_value}
use runcor.Memory.{MemoryEntry, Store, expired, get, set, delete, list}
use runcor.Memory.Expiry.{get-set_value}

-- Whether a `ttl` that may be undefined is below zero.
abbrev pub is_negative : Option ℤ → Bool
is_negative (some (negsuc n)) = true
is_negative _ = false

abbrev pub expiry : Option ℤ → ℕ → Option ℕ
expiry (some (pos (suc t))) now = some (now + suc t)
expiry _ now = none

abbrev pub value_or {ℓ} : {V : Type ℓ} → Option V → V → V
value_or none null = null
value_or (some v) null = v

module _ {V : Type 0} where
  abbrev pub value_of : Option (MemoryEntry V) → Option V
  value_of none = none
  value_of (some e) = some e.value

  unfoldable pub scoped_get : Text → Text → ℕ → Store V → Option V × Store V
  scoped_get namespace key now s = let (entry, s') = get namespace key now s in (value_of entry, s')

  stored : Option V → Text → Text → Option ℤ → ℕ → Store V → Result ErrorCode (Store V)
  stored none namespace key ttl now s = err invalid_memory_value
  stored (some serialized) namespace key ttl now s = ok (
      set namespace key
        (record { key = key; value = serialized; created_at = now; expires_at = expiry ttl now }) s)

  -- A `none` value is `undefined`.
  unfoldable pub scoped_set :
      (V → Option V)
      → V
      → Text
      → Text
      → Option V
      → Option ℤ
      → ℕ
      → Store V
      → Result ErrorCode (Store V)
  unfolding stored
  scoped_set serialize null namespace [] value ttl now s = err invalid_memory_key
  scoped_set serialize null namespace (c ∷ cs) value ttl now s =
      if is_negative ttl
      then ok s
      else stored (serialize (value_or value null)) namespace (c ∷ cs) ttl now s

  unfoldable pub scoped_delete : Text → Text → Store V → Store V
  scoped_delete namespace key s = delete namespace key s

  unfoldable pub scoped_list : Text → ℕ → Store V → List Text × Store V
  scoped_list namespace now s = list namespace now s

  -- What a read of the key gives at `later`, by the time to live of the write at `now`.
  abbrev pub read_by_ttl : Option ℤ → ℕ → ℕ → V → Option V → Option V
  read_by_ttl none now later w old = some w
  read_by_ttl (some (pos zero)) now later w old = some w
  read_by_ttl (some (pos (suc t))) now later w old =
      if ltb later (now + suc t) then some w else none
  read_by_ttl (some (negsuc n)) now later w old = old

  entry_of : Text → Option ℤ → ℕ → V → MemoryEntry V
  entry_of key ttl now w = record {
    key = key;
    value = w;
    created_at = now;
    expires_at = expiry ttl now;
  }

  stored-get :
      (namespace key : Text) (ttl : Option ℤ) (now later : ℕ) (w : V) (s : Store V)
      → let entry = entry_of key ttl now w in
        value_of (get namespace key later (set namespace key entry s)).0
        ≡ value_of (if expired entry later then none else some entry)
  unfolding entry_of
  stored-get namespace key ttl now later w s =
      ap value_of (get-set_value namespace key later (entry_of key ttl now w) s)

  -- A write of a value that can be serialized, under a key that is not empty, returns. What a read of
  -- that key gives afterwards is the serialized value, for good if there is no time to live or it is
  -- 0, and otherwise until it has passed; a negative one leaves the old value in place.
  pub scoped_set-get :
      (serialize : V → Option V) (null : V) (namespace : Text) (c : ℕ) (cs : Text)
      (value : Option V) (ttl : Option ℤ) (now later : ℕ) (w : V) (s : Store V)
      → serialize (value_or value null) ≡ some w
      → (s' : Store V) × (scoped_set serialize null namespace (c ∷ cs) value ttl now s ≡ ok s')
        × ((scoped_get namespace (c ∷ cs) later s').0
            ≡ read_by_ttl ttl now later w (scoped_get namespace (c ∷ cs) later s).0)
  unfolding scoped_set scoped_get stored entry_of
  scoped_set-get serialize null namespace c cs value none now later w s h =
      rw h (_, refl, stored-get namespace (c ∷ cs) none now later w s)
  scoped_set-get serialize null namespace c cs value (some (pos zero)) now later w s h =
      rw h (_, refl, stored-get namespace (c ∷ cs) (some (pos zero)) now later w s)
  scoped_set-get serialize null namespace c cs value (some (pos (suc t))) now later w s h =
      rw h
        (_, refl, stored-get namespace (c ∷ cs) (some (pos (suc t))) now later w s ∙ ground arith)
  scoped_set-get serialize null namespace c cs value (some (negsuc n)) now later w s h =
      (s, refl, refl)
