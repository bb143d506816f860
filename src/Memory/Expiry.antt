-- ===== src/Memory/Expiry.antt =====
-- memory/store.ts: a read after a write, and the lazy removal of what has expired.
use runcor.Common.{ℕ, ◌≡◌, ap, Text, none, some, if◌then◌else◌, arith, text_eq}
use runcor.Common.Dict
use runcor.Common.Dict.{get-set_self, get-delete_self}
use runcor.Memory.{MemoryEntry, Store, composite_key, expired, found, get, set}

module _ {V : Type 0} where
  get-set_result :
      (n k : Text) (now : ℕ) (entry : MemoryEntry V) (s : Store V)
      → get n k now (set n k entry s) ≡ (
          if expired entry now
          then (none, Dict.delete (composite_key n k) (set n k entry s))
          else (some entry, set n k entry s))
  unfolding get set found
  get-set_result n k now entry s =
      ap (λ o. found o (composite_key n k) now (set n k entry s))
        (get-set_self (composite_key n k) entry s)

  -- The value that a read gives at any time after a write.
  pub get-set_value :
      (n k : Text) (now : ℕ) (entry : MemoryEntry V) (s : Store V)
      → (get n k now (set n k entry s)).0 ≡ (if expired entry now then none else some entry)
  get-set_value n k now entry s = ground (arith, get-set_result n k now entry s)

  get-absent :
      (n k : Text) (now : ℕ) (s : Store V)
      → Dict.get (composite_key n k) s ≡ none
      → (get n k now s).0 ≡ none
  unfolding get found
  get-absent n k now s e = ground (arith, e)

  -- What is written for a key is what a read gives back before its expiry time; a read at that time
  -- or later gives nothing, and takes the entry out, so that no read after it finds the entry,
  -- whatever its clock says.
  pub read_after_write :
      (n k : Text) (now later : ℕ) (entry : MemoryEntry V) (s : Store V)
      → ((get n k now (set n k entry s)).0 ≡ (if expired entry now then none else some entry))
        × ((get n k later (get n k now (set n k entry s)).1).0
            ≡ (if expired entry now then none else (get n k later (set n k entry s)).0))
  read_after_write n k now later entry s =
      let written = set n k entry s in
      let gone =
        get-absent n k later (Dict.delete (composite_key n k) written)
          (get-delete_self (composite_key n k) written) in
      ground (arith, get-set_result n k now entry s, gone)
