-- ===== src/Memory/Examples.antt =====
-- memory/store.ts: the store at concrete namespaces and entries.
use runcor.Common.{ℕ, ◌≡◌, refl, some, none, [], ◌∷◌, codes}
use runcor.Memory.{MemoryEntry, Store, get, set, delete, delete_namespace}
use runcor.Memory.Isolation.{namespaces-Apart}
use runcor.Memory.Expiry.{read_after_write}
use runcor.Memory.Scoped.{scoped_get, scoped_set, scoped_set-get}
use runcor.Common.Int.{pos}
use runcor.Errors.{ok}
use runcor.Common.{◌+◌, Option}

abbrev greeting : MemoryEntry ℕ
greeting = record { key = codes "lang"; value = 7; created_at = 10; expires_at = some 50 }

abbrev stored : Store ℕ
stored = (codes "tool:x:lang", greeting) ∷ []

namespaces-Apart_example :
    ((get (codes "user:a") (codes "k") 20 (set (codes "user:b") (codes "k") greeting stored)).0
      ≡ (get (codes "user:a") (codes "k") 20 stored).0)
    × ((get (codes "user:a") (codes "k") 20 (delete (codes "user:b") (codes "k") stored)).0
        ≡ (get (codes "user:a") (codes "k") 20 stored).0)
    × ((get (codes "user:a") (codes "k") 20 (delete_namespace (codes "user:b") stored)).0
        ≡ (get (codes "user:a") (codes "k") 20 stored).0)
namespaces-Apart_example =
    namespaces-Apart (codes "user:b") (codes "user:a") (codes "k") (codes "k") 20 greeting stored
      (refl, refl)

read_after_write_example :
    ((get
        (codes "tool:x")
        (codes "lang")
        50
        (set (codes "tool:x") (codes "lang") greeting stored)).0
      ≡ none)
    × ((get
          (codes "tool:x")
          (codes "lang")
          20
          (get
            (codes "tool:x")
            (codes "lang")
            50
            (set (codes "tool:x") (codes "lang") greeting stored)).1).0
        ≡ none)
read_after_write_example = read_after_write (codes "tool:x") (codes "lang") 50 20 greeting stored

abbrev plus_one : ℕ → Option ℕ
plus_one n = some (n + 1)

scoped_set-get_example :
    (s' : Store ℕ) × (scoped_set plus_one 0
        (codes "user:a")
        (codes "k")
        (some 4)
        (some (pos 30))
        10
        stored
      ≡ ok s')
    × ((scoped_get (codes "user:a") (codes "k") 39 s').0 ≡ some 5)
scoped_set-get_example =
    scoped_set-get plus_one 0 (codes "user:a") 107 [] (some 4) (some (pos 30)) 10 39 5 stored refl
