-- ===== src/ToolRouter/Examples.antt =====
-- An adapter that registers a good tool and then a reserved one.
use runcor.Common.{ℕ, ◌≡◌, refl, some, none, List, [], ◌∷◌, ◌++◌, codes, text_eq, text_beq}
use runcor.Common.Dict
use runcor.Common.Distinct.{unless}
use runcor.Errors.{reserved_tool_name}
use runcor.ToolRouter.{ToolSchema, ToolRouter, register, unregister, resolve, list_tools, qualify}
use runcor.ToolRouter.Registry.{
  Call, registers, unregisters, calls, empty, Listed, list_tools-Listed, unregister-resolve,
  register_partial,
}

abbrev search_tool : ToolSchema ℕ
search_tool = record { name = codes "search"; schema = 1 }

abbrev reserved_tool : ToolSchema ℕ
reserved_tool = record { name = codes "__structured_output"; schema = 2 }

abbrev session : List (Call ℕ)
session =
    registers (codes "web") (search_tool ∷ reserved_tool ∷ [])
    ∷ registers (codes "files") (search_tool ∷ [])
    ∷ unregisters (codes "web")
    ∷ []

list_tools-Listed_example :
    Listed (some (codes "files")) (list_tools (some (codes "files")) (calls session empty))
list_tools-Listed_example = list_tools-Listed session (some (codes "files"))

unregister-resolve_example :
    resolve (codes "files.search") (unregister (codes "files") (calls session empty))
    ≡ unless
        (λ owner. text_beq owner (codes "files"))
        (resolve (codes "files.search") (calls session empty))
unregister-resolve_example = unregister-resolve session (codes "files") (codes "files.search")

abbrev with_search : ToolRouter ℕ
with_search = record {
  tool_index = (codes "web.search", codes "web") ∷ [];
  tool_schemas = (codes "web.search", search_tool) ∷ [];
}

registers_search : register (codes "web") (search_tool ∷ []) empty ≡ (none, with_search)
unfolding register qualify Dict.get Dict.set
registers_search = refl

register_partial_example :
    register (codes "web") ((search_tool ∷ []) ++ reserved_tool ∷ search_tool ∷ []) empty
    ≡ (some reserved_tool_name, with_search)
register_partial_example =
    register_partial (codes "web") (search_tool ∷ []) (search_tool ∷ []) reserved_tool empty
      with_search registers_search refl
