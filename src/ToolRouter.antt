-- ===== src/ToolRouter.antt =====
-- adapter/tool-router.ts: `ToolRouter`, the registry of qualified tool names. `Schema` stands for
-- what a tool carries besides its name.
pub mod Registry
mod Examples
use runcor.Common.{
  ℕ, ◌≡◌, Text, Option, none, some, List, [], ◌∷◌, ◌++◌, Bool, true, false, if◌then◌else◌, not,
  text_beq, text_eq, codes,
}
use runcor.Common.Dict
use runcor.Common.Dict.{Dict, delete_all}
use runcor.Common.Distinct.{keys_where}
use runcor.Errors.{ErrorCode, reserved_tool_name, duplicate_tool}

pub record ToolSchema (Schema : Type 0) : Type 0 where
  pub name : Text
  pub schema : Schema

pub record ToolInfo (Schema : Type 0) : Type 0 where
  pub qualified_name : Text
  pub adapter_name : Text
  pub tool : ToolSchema Schema

pub record ToolRouter (Schema : Type 0) : Type 0 where
  pub tool_index : Dict Text Text
  pub tool_schemas : Dict Text (ToolSchema Schema)

-- `RESERVED_TOOL_NAMES.has(name)`.
abbrev pub is_reserved : Text → Bool
is_reserved name = text_beq name (codes "__structured_output")

unfoldable pub qualify : Text → Text → Text
qualify adapter tool = adapter ++ (codes "." ++ tool)

abbrev pub owned_by_other : Option Text → Text → Bool
owned_by_other none adapter = false
owned_by_other (some owner) adapter = not (text_beq owner adapter)

abbrev pub wanted : Option Text → Text → Bool
wanted none adapter = true
wanted (some a) adapter = text_beq adapter a

module _ {Schema : Type 0} where
  -- The error that ends the loop, if one does, and the router as it then is: the tools in front of
  -- the refused one are registered.
  unfoldable pub register :
      Text → List (ToolSchema Schema) → ToolRouter Schema → Option ErrorCode × ToolRouter Schema
  register adapter [] r = (none, r)
  register adapter (tool ∷ tools) r =
      let qualified = qualify adapter tool.name in
      let rest = register adapter tools (record {
        tool_index = Dict.set qualified adapter r.tool_index;
        tool_schemas = Dict.set qualified tool r.tool_schemas;
      }) in
      if is_reserved tool.name
      then (some reserved_tool_name, r)
      else if owned_by_other (Dict.get qualified r.tool_index) adapter
      then (some duplicate_tool, r)
      else rest

  unfoldable pub unregister : Text → ToolRouter Schema → ToolRouter Schema
  unregister adapter r =
      let qualified = keys_where (λ owner. text_beq owner adapter) r.tool_index in
      record {
        tool_index = delete_all qualified r.tool_index;
        tool_schemas = delete_all qualified r.tool_schemas;
      }

  unfoldable pub resolve : Text → ToolRouter Schema → Option Text
  resolve qualified r = Dict.get qualified r.tool_index

  -- `none` where `schema.name` would fail on a missing schema.
  abbrev pub push_info :
      Text
      → Text
      → Option (ToolSchema Schema)
      → Option (List (ToolInfo Schema))
      → Option (List (ToolInfo Schema))
  push_info q adapter none rest = none
  push_info q adapter (some tool) none = none
  push_info q adapter (some tool) (some rest) =
      some (record { qualified_name = q; adapter_name = adapter; tool = tool } ∷ rest)

  unfoldable pub list_entries :
      Option Text → Dict Text Text → Dict Text (ToolSchema Schema) → Option (List (ToolInfo Schema))
  list_entries filter [] schemas = some []
  list_entries filter ((q, adapter) ∷ index) schemas =
      let rest = list_entries filter index schemas in
      if not (wanted filter adapter) then rest else push_info q adapter (Dict.get q schemas) rest

  unfoldable pub list_tools : Option Text → ToolRouter Schema → Option (List (ToolInfo Schema))
  list_tools filter r = list_entries filter r.tool_index r.tool_schemas
