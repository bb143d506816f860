-- ===== src/ToolRouter/Registry.antt =====
-- adapter/tool-router.ts: the registry over any sequence of calls, with those that throw.
use runcor.Common.{
  ◌≡◌, refl, inl, inr, Text, Option, none, some, List, [], ◌∷◌, ◌++◌, true, text_eq, text_beq,
  text_beq_iff, arith, Bool-cases, All, eq_refl,
}
use runcor.Common.Dict
use runcor.Common.Dict.{Dict, get-set, get-delete_all}
use runcor.Common.Distinct.{
  Distinct, unless, keys_where, get-delete_where, set-Distinct, delete_all-Distinct,
}
use runcor.Errors.{reserved_tool_name}
use runcor.ToolRouter.{
  ToolSchema, ToolInfo, ToolRouter, is_reserved, qualify, owned_by_other, register, unregister,
  resolve, wanted, list_entries, list_tools,
}

pub data Call (Schema : Type 0) : Type 0 where
  registers : (adapter : Text) (tools : List (ToolSchema Schema)) → Call Schema
  unregisters : (adapter : Text) → Call Schema

head_found : (k a : Text) (index : Dict Text Text) → Dict.get k ((k, a) ∷ index) ≡ some a
unfolding Dict.get
head_found k a index = rw (eq_refl)

tail_found :
    (k a q b : Text) (index : Dict Text Text)
    → Dict.get k index ≡ none
    → Dict.get q index ≡ some b
    → Dict.get q ((k, a) ∷ index) ≡ some b
unfolding Dict.get
tail_found k a q b index n h = ground (arith, text_beq_iff k q, n, h)

module _ {Schema : Type 0} where
  abbrev pub empty : ToolRouter Schema
  empty = record { tool_index = []; tool_schemas = [] }

  -- The router after calls, where one that throws leaves what it has registered by then.
  unfoldable pub call : Call Schema → ToolRouter Schema → ToolRouter Schema
  call (registers adapter tools) r = (register adapter tools r).1
  call (unregisters adapter) r = unregister adapter r

  unfoldable pub calls : List (Call Schema) → ToolRouter Schema → ToolRouter Schema
  calls [] r = r
  calls (c ∷ cs) r = calls cs (call c r)

  -- A tool that is found, and the name under which its owner registered it.
  abbrev pub IsNamed : Text → Text → Dict Text (ToolSchema Schema) → Type 0
  IsNamed q adapter schemas =
      (tool : ToolSchema Schema) × (Dict.get q schemas ≡ some tool)
      × (q ≡ qualify adapter tool.name)

  abbrev pub IsWellFormed : ToolRouter Schema → Type 0
  IsWellFormed r =
      Distinct r.tool_index
      × ((q adapter : Text)
          → Dict.get q r.tool_index ≡ some adapter
          → IsNamed q adapter r.tool_schemas)

  added : Text → ToolSchema Schema → ToolRouter Schema → ToolRouter Schema
  added adapter tool r = record {
    tool_index = Dict.set (qualify adapter tool.name) adapter r.tool_index;
    tool_schemas = Dict.set (qualify adapter tool.name) tool r.tool_schemas;
  }

  added-IsWellFormed :
      (adapter : Text) (tool : ToolSchema Schema) (r : ToolRouter Schema)
      → IsWellFormed r
      → IsWellFormed (added adapter tool r)
  unfolding added
  added-IsWellFormed adapter tool r w =
      let k = qualify adapter tool.name in
      (
        set-Distinct k adapter r.tool_index w.0,
        λ q a h. elim (Bool-cases (text_beq k q)) [
          | inl e ↦ (
            tool,
            ground (arith, get-set k q tool r.tool_schemas, e),
            ground (arith, text_beq_iff k q, get-set k q adapter r.tool_index, h, e),
          )
          | inr e ↦
              let n = w.1 q a (ground (arith, get-set k q adapter r.tool_index, h, e)) in
              (n.0, ground (arith, get-set k q tool r.tool_schemas, n.1, e), n.2)
        ],
      )

  register-IsWellFormed :
      (adapter : Text) (tools : List (ToolSchema Schema)) (r : ToolRouter Schema)
      → IsWellFormed r
      → IsWellFormed (register adapter tools r).1
  unfolding register added
  register-IsWellFormed adapter [] r w = w
  register-IsWellFormed adapter (tool ∷ tools) r w = elim (Bool-cases (is_reserved tool.name)) [
    | inl e ↦ rw e w
    | inr e ↦
        elim (Bool-cases
          (owned_by_other (Dict.get (qualify adapter tool.name) r.tool_index) adapter)) [
            | inl o ↦ rw (e, o) w
            | inr o ↦
                rw (e, o)
                  (register-IsWellFormed adapter tools (added adapter tool r)
                    (added-IsWellFormed adapter tool r w))
          ]
  ]

  unregister-IsWellFormed :
      (adapter : Text) (r : ToolRouter Schema)
      → IsWellFormed r
      → IsWellFormed (unregister adapter r)
  unfolding unregister
  unregister-IsWellFormed adapter r w =
      let gone = keys_where (λ owner. text_beq owner adapter) r.tool_index in
      (
        delete_all-Distinct gone r.tool_index w.0,
        λ q a h.
            let n = w.1 q a (ground (arith, get-delete_all gone q r.tool_index, h)) in
            (
              n.0,
              ground (
                arith,
                get-delete_all gone q r.tool_index,
                get-delete_all gone q r.tool_schemas,
                n.1,
                h,
              ),
              n.2,
            ),
      )

  calls-IsWellFormed :
      (cs : List (Call Schema)) (r : ToolRouter Schema) → IsWellFormed r → IsWellFormed (calls cs r)
  unfolding calls call
  calls-IsWellFormed [] r w = w
  calls-IsWellFormed (registers adapter tools ∷ cs) r w =
      calls-IsWellFormed cs (register adapter tools r).1 (register-IsWellFormed adapter tools r w)
  calls-IsWellFormed (unregisters adapter ∷ cs) r w =
      calls-IsWellFormed cs (unregister adapter r) (unregister-IsWellFormed adapter r w)

  empty-IsWellFormed : IsWellFormed empty
  unfolding Dict.get
  empty-IsWellFormed = (tt, λ q a h. cc)

  abbrev pub IsQualified : ToolInfo Schema → Type 0
  IsQualified i = i.qualified_name ≡ qualify i.adapter_name i.tool.name

  abbrev pub Listed : Option Text → Option (List (ToolInfo Schema)) → Type 0
  Listed filter o =
      (infos : List (ToolInfo Schema)) × (o ≡ some infos)
      × All IsQualified infos
      × All (λ i. wanted filter i.adapter_name ≡ true) infos

  list_entries-Listed :
      (filter : Option Text) (index : Dict Text Text) (schemas : Dict Text (ToolSchema Schema))
      → IsWellFormed (record { tool_index = index; tool_schemas = schemas })
      → Listed filter (list_entries filter index schemas)
  unfolding list_entries
  list_entries-Listed filter [] schemas w = ([], refl, tt, tt)
  list_entries-Listed filter ((k, a) ∷ index) schemas w =
      let rest =
        list_entries-Listed filter index schemas
          (w.0.1, λ q b h. w.1 q b (tail_found k a q b index w.0.0 h)) in
      let n = w.1 k a (head_found k a index) in
      elim (Bool-cases (wanted filter a)) [
        | inl e ↦ (
          record { qualified_name = k; adapter_name = a; tool = n.0 } ∷ rest.0,
          ground (arith, e, n.1, rest.1),
          (n.2, rest.2),
          (e, rest.3),
        )
        | inr e ↦ rw e rest
      ]

  -- After any calls, with those that throw half-way, `list` returns for every filter: each listed
  -- tool stands under its adapter's name and its own, and passes the filter.
  pub list_tools-Listed :
      (cs : List (Call Schema)) (filter : Option Text)
      → Listed filter (list_tools filter (calls cs empty))
  unfolding list_tools
  list_tools-Listed cs filter =
      let r = calls cs empty in
      list_entries-Listed filter r.tool_index r.tool_schemas
        (calls-IsWellFormed cs empty empty-IsWellFormed)

  -- After any calls, `unregister` takes out exactly the names that the adapter owns: each of them
  -- resolves to nothing, and every other name to what it resolved to before.
  pub unregister-resolve :
      (cs : List (Call Schema)) (adapter q : Text)
      → resolve q (unregister adapter (calls cs empty))
        ≡ unless (λ owner. text_beq owner adapter) (resolve q (calls cs empty))
  unfolding resolve unregister
  unregister-resolve cs adapter q =
      get-delete_where (λ owner. text_beq owner adapter) q (calls cs empty).tool_index
        (calls-IsWellFormed cs empty empty-IsWellFormed).0

  -- A registration that meets a reserved name throws, but is not undone: the router is left with the
  -- tools in front of that name registered, and those behind it not.
  pub register_partial :
      (adapter : Text) (tools rest : List (ToolSchema Schema)) (tool : ToolSchema Schema)
      (r s : ToolRouter Schema)
      → register adapter tools r ≡ (none, s)
      → is_reserved tool.name ≡ true
      → register adapter (tools ++ tool ∷ rest) r ≡ (some reserved_tool_name, s)
  unfolding register added
  register_partial adapter [] rest tool r s h e = ground (arith, h, e)
  register_partial adapter (t ∷ tools) rest tool r s h e =
      ground (arith, register_partial adapter tools rest tool (added adapter t r) s, h, e)
