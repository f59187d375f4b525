-- ===== src/Tools/Gateway/Catalog.antt =====
-- `ToolCatalog` of src/tools/gateway/tool-catalog.ts, the aliases of src/core/tools/tool-aliases.ts,
-- and how the gateway finds a tool. The platform's text functions are parameters. A catalog is the
-- map from ids to definitions: the handlers, which only run, are left out. The keys of an alias
-- table are its own, those of `Object.prototype` left out.
use devagent_ts.Base.{
  Bool, true, false, Option, none, some, String, string_eq, List, [], ◌∷◌, ◌==◌, map, filter, any,
  includes, is_empty,
}
use devagent_ts.Base.Dict.{Dict, get, set, delete}
use devagent_ts.Core.Policy.Tools.{ToolDefinition, ToolRisk, risk_eq}

-- What the code takes from the platform.
pub record Texts : Type 0 where
  -- the trimming, and the removal of the wrappers and of the name spaces
  pub stripped : String → String
  pub to_lower_case : String → String

abbrev pub ToolCatalog : Type 0
ToolCatalog = Dict String ToolDefinition

unfoldable pub tool_aliases : Dict String String
tool_aliases =
    ("open_file", "read_file")
    ∷ ("cat_file", "read_file")
    ∷ ("view_file", "read_file")
    ∷ ("print_tree", "list_dir")
    ∷ ("tree", "list_dir")
    ∷ ("ls", "list_dir")
    ∷ ("search_codebase", "search_code")
    ∷ ("find_code", "search_code")
    ∷ ("execute_command", "run_shell")
    ∷ ("bash", "run_shell")
    ∷ ("sh", "run_shell")
    ∷ ("patch_file", "apply_patch")
    ∷ ("edit_file", "edit_file_lines")
    ∷ []

-- `a ?? b`
abbrev pub or_next {ℓ} : {A : Type ℓ} → Option A → Option A → Option A
or_next none b = b
or_next (some a) b = some a

unfoldable pub canonical_tool_name : Texts → String → String
canonical_tool_name texts raw_name =
    let clean = texts.stripped raw_name in
    let known = or_next (get clean tool_aliases) (get (texts.to_lower_case clean) tool_aliases) in
    elim known [ none ↦ clean | some id ↦ id ]

unfoldable pub register : ToolDefinition → ToolCatalog → ToolCatalog
register tool catalog = set tool.id tool catalog

unfoldable pub unregister : String → ToolCatalog → ToolCatalog
unregister id catalog = delete id catalog

abbrev pub all_tools : ToolCatalog → List ToolDefinition
all_tools catalog = map (λ p. p.1) catalog

abbrev pub ids : ToolCatalog → List String
ids catalog = map (λ p. p.0) catalog

unfoldable pub by_pack : String → ToolCatalog → List ToolDefinition
by_pack pack catalog = filter (λ t. t.pack == pack) (all_tools catalog)

unfoldable pub by_capability : String → ToolCatalog → List ToolDefinition
by_capability capability catalog =
    filter (λ t. includes capability t.capabilities) (all_tools catalog)

unfoldable pub by_risk_at_least : ToolRisk → ToolCatalog → List ToolDefinition
by_risk_at_least floor catalog = filter (λ t. t.risk == floor) (all_tools catalog)

unfoldable pub find_id : (String → Bool) → List String → Option String
find_id p [] = none
find_id p (id ∷ rest) = elim (p id) [ true ↦ some id | false ↦ find_id p rest ]

-- `resolve` of the gateway.
unfoldable pub resolve : Texts → ToolCatalog → String → Option ToolDefinition
resolve texts catalog name =
    let canonical = canonical_tool_name texts name in
    let lower = texts.to_lower_case canonical in
    let found = find_id (λ id. texts.to_lower_case id == lower) (ids catalog) in
    or_next (or_next (get canonical catalog) (get name catalog))
      (elim found [ none ↦ none | some id ↦ get id catalog ])

-- `discover` of the gateway; an absent filter is an empty one.
unfoldable pub discover : List String → ToolCatalog → List ToolDefinition
discover capabilities catalog = elim (is_empty capabilities) [
  | true ↦ all_tools catalog
  | false ↦ filter (λ t. any (λ c. includes c capabilities) t.capabilities) (all_tools catalog)
]
