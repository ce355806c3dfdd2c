-- ===== src/Harness/CustomTools.antt =====
-- internal/harness/provider_tools.go: the tools that the client runs itself.
use jadeenvoy.Prelude.{Bool, List, String, [], if◌then◌else◌, not, some_of, str_eq, ◌||◌, ◌∷◌}
use jadeenvoy.Provider.{ToolDef}
use jadeenvoy.Json.{Value, Raw, as_string, get, as_list}

record Entry : Type 0 where
  type : String
  def : ToolDef

entry_of : Value → Entry
entry_of v = record {
  type = as_string (get "type" v);
  def = record {
    name = as_string (get "name" v);
    description = as_string (get "description" v);
    input_schema = get "input_schema" v;
  };
}

custom_defs : List Value → List ToolDef
unfolding entry_of
custom_defs [] = []
custom_defs (v ∷ vs) =
    let rest = custom_defs vs in
    if not (str_eq (entry_of v).type "custom") || str_eq (entry_of v).def.name ""
    then rest
    else (entry_of v).def ∷ rest

-- parseCustomToolDefs: the error of the decoding is ignored, and what decoded is kept.
unfoldable pub parse_custom_tool_defs : Raw → List ToolDef
unfolding custom_defs
parse_custom_tool_defs tools = custom_defs (as_list tools)

-- isCustomTool of RunThread
unfoldable pub is_custom_tool : List ToolDef → String → Bool
is_custom_tool defs name = some_of (λ d. str_eq d.name name) defs
