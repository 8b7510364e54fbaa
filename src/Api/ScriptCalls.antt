-- ===== src/Api/ScriptCalls.antt =====
-- The calls of api.ts for scripts and their runs.
use rustdesk_plus.Api.Admin.{delete_call, field, get_call, optional_field, send_call}
use rustdesk_plus.Api.DeviceCalls.{items, texts_field}
use rustdesk_plus.Api.Http.{Call, Json, arr, bool, num, object, post, put}
use rustdesk_plus.Api.Scripts.{
  NodeType, ScriptDefinition, ScriptEdge, ScriptNode, ScriptNodeData, ScriptVar, download, notify,
  shell, variable,
}
use rustdesk_plus.Common.{Bool, List, Option, [], map, none, some, ℕ, ◌++◌, ◌∷◌}
use rustdesk_plus.Common.Int.{pos}
use rustdesk_plus.Common.Text.{Text, text}

abbrev pub type_text : NodeType → Text
type_text shell = text "shell"
type_text download = text "download"
type_text notify = text "notify"
type_text variable = text "variable"

abbrev pub var_json : ScriptVar → Json
var_json v = object (field (text "key") v.key ∷ field (text "value") v.value ∷ [])

abbrev pub vars_field : Option (List ScriptVar) → Text × Option Json
vars_field none = (text "variables", none)
vars_field (some vs) = (text "variables", some (arr (items (map var_json vs))))

abbrev pub powershell_field : Option Bool → Text × Option Json
powershell_field none = (text "powershell", none)
powershell_field (some b) = (text "powershell", some (bool b))

abbrev pub timeout_field : Option ℕ → Text × Option Json
timeout_field none = (text "timeout_seconds", none)
timeout_field (some n) = (text "timeout_seconds", some (num (pos n)))

abbrev pub data_json : ScriptNodeData → Json
data_json d = object (
    field (text "label") d.label
    ∷ optional_field (text "command") d.command
    ∷ powershell_field d.powershell
    ∷ timeout_field d.timeout_seconds
    ∷ optional_field (text "url") d.url
    ∷ optional_field (text "destination") d.destination
    ∷ optional_field (text "message") d.message
    ∷ vars_field d.variables
    ∷ [])

abbrev pub node_json : ScriptNode → Json
node_json n = object (
    field (text "id") n.id
    ∷ field (text "type") (type_text n.type)
    ∷ (
      text "position",
      some
          (object ((text "x", some (num n.position.x)) ∷ (text "y", some (num n.position.y)) ∷ [])),
    )
    ∷ (text "data", some (data_json n.node_data))
    ∷ [])

abbrev pub edge_json : ScriptEdge → Json
edge_json e =
    object (
      field (text "id") e.id ∷ field (text "source") e.source ∷ field (text "target") e.target ∷ [])

-- `JSON.stringify` of a definition
unfoldable pub definition_json : ScriptDefinition → Json
definition_json d = object (
    (text "nodes", some (arr (items (map node_json d.nodes))))
    ∷ (text "edges", some (arr (items (map edge_json d.edges))))
    ∷ [])

abbrev definition_field : Option ScriptDefinition → Text × Option Json
definition_field none = (text "definition", none)
definition_field (some d) = (text "definition", some (definition_json d))

unfoldable pub list_scripts : Call
list_scripts = get_call (text "/admin/scripts")

unfoldable pub create_script : Text → Option Text → Option ScriptDefinition → Call
unfolding definition_json
create_script name description definition = send_call post (text "/admin/scripts") (
    field (text "name") name
    ∷ optional_field (text "description") description
    ∷ definition_field definition
    ∷ [])

unfoldable pub get_script : Text → Call
get_script id = get_call (text "/admin/scripts/" ++ id)

unfoldable pub update_script : Text → Option Text → Option Text → Option ScriptDefinition → Call
unfolding definition_json
update_script id name description definition = send_call put (text "/admin/scripts/" ++ id) (
    optional_field (text "name") name
    ∷ optional_field (text "description") description
    ∷ definition_field definition
    ∷ [])

unfoldable pub delete_script : Text → Call
delete_script id = delete_call (text "/admin/scripts/" ++ id)

unfoldable pub run_script : Text → Text → Option (List Text) → Option Text → Call
run_script id target_type target_ids tag_id =
    send_call post (text "/admin/scripts/" ++ id ++ text "/run") (
      field (text "target_type") target_type
      ∷ texts_field (text "target_ids") target_ids
      ∷ optional_field (text "tag_id") tag_id
      ∷ [])

unfoldable pub get_script_run : Text → Call
get_script_run id = get_call (text "/admin/script-runs/" ++ id)
