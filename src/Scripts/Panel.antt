-- ===== src/Scripts/Panel.antt =====
-- `NodeConfigPanel` of scripts/page.tsx: which controls it draws for the selected node, and what
-- each of them does to the canvas.
pub mod Saved
use mathlib.Core.List.{flat_map}
use rustdesk_plus.Api.Scripts.{NodeType, ScriptVar, download, notify, shell, variable}
use rustdesk_plus.Common.{
  Bool, List, Option, [], false, find?, if◌then◌else◌, is_empty, length, ltb, none, some, suc, true,
  zero, ℕ, ◌&&◌, ◌||◌, ◌∷◌,
}
use rustdesk_plus.Common.Text.{Text, or_text, text, text_eq}
use rustdesk_plus.Scripts.Builder.{Builder}
use rustdesk_plus.Scripts.Builder.Edit.{
  add_variable, delete_node, remove_variable, set_variable_key, set_variable_value,
  update_node_data, vars_of,
}
use rustdesk_plus.Scripts.Flow.{FlowNode, NodeData}

-- The edits of the panel. The seconds are a natural number: a negative or fractional one, which the
-- field does not refuse, is left out.
pub data PanelEdit : Type 0 where
  title_typed : Text → PanelEdit
  variable_added : PanelEdit
  key_typed value_typed : ℕ → Text → PanelEdit
  variable_removed : ℕ → PanelEdit
  shell_picked : Bool → PanelEdit
  command_typed : Text → PanelEdit
  timeout_typed : ℕ → PanelEdit
  url_typed destination_typed message_typed : Text → PanelEdit

-- The argument of `onUpdate`, spread over the data.
unfoldable pub edit_data : PanelEdit → NodeData → NodeData
unfolding add_variable set_variable_key set_variable_value remove_variable
edit_data (title_typed s) d = record d { label = s }
edit_data variable_added d = add_variable d
edit_data (key_typed i s) d = set_variable_key i s d
edit_data (value_typed i s) d = set_variable_value i s d
edit_data (variable_removed i) d = remove_variable i d
edit_data (shell_picked ps) d = record d { powershell = some ps }
edit_data (command_typed s) d = record d { command = some s }
edit_data (timeout_typed n) d = record d { timeout_seconds = some n }
edit_data (url_typed s) d = record d { url = some s }
edit_data (destination_typed s) d = record d { destination = some s }
edit_data (message_typed s) d = record d { message = some s }

abbrev has_node_id : Text → FlowNode → Bool
has_node_id id n = text_eq n.id id

-- `nodes.find((n) => n.id === nodeId)`, for the node that is selected
unfoldable pub panel_node : Builder → Option FlowNode
unfolding text_eq
panel_node b = elim b.selected_node_id [
  | none ↦ none
  | some id ↦ if is_empty id then none else find? (has_node_id id) b.nodes
]

unfoldable pub panel_title : NodeType → Text
panel_title shell = text "Comando Shell"
panel_title download = text "Download de Arquivo"
panel_title notify = text "Nota"
panel_title variable = text "Variáveis"

abbrev shows_variables : NodeType → Bool
shows_variables variable = true
shows_variables t = false

abbrev shows_command : NodeType → Bool
shows_command shell = true
shows_command t = false

abbrev shows_download : NodeType → Bool
shows_download download = true
shows_download t = false

abbrev shows_message : NodeType → Bool
shows_message notify = true
shows_message t = false

abbrev list_below : ℕ → List ScriptVar → Bool
list_below i vs = ltb i (length vs)

-- The controls that are drawn for a node.
unfoldable pub offers : FlowNode → PanelEdit → Bool
offers n (title_typed s) = true
offers n variable_added = shows_variables n.type
offers n (key_typed i s) = shows_variables n.type && list_below i (vars_of n.node_data)
offers n (value_typed i s) = shows_variables n.type && list_below i (vars_of n.node_data)
offers n (variable_removed i) = shows_variables n.type && list_below i (vars_of n.node_data)
offers n (shell_picked ps) = shows_command n.type
offers n (command_typed s) = shows_command n.type
offers n (timeout_typed k) = shows_command n.type || shows_download n.type
offers n (url_typed s) = shows_download n.type
offers n (destination_typed s) = shows_download n.type
offers n (message_typed s) = shows_message n.type

-- `onUpdate`, the button that deletes the node, and the one that closes the panel.
unfoldable pub panel_update : Text → PanelEdit → Builder → Builder
unfolding edit_data update_node_data
panel_update id e b = update_node_data id (edit_data e) b

unfoldable pub panel_close : Builder → Builder
panel_close b = record b { selected_node_id = none }

unfoldable pub panel_delete : Text → Builder → Builder
unfolding delete_node panel_close
panel_delete id b = panel_close (delete_node id b)

abbrev number_or : Option ℕ → ℕ → ℕ
number_or none d = d
number_or (some zero) d = d
number_or (some (suc n)) d = suc n

-- The seconds that the panel shows: those of the node, or a default.
unfoldable pub shown_timeout : FlowNode → Option ℕ
shown_timeout n = elim n.type [
  | shell ↦ some (number_or n.node_data.timeout_seconds 120)
  | download ↦ some (number_or n.node_data.timeout_seconds 300)
  | _ ↦ none
]

-- The texts of its fields
unfoldable pub shown_texts : FlowNode → List Text
shown_texts n = elim n.type [
  | shell ↦ n.node_data.label ∷ or_text n.node_data.command [] ∷ []
  | download ↦
      n.node_data.label ∷ or_text n.node_data.url [] ∷ or_text n.node_data.destination [] ∷ []
  | notify ↦ n.node_data.label ∷ or_text n.node_data.message [] ∷ []
  | variable ↦ n.node_data.label ∷ flat_map (λ v. v.key ∷ v.value ∷ []) (vars_of n.node_data)
]
