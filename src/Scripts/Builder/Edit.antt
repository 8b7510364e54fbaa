-- ===== src/Scripts/Builder/Edit.antt =====
-- The edits of the canvas (scripts/page.tsx). React Flow tells the changes that the user makes on
-- the canvas itself; its functions that apply them are arguments.
use rustdesk_plus.Api.Scripts.{
  NodeType, Position, Script, ScriptVar, download, notify, shell, variable,
}
use rustdesk_plus.Common.{
  Bool, List, Option, [], any, false, filter, if◌then◌else◌, length, map, none, not, or_default,
  some, suc, true, zero, ℕ, ◌&&◌, ◌*◌, ◌++◌, ◌+◌, ◌∷◌,
}
use rustdesk_plus.Common.Int.{pos}
use rustdesk_plus.Common.Text.{Text, includes, present, text, text_eq}
use rustdesk_plus.Scripts.Builder.{Builder, schedule_save}
use rustdesk_plus.Scripts.Flow.{FlowEdge, FlowNode, NodeData}

-- `handleNodesChange` and its like belong to a drawing of the page: they see the nodes and edges
-- of that drawing, `seen`, also where the state has moved on since.
pub data NodeChange : Type 0 where
  position : Text → Position → NodeChange
  remove : Text → NodeChange
  other_change : NodeChange

abbrev moves_or_removes : NodeChange → Bool
moves_or_removes (position id p) = true
moves_or_removes (remove id) = true
moves_or_removes other_change = false

abbrev removed_id : NodeChange → Option Text
removed_id (remove id) = some id
removed_id (position id p) = none
removed_id other_change = none

unfoldable pub removed_ids : List NodeChange → List Text
unfolding present
removed_ids changes = present (map removed_id changes)

abbrev pub stays_node : List Text → FlowNode → Bool
stays_node removed n = not (includes n.id removed)

abbrev pub stays_edge : List Text → FlowEdge → Bool
stays_edge removed e = not (includes e.id removed)

module _ (apply_changes : List NodeChange → List FlowNode → List FlowNode) where
  unfoldable pub handle_nodes_change : Builder → List NodeChange → Builder → Builder
  unfolding removed_ids schedule_save includes
  handle_nodes_change seen changes b =
      let moved = record b { nodes = apply_changes changes b.nodes } in
      if any moves_or_removes changes
      then schedule_save (filter (stays_node (removed_ids changes)) seen.nodes) seen.edges moved
      else moved

abbrev pub is_removal : NodeChange → Bool
is_removal (remove id) = true
is_removal (position id p) = false
is_removal other_change = false

module _ (apply_changes : List NodeChange → List FlowEdge → List FlowEdge) where
  unfoldable pub handle_edges_change : Builder → List NodeChange → Builder → Builder
  unfolding removed_ids schedule_save includes
  handle_edges_change seen changes b =
      let moved = record b { edges = apply_changes changes b.edges } in
      if any is_removal changes
      then schedule_save seen.nodes (filter (stays_edge (removed_ids changes)) seen.edges) moved
      else moved

-- `onConnect`; `new_edges` is what React Flow's `addEdge` makes of the edges. The callback is made
-- again only where the nodes or the edges have changed: what it saves goes to `drawn`, the script
-- that was open in the drawing in which they did, also where another one is open now.
unfoldable pub on_connect : Option Script → List FlowEdge → Builder → Builder
unfolding schedule_save
on_connect drawn new_edges b =
    let then_open = record b { selected_script = drawn; edges = new_edges } in
    record (schedule_save b.nodes new_edges then_open) { selected_script = b.selected_script }

abbrev blank : Text → NodeData
blank label = record {
  label = label;
  command = none;
  powershell = none;
  timeout_seconds = none;
  url = none;
  destination = none;
  message = none;
  variables = none;
}

-- The `defaults` of `addNode`
unfoldable pub default_data : NodeType → NodeData
default_data shell = record (blank (text "Comando")) {
  powershell = some true;
  timeout_seconds = some 120;
}
default_data download = record (blank (text "Download")) { timeout_seconds = some 300 }
default_data notify = blank (text "Nota")
default_data variable = record (blank (text "Variáveis")) {
  variables = some (record { key = []; value = [] } ∷ []);
}

-- `id` is what `newNodeId` makes of the time.
unfoldable pub add_node : Text → NodeType → Builder → Builder
unfolding default_data schedule_save
add_node id type b =
    let new_node : FlowNode = record {
      id = id;
      type = type;
      position = record { x = pos (80 + length b.nodes * 300); y = pos 220 };
      node_data = default_data type;
    } in
    let new_nodes = b.nodes ++ new_node ∷ [] in
    schedule_save new_nodes b.edges (record b { nodes = new_nodes; selected_node_id = some id })

-- `update` stands for the spread of the changed fields over the data.
abbrev pub update_node : Text → (NodeData → NodeData) → FlowNode → FlowNode
update_node id update n = if text_eq n.id id then record n { node_data = update n.node_data } else n

unfoldable pub update_node_data : Text → (NodeData → NodeData) → Builder → Builder
unfolding schedule_save
update_node_data id update b =
    let new_nodes = map (update_node id update) b.nodes in
    schedule_save new_nodes b.edges (record b { nodes = new_nodes })

abbrev pub other_node : Text → FlowNode → Bool
other_node id n = not (text_eq n.id id)

abbrev pub untouched : Text → FlowEdge → Bool
untouched id e = not (text_eq e.source id) && not (text_eq e.target id)

unfoldable pub delete_node : Text → Builder → Builder
unfolding schedule_save
delete_node id b =
    let new_nodes = filter (other_node id) b.nodes in
    let new_edges = filter (untouched id) b.edges in
    schedule_save new_nodes new_edges (record b { nodes = new_nodes; edges = new_edges })

-- The edits of the list of variables in `NodeConfigPanel`.
abbrev pub vars_of : NodeData → List ScriptVar
vars_of d = or_default d.variables []

unfoldable pub add_variable : NodeData → NodeData
add_variable d = record d { variables = some (vars_of d ++ record { key = []; value = [] } ∷ []) }

abbrev set_at : ℕ → (ScriptVar → ScriptVar) → List ScriptVar → List ScriptVar
set_at i f [] = []
set_at zero f (v ∷ vs) = f v ∷ vs
set_at (suc i) f (v ∷ vs) = v ∷ set_at i f vs

unfoldable pub set_variable_key : ℕ → Text → NodeData → NodeData
set_variable_key i k d = record d {
  variables = some (set_at i (λ v. record v { key = k }) (vars_of d));
}

unfoldable pub set_variable_value : ℕ → Text → NodeData → NodeData
set_variable_value i value d = record d {
  variables = some (set_at i (λ v. record v { value = value }) (vars_of d));
}

abbrev remove_at : ℕ → List ScriptVar → List ScriptVar
remove_at i [] = []
remove_at zero (v ∷ vs) = vs
remove_at (suc i) (v ∷ vs) = v ∷ remove_at i vs

-- `filter((_, j) => j !== i)`
unfoldable pub remove_variable : ℕ → NodeData → NodeData
remove_variable i d = record d { variables = some (remove_at i (vars_of d)) }
