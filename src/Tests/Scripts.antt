-- ===== src/Tests/Scripts.antt =====
-- Scripts that are edited, saved and run, at concrete inputs.
use mathlib.Core.Option
use rustdesk_plus.Api.Scripts.{Script, ScriptDefinition, ScriptNode, ScriptNodeData, notify, shell}
use rustdesk_plus.Common.{List, [], all, false, filter, map, none, refl, some, true, ◌∷◌, ◌≡◌}
use rustdesk_plus.Common.Int.{pos}
use rustdesk_plus.Common.Text.{Text, includes, text, text_eq}
use rustdesk_plus.Scripts.Builder.{Builder, idle, open_script, schedule_save}
use rustdesk_plus.Scripts.Builder.Edit.{
  NodeChange, add_node, delete_node, handle_edges_change, handle_nodes_change, other_node, remove,
  removed_ids, stays_edge, stays_node, untouched, update_node, update_node_data,
}
use rustdesk_plus.Scripts.Builder.Faults.{delete_key_keeps_edges, late_save_mixes}
use rustdesk_plus.Scripts.Builder.Invariant.{IsScheduled, IsWellFormed, edits_keep}
use rustdesk_plus.Scripts.Builder.Library.{export, import, on_created, on_deleted, on_imported}
use rustdesk_plus.Scripts.Builder.Listed.{
  IsListed, file_of, import-export, library_keeps, script_ids,
}
use rustdesk_plus.Scripts.Builder.Save.{SaveCall, call_of, fire, on_saved}
use rustdesk_plus.Scripts.Builder.Sent.{definition_in, open_script-reads_back, update_of}
use rustdesk_plus.Scripts.Flow.{
  Flow, FlowEdge, FlowNode, NodeData, definition_to_flow, edge_to_flow, node_to_flow,
}

abbrev data_of : Text → ScriptNodeData
data_of label = record {
  label = label;
  command = some (text "hostname");
  powershell = some true;
  timeout_seconds = some 30;
  url = none;
  destination = none;
  message = none;
  variables = some [];
}

abbrev node_of : Text → ScriptNode
node_of id = record {
  id = id;
  type = shell;
  position = record { x = pos 80; y = pos 220 };
  node_data = data_of id;
}

abbrev two_steps : ScriptDefinition
two_steps = record {
  nodes = node_of (text "a") ∷ node_of (text "b") ∷ [];
  edges = record { id = text "e"; source = text "a"; target = text "b" } ∷ [];
}

abbrev script_of : Text → ScriptDefinition → Script
script_of id d = record {
  id = id;
  tenant_id = text "t1";
  name = text "Inventário";
  description = [];
  definition = d;
  created_by = none;
  created_at = [];
  updated_at = [];
}

abbrev pub first : Script
first = script_of (text "s1") two_steps

abbrev pub second : Script
second = script_of (text "s2") (record { nodes = []; edges = [] })

abbrev flow : Flow
flow = definition_to_flow two_steps

abbrev pub opened : Builder
opened = record {
  scripts = first ∷ second ∷ [];
  selected_script = some first;
  loading = false;
  save_status = idle;
  selected_node_id = none;
  new_name = [];
  creating_new = false;
  saving = false;
  nodes = flow.nodes;
  edges = flow.edges;
  timer = none;
}

abbrev relabel : NodeData → NodeData
relabel d = record d { label = text "Passo" }

abbrev apply_nodes : List NodeChange → List FlowNode → List FlowNode
apply_nodes cs ns = filter (stays_node (removed_ids cs)) ns

abbrev apply_edges : List NodeChange → List FlowEdge → List FlowEdge
apply_edges cs es = filter (stays_edge (removed_ids cs)) es

joined : IsWellFormed opened.nodes opened.edges
unfolding definition_to_flow node_to_flow edge_to_flow includes text_eq
joined = ((refl, refl), tt)

edits_keep_example :
    let added = add_node (text "n") notify opened in
    let updated = update_node_data (text "a") relabel opened in
    let deleted = delete_node (text "a") opened in
    (IsScheduled added × IsWellFormed added.nodes added.edges)
    × (IsScheduled updated × IsWellFormed updated.nodes updated.edges)
    × (IsScheduled deleted × IsWellFormed deleted.nodes deleted.edges)
edits_keep_example = edits_keep opened (text "n") (text "a") notify relabel joined

listed : IsListed opened
unfolding includes text_eq
listed = refl

-- Meanwhile the open script was saved under another title, and one was listed anew.
abbrev saved_since : Builder
saved_since = record opened {
  selected_script = some (record first { name = text "x" });
  scripts = second ∷ opened.scripts;
}

library_keeps_example :
    IsListed (on_created opened.scripts second saved_since)
    × ((on_created opened.scripts second saved_since).selected_script ≡ some second)
    × IsListed (on_imported opened.scripts second saved_since)
    × ((on_imported opened.scripts second saved_since).selected_script ≡ some second)
    × IsListed (on_deleted opened (text "s1") saved_since)
    × (includes (text "s1") (script_ids (on_deleted opened (text "s1") saved_since).scripts)
        ≡ false)
library_keeps_example =
    library_keeps opened.scripts saved_since second opened saved_since (text "s1") listed refl

import-export_example :
    Option.map (λ e. import (text "f") (file_of e)) (export (open_script first opened))
    ≡ some (record { name = text "Inventário"; description = []; definition = two_steps })
import-export_example = import-export (text "f") first opened (λ e. cc) (refl, (refl, tt))

abbrev first_pending : Builder
first_pending = update_node_data (text "a") relabel opened

mixes_nodes :
    let mixed = on_saved first (fire (open_script second first_pending)).0 in
    let edited = update_node_data (text "a") relabel mixed in
    (edited.timer
      ≡ some (record {
        script = some first;
        nodes = map (update_node (text "a") relabel) (definition_to_flow second.definition).nodes;
        edges = (definition_to_flow second.definition).edges;
      }))
    × ((fire (open_script second first_pending)).1 ≡ call_of first_pending.timer)
mixes_nodes = late_save_mixes first_pending second first (text "a") relabel

touches : all (untouched (text "a")) opened.edges ≡ false
unfolding definition_to_flow edge_to_flow text_eq
touches = refl

delete_key_keeps_edges_example :
    let edges_first = handle_edges_change apply_edges opened (map remove (text "e" ∷ [])) opened in
    let after = handle_nodes_change apply_nodes opened (remove (text "a") ∷ []) edges_first in
    (after.timer
      ≡ some (record {
        script = some first;
        nodes = filter (other_node (text "a")) opened.nodes;
        edges = opened.edges;
      }))
    × (after.edges ≡ apply_edges (map remove (text "e" ∷ [])) opened.edges)
    × ¬ IsWellFormed (filter (other_node (text "a")) opened.nodes) opened.edges
delete_key_keeps_edges_example =
    delete_key_keeps_edges apply_nodes apply_edges opened (text "a") (text "e" ∷ []) touches

open_script-reads_back_example :
    let again = open_script first opened in
    (c : SaveCall) × ((fire (schedule_save again.nodes again.edges again)).1 ≡ some c)
    × ((update_of c).path ≡ text "/admin/scripts/s1")
    × (definition_in (update_of c).body ≡ some two_steps)
open_script-reads_back_example = open_script-reads_back first opened (refl, (refl, tt))
