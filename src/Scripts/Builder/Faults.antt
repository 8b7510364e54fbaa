-- ===== src/Scripts/Builder/Faults.antt =====
-- Two orders of events in which a script is saved that is not the one on the canvas
-- (scripts/page.tsx).
use rustdesk_plus.Api.Scripts.{Script}
use rustdesk_plus.Common.{
  Bool-cases, List, [], all, any, arith, false, filter, inl, inr, map, refl, some, true, ◌∷◌, ◌≡◌,
}
use rustdesk_plus.Common.Text.{Text, includes}
use rustdesk_plus.Common.Text.Equality.{text_eq_sym, text_eq→eq}
use rustdesk_plus.Scripts.Builder.{Builder, open_script}
use rustdesk_plus.Scripts.Builder.Edit.{
  NodeChange, handle_edges_change, handle_nodes_change, is_removal, other_node, remove, removed_ids,
  stays_node, untouched, update_node, update_node_data,
}
use rustdesk_plus.Scripts.Builder.Invariant.{IsWellFormed, Joins, node_ids}
use rustdesk_plus.Scripts.Builder.Save.{call_of, fire, on_saved}
use rustdesk_plus.Scripts.Flow.{FlowEdge, FlowNode, NodeData, definition_to_flow}

-- Opening a script does not cancel the save that is scheduled. Once that save is answered, the
-- script of the answer is selected, while the canvas keeps the script that was opened: the next
-- edit is scheduled to be saved into the former, with the nodes and edges of the latter.
pub late_save_mixes :
    (b : Builder) (other updated : Script) (id : Text) (update : NodeData → NodeData)
    → let mixed = on_saved updated (fire (open_script other b)).0 in
      let edited = update_node_data id update mixed in
      (edited.timer
        ≡ some (record {
          script = some updated;
          nodes = map (update_node id update) (definition_to_flow other.definition).nodes;
          edges = (definition_to_flow other.definition).edges;
        }))
      × ((fire (open_script other b)).1 ≡ call_of b.timer)
unfolding open_script fire on_saved update_node_data
late_save_mixes b other updated id update = (refl, refl)

includes-filter_self :
    (id : Text) (ns : List FlowNode) → includes id (node_ids (filter (other_node id) ns)) ≡ false
unfolding includes
includes-filter_self id [] = refl
includes-filter_self id (n ∷ ns) = ground (arith, includes-filter_self id ns)

not_joined :
    (id : Text) (ns : List FlowNode) (e : FlowEdge)
    → Joins (filter (other_node id) ns) e
    → untouched id e ≡ true
not_joined id ns e h =
    ground (arith, text_eq→eq e.source id, text_eq→eq e.target id, includes-filter_self id ns)

all-untouched :
    (id : Text) (ns : List FlowNode) (es : List FlowEdge)
    → IsWellFormed (filter (other_node id) ns) es
    → all (untouched id) es ≡ true
all-untouched id ns [] h = refl
all-untouched id ns (e ∷ es) h = ground (arith, not_joined id ns e h.0, all-untouched id ns es h.1)

stays_other :
    (id : Text) (ns : List FlowNode) → filter (stays_node (id ∷ [])) ns ≡ filter (other_node id) ns
unfolding includes
stays_other id [] = refl
stays_other id (n ∷ ns) = ground (arith, text_eq_sym id n.id, stays_other id ns)

edges_first :
    (apply_edges : List NodeChange → List FlowEdge → List FlowEdge) (b : Builder)
    (changes : List NodeChange)
    → let after = handle_edges_change apply_edges b changes b in
      (after.selected_script ≡ b.selected_script) × (after.edges ≡ apply_edges changes b.edges)
unfolding handle_edges_change
edges_first apply_edges b changes = elim (Bool-cases (any is_removal changes)) [
  | inl removes ↦ rw removes (refl, refl)
  | inr keeps ↦ rw keeps (refl, refl)
]

-- The key Delete removes a node that has an edge: React Flow reports the edges first and then the
-- node, to handlers of one drawing. What is then about to be saved has all the edges of that
-- drawing, and so one that no longer joins two nodes.
pub delete_key_keeps_edges :
    (apply_nodes : List NodeChange → List FlowNode → List FlowNode)
    (apply_edges : List NodeChange → List FlowEdge → List FlowEdge) (b : Builder) (id : Text)
    (edge_ids : List Text)
    → all (untouched id) b.edges ≡ false
    → let edges_first = handle_edges_change apply_edges b (map remove edge_ids) b in
      let after = handle_nodes_change apply_nodes b (remove id ∷ []) edges_first in
      (after.timer
        ≡ some (record {
          script = b.selected_script;
          nodes = filter (other_node id) b.nodes;
          edges = b.edges;
        }))
      × (after.edges ≡ apply_edges (map remove edge_ids) b.edges)
      × ¬ IsWellFormed (filter (other_node id) b.nodes) b.edges
unfolding handle_nodes_change removed_ids
delete_key_keeps_edges apply_nodes apply_edges b id edge_ids touched =
    let (script, edges) = edges_first apply_edges b (map remove edge_ids) in
    (
      rw (script, stays_other id b.nodes),
      edges,
      λ joined. cc (all-untouched id b.nodes b.edges joined, touched),
    )
