-- ===== src/Scripts/Builder/Invariant.antt =====
-- What the edits of the canvas keep (scripts/page.tsx): edges join nodes that are there, and what
-- is about to be saved is what is shown.
use rustdesk_plus.Api.Scripts.{NodeType}
use rustdesk_plus.Common.{
  All, List, [], arith, false, filter, map, map-append, refl, some, true, ◌++◌, ◌∷◌, ◌≡◌,
}
use rustdesk_plus.Common.Text.{Text, includes, text_eq}
use rustdesk_plus.Common.Text.Equality.{includes-append, text_eq→eq}
use rustdesk_plus.Scripts.Builder.{Builder, unsaved}
use rustdesk_plus.Scripts.Builder.Edit.{
  add_node, delete_node, other_node, untouched, update_node, update_node_data,
}
use rustdesk_plus.Scripts.Flow.{FlowEdge, FlowNode, NodeData}

abbrev pub node_ids : List FlowNode → List Text
node_ids ns = map (λ n. n.id) ns

abbrev pub Joins : List FlowNode → FlowEdge → Type 0
Joins ns e = (includes e.source (node_ids ns) ≡ true) × (includes e.target (node_ids ns) ≡ true)

-- Both ends of every edge are nodes.
abbrev pub IsWellFormed : List FlowNode → List FlowEdge → Type 0
IsWellFormed ns es = All (Joins ns) es

includes-other :
    (x id : Text) (ns : List FlowNode)
    → text_eq x id ≡ false
    → includes x (node_ids ns) ≡ true
    → includes x (node_ids (filter (other_node id) ns)) ≡ true
unfolding includes
includes-other x id [] n h = cc
includes-other x id (m ∷ ns) n h = ground (arith, text_eq→eq m.id x, includes-other x id ns n)

delete_edges :
    (id : Text) (ns : List FlowNode) (es : List FlowEdge)
    → IsWellFormed ns es
    → IsWellFormed (filter (other_node id) ns) (filter (untouched id) es)
delete_edges id ns [] h = tt
delete_edges id ns (e ∷ es) h =
    ground (
      arith,
      includes-other e.source id ns,
      includes-other e.target id ns,
      delete_edges id ns es h.1,
    )

node_ids-update :
    (id : Text) (f : NodeData → NodeData) (ns : List FlowNode)
    → node_ids (map (update_node id f) ns) ≡ node_ids ns
node_ids-update id f [] = refl
node_ids-update id f (n ∷ ns) = ground (arith, node_ids-update id f ns)

update_edges :
    (id : Text) (f : NodeData → NodeData) (ns : List FlowNode) (es : List FlowEdge)
    → IsWellFormed ns es
    → IsWellFormed (map (update_node id f) ns) es
update_edges id f ns [] h = tt
update_edges id f ns (e ∷ es) h = (rw (node_ids-update id f ns) h.0, update_edges id f ns es h.1)

add_edges :
    (ns : List FlowNode) (n : FlowNode) (es : List FlowEdge)
    → IsWellFormed ns es
    → IsWellFormed (ns ++ n ∷ []) es
add_edges ns n [] h = tt
add_edges ns n (e ∷ es) h = (
  rw map-append (
    includes-append e.source (node_ids ns) (n.id ∷ []) h.0.0,
    includes-append e.target (node_ids ns) (n.id ∷ []) h.0.1,
  ),
  add_edges ns n es h.1,
)

-- What the timer will send is the canvas as it stands, for the selected script.
pub record IsScheduled (b : Builder) : Type 0 where
  pub job : b.timer ≡ some (record { script = b.selected_script; nodes = b.nodes; edges = b.edges })
  pub status : b.save_status ≡ unsaved

-- After each edit that the tab makes itself, the canvas as it stands is about to be saved into the
-- selected script, and every edge joins two nodes, if every edge did before.
pub edits_keep :
    (b : Builder) (new id : Text) (type : NodeType) (update : NodeData → NodeData)
    → IsWellFormed b.nodes b.edges
    → let added = add_node new type b in
      let updated = update_node_data id update b in
      let deleted = delete_node id b in
      (IsScheduled added × IsWellFormed added.nodes added.edges)
      × (IsScheduled updated × IsWellFormed updated.nodes updated.edges)
      × (IsScheduled deleted × IsWellFormed deleted.nodes deleted.edges)
unfolding add_node update_node_data delete_node
edits_keep b new id type update h = (
  (record { job = refl; status = refl }, add_edges b.nodes _ b.edges h),
  (record { job = refl; status = refl }, update_edges id update b.nodes b.edges h),
  (record { job = refl; status = refl }, delete_edges id b.nodes b.edges h),
)
