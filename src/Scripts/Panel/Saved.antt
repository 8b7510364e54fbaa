-- ===== src/Scripts/Panel/Saved.antt =====
-- What is edited in the panel is what is saved (scripts/page.tsx).
use mathlib.Core.Option.{some-injective}
use rustdesk_plus.Api.Scripts.{Script}
use rustdesk_plus.Common.{
  List, [], arith, get_elem?, if◌then◌else◌, map, refl, some, suc, zero, ℕ, ◌∷◌, ◌≡◌,
}
use rustdesk_plus.Common.Text.{Text, text_eq}
use rustdesk_plus.Scripts.Builder.{Builder}
use rustdesk_plus.Scripts.Builder.Edit.{update_node, update_node_data}
use rustdesk_plus.Scripts.Builder.Save.{SaveCall, fire}
use rustdesk_plus.Scripts.Builder.Sent.{definition_in, fire-reads_back, update_of}
use rustdesk_plus.Scripts.Flow.{FlowNode, NodeData, flow_to_definition}
use rustdesk_plus.Scripts.Panel.{PanelEdit, edit_data, panel_update}

update_nodes :
    (id : Text) (f : NodeData → NodeData) (ns : List FlowNode) (i : ℕ) (n : FlowNode)
    → get_elem? ns i ≡ some n
    → get_elem? (map (update_node id f) ns) i ≡ some (update_node id f n)
update_nodes id f [] i n h = ground arith
update_nodes id f (m ∷ ns) zero n h = rw (some-injective _ _ h) refl
update_nodes id f (m ∷ ns) (suc i) n h = update_nodes id f ns i n h

-- An edit in the panel of a node of the open script changes the data of that node alone, and what
-- the timer then sends for the script is read back as the canvas that is shown, the edit included.
pub panel_update-sent :
    (s : Script) (id : Text) (e : PanelEdit) (b : Builder) (i : ℕ) (n : FlowNode)
    → b.selected_script ≡ some s
    → get_elem? b.nodes i ≡ some n
    → let edited = panel_update id e b in
      (get_elem? edited.nodes i
        ≡ some (if text_eq n.id id then record n { node_data = edit_data e n.node_data } else n))
      × (edited.edges ≡ b.edges)
      × (c : SaveCall) × ((fire edited).1 ≡ some c)
      × (definition_in (update_of c).body ≡ some (flow_to_definition edited.nodes edited.edges))
unfolding panel_update update_node_data
panel_update-sent s id e b i n h listed =
    let new_nodes = map (update_node id (edit_data e)) b.nodes in
    let (c, sends, _, _, body) =
      fire-reads_back s new_nodes b.edges (record b { nodes = new_nodes }) h in
    (update_nodes id (edit_data e) b.nodes i n listed, refl, c, sends, body)
