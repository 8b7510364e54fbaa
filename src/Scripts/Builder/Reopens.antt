-- ===== src/Scripts/Builder/Reopens.antt =====
-- What is saved of the canvas is what is shown when the script is opened again (scripts/page.tsx,
-- with a server that keeps what `updateScript` sends).
use rustdesk_plus.Api.Http.{Call, put}
use rustdesk_plus.Api.Scripts.{Script, ScriptDefinition}
use rustdesk_plus.Api.Session.{stored}
use rustdesk_plus.Common.{All, List, Option, [], ap, map, refl, some, ◌++◌, ◌∙◌, ◌∷◌, ◌≡◌}
use rustdesk_plus.Common.Text.{Text, text}
use rustdesk_plus.Scripts.Builder.{Builder, open_script}
use rustdesk_plus.Scripts.Builder.Edit.{vars_of}
use rustdesk_plus.Scripts.Builder.Edits.{CanvasEdit, ConnectsIn, edit_all, edits-SavesTo}
use rustdesk_plus.Scripts.Builder.Save.{SaveCall, fire}
use rustdesk_plus.Scripts.Builder.Sent.{definition_in, timer-reads_back, update_of}
use rustdesk_plus.Scripts.Flow.{
  FlowEdge, FlowNode, definition_to_flow, edge_color, edge_to_flow, flow_to_definition,
  flow_to_edge, flow_to_node, node_to_flow,
}
use rustdesk_plus.Scripts.Flow.RoundTrip.{or_else_nil}

-- The part of the server that keeps the scripts: a call that puts a definition to the address of a
-- script that is there answers with the script, changed in its definition, and keeps it.
pub record ScriptServer : Type 1 where
  pub Store : Type 0
  pub script_of : Store → Text → Option Script
  pub answer : Call → Store → Option Script × Store
  pub keeps :
      (st : Store) (c : Call) (id : Text) (s : Script) (d : ScriptDefinition)
      → script_of st id ≡ some s
      → c.method ≡ put
      → c.path ≡ text "/admin/scripts/" ++ id
      → definition_in c.body ≡ some d
      → (updated : Script) × ((answer c st).0 ≡ some updated)
        × (script_of (answer c st).1 id ≡ some updated)
        × (updated.definition ≡ d)

-- What the panel shows of a node: a node without variables is one with none of them.
unfoldable pub as_shown : FlowNode → FlowNode
as_shown n = record n { node_data = record n.node_data { variables = some (vars_of n.node_data) } }

-- An edge as it is drawn when a script is opened.
unfoldable pub as_drawn : FlowEdge → FlowEdge
as_drawn e = record e { stroke = edge_color; stroke_width = 2 }

node_shown : (n : FlowNode) → node_to_flow (flow_to_node n) ≡ as_shown n
unfolding node_to_flow flow_to_node as_shown
node_shown n = rw or_else_nil refl

nodes_shown : (ns : List FlowNode) → map node_to_flow (map flow_to_node ns) ≡ map as_shown ns
nodes_shown [] = refl
nodes_shown (n ∷ ns) = cc (node_shown n, nodes_shown ns)

edges_drawn : (es : List FlowEdge) → map edge_to_flow (map flow_to_edge es) ≡ map as_drawn es
unfolding edge_to_flow flow_to_edge as_drawn
edges_drawn [] = refl
edges_drawn (e ∷ es) = cc (edges_drawn es)

module _ (server : ScriptServer) where
  open server use {Store, script_of, answer, keeps}

  -- Whatever nodes are added to the open script, changed in the panel, deleted by its button and
  -- connected, each by a callback that has kept a script of the same id: the timer sends one call;
  -- its answer is the script that the server then has at that address, and opening it in any tab
  -- shows the canvas after the last of these edits, where a node without variables is one with none
  -- of them and the edges are drawn as those of any script that is opened.
  pub edits-reopen :
      (e : CanvasEdit) (es : List CanvasEdit) (b other : Builder) (s old : Script) (st : Store)
      → b.selected_script ≡ some s
      → All (ConnectsIn s.id) (e ∷ es)
      → script_of st s.id ≡ some old
      → let edited = edit_all (e ∷ es) b in
        (c : SaveCall) × ((fire edited).1 ≡ some c)
        × (updated : Script) × ((answer (update_of c) st).0 ≡ some updated)
        × (script_of (answer (update_of c) st).1 s.id ≡ some updated)
        × ((open_script updated other).nodes ≡ map as_shown edited.nodes)
        × ((open_script updated other).edges ≡ map as_drawn edited.edges)
  unfolding open_script definition_to_flow flow_to_definition
  edits-reopen e es b other s old st selected kept_open stored =
      let edited = edit_all (e ∷ es) b in
      let (t, job, id) = edits-SavesTo e es b s selected kept_open in
      let (c, sends, method, path, body) =
        timer-reads_back t edited.nodes edited.edges edited job in
      let (updated, answers, kept, same) =
        keeps st (update_of c) s.id old (flow_to_definition edited.nodes edited.edges) stored method
          (path ∙ ap (λ i. text "/admin/scripts/" ++ i) id) body in
      (
        c,
        sends,
        updated,
        answers,
        kept,
        ap (λ d. map node_to_flow d.nodes) same ∙ nodes_shown edited.nodes,
        ap (λ d. map edge_to_flow d.edges) same ∙ edges_drawn edited.edges,
      )
