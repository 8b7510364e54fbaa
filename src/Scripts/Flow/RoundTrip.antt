-- ===== src/Scripts/Flow/RoundTrip.antt =====
-- Opening a script and saving it (scripts/page.tsx).
use rustdesk_plus.Api.Scripts.{ScriptDefinition, ScriptEdge, ScriptNode, ScriptVar}
use rustdesk_plus.Common.{
  All, List, Option, [], ap, is_some, map, none, or_default, refl, some, true, ◌∷◌, ◌≡◌,
}
use rustdesk_plus.Common.Text.{Text, or_else}
use rustdesk_plus.Scripts.Flow.{
  definition_to_flow, edge_to_flow, flow_to_definition, flow_to_edge, flow_to_node, node_to_flow,
}

abbrev pub HasVariables : ScriptNode → Type 0
HasVariables n = is_some n.node_data.variables ≡ true

pub or_else_nil : (s : Text) → or_else s [] ≡ s
or_else_nil [] = refl
or_else_nil (c ∷ s) = refl

some-or_default : (v : Option (List ScriptVar)) → is_some v ≡ true → some (or_default v []) ≡ v
some-or_default none h = cc
some-or_default (some v) h = refl

node_round : (n : ScriptNode) → HasVariables n → flow_to_node (node_to_flow n) ≡ n
unfolding flow_to_node node_to_flow
node_round n h = λ i. record n {
  node_data = record n.node_data {
    label = or_else_nil n.node_data.label i;
    variables = some-or_default n.node_data.variables h i;
  };
}

nodes_round :
    (ns : List ScriptNode) → All HasVariables ns → map flow_to_node (map node_to_flow ns) ≡ ns
nodes_round [] h = refl
nodes_round (n ∷ ns) (k, h) = cc (node_round n k, nodes_round ns h)

edges_round : (es : List ScriptEdge) → map flow_to_edge (map edge_to_flow es) ≡ es
unfolding flow_to_edge edge_to_flow
edges_round [] = refl
edges_round (e ∷ es) = cc (edges_round es)

-- A script that is opened and saved unchanged is the same, if each of its nodes lists its
-- variables, be they none.
pub flow_to_definition-definition_to_flow :
    (d : ScriptDefinition)
    → All HasVariables d.nodes
    → let flow = definition_to_flow d in flow_to_definition flow.nodes flow.edges ≡ d
unfolding definition_to_flow flow_to_definition
flow_to_definition-definition_to_flow d h =
    λ i. record { nodes = nodes_round d.nodes h i; edges = edges_round d.edges i }

node_stable : (n : ScriptNode) → node_to_flow (flow_to_node (node_to_flow n)) ≡ node_to_flow n
unfolding flow_to_node node_to_flow
node_stable n = rw (or_else_nil (or_else n.node_data.label []))

nodes_stable :
    (ns : List ScriptNode)
    → map node_to_flow (map flow_to_node (map node_to_flow ns)) ≡ map node_to_flow ns
nodes_stable [] = refl
nodes_stable (n ∷ ns) = cc (node_stable n, nodes_stable ns)

-- What is saved of any script opens to the same canvas.
pub definition_to_flow_stable :
    (d : ScriptDefinition)
    → let flow = definition_to_flow d in
      definition_to_flow (flow_to_definition flow.nodes flow.edges) ≡ flow
unfolding definition_to_flow flow_to_definition
definition_to_flow_stable d = λ i. record {
  nodes = nodes_stable d.nodes i;
  edges = ap (map edge_to_flow) (edges_round d.edges) i;
}
