-- ===== src/Scripts/Flow.antt =====
-- The nodes and edges of the canvas, and the conversions from and to a script's definition
-- (scripts/page.tsx). `onSelect` and `selected` are only added to the nodes that are drawn.
pub mod RoundTrip
use rustdesk_plus.Api.Scripts.{
  NodeType, Position, ScriptDefinition, ScriptEdge, ScriptNode, ScriptVar,
}
use rustdesk_plus.Common.{Bool, List, Option, [], map, or_default, some, ℕ}
use rustdesk_plus.Common.Text.{Text, or_else, text}

pub record NodeData : Type 0 where
  pub label : Text
  pub command : Option Text
  pub powershell : Option Bool
  pub timeout_seconds : Option ℕ
  pub url : Option Text
  pub destination : Option Text
  pub message : Option Text
  pub variables : Option (List ScriptVar)

pub record FlowNode : Type 0 where
  pub id : Text
  pub type : NodeType
  pub position : Position
  pub node_data : NodeData

pub record FlowEdge : Type 0 where
  pub id : Text
  pub source : Text
  pub target : Text
  pub stroke : Text
  pub stroke_width : ℕ

pub record Flow : Type 0 where
  pub nodes : List FlowNode
  pub edges : List FlowEdge

unfoldable pub edge_color : Text
edge_color = text "#475569"

unfoldable pub node_to_flow : ScriptNode → FlowNode
node_to_flow n = record {
  id = n.id;
  type = n.type;
  position = n.position;
  node_data = record {
    label = or_else n.node_data.label [];
    command = n.node_data.command;
    powershell = n.node_data.powershell;
    timeout_seconds = n.node_data.timeout_seconds;
    url = n.node_data.url;
    destination = n.node_data.destination;
    message = n.node_data.message;
    variables = some (or_default n.node_data.variables []);
  };
}

unfoldable pub edge_to_flow : ScriptEdge → FlowEdge
edge_to_flow e = record {
  id = e.id;
  source = e.source;
  target = e.target;
  stroke = edge_color;
  stroke_width = 2;
}

unfoldable pub definition_to_flow : ScriptDefinition → Flow
unfolding node_to_flow edge_to_flow
definition_to_flow d = record { nodes = map node_to_flow d.nodes; edges = map edge_to_flow d.edges }

unfoldable pub flow_to_node : FlowNode → ScriptNode
flow_to_node n = record {
  id = n.id;
  type = n.type;
  position = n.position;
  node_data = record {
    label = n.node_data.label;
    command = n.node_data.command;
    powershell = n.node_data.powershell;
    timeout_seconds = n.node_data.timeout_seconds;
    url = n.node_data.url;
    destination = n.node_data.destination;
    message = n.node_data.message;
    variables = n.node_data.variables;
  };
}

unfoldable pub flow_to_edge : FlowEdge → ScriptEdge
flow_to_edge e = record { id = e.id; source = e.source; target = e.target }

unfoldable pub flow_to_definition : List FlowNode → List FlowEdge → ScriptDefinition
unfolding flow_to_node flow_to_edge
flow_to_definition nodes edges = record {
  nodes = map flow_to_node nodes;
  edges = map flow_to_edge edges;
}
