-- ===== src/Scripts/Builder.antt =====
-- `BuilderTab` of scripts/page.tsx: the library of scripts, the canvas and the delayed save.
pub mod Edit
pub mod Save
pub mod Library
pub mod Invariant
pub mod Listed
pub mod Faults
pub mod Sent
pub mod Edits
pub mod Reopens
pub mod Reopened
use rustdesk_plus.Api.Scripts.{Script}
use rustdesk_plus.Common.{Bool, List, Option, none, some}
use rustdesk_plus.Common.Text.{Text}
use rustdesk_plus.Scripts.Flow.{FlowEdge, FlowNode, definition_to_flow}

pub data SaveStatus : Type 0 where
  idle unsaved saved : SaveStatus

-- What the timer of `scheduleSave` has captured.
pub record SaveJob : Type 0 where
  pub script : Option Script
  pub nodes : List FlowNode
  pub edges : List FlowEdge

-- The hooks of the tab. `unsaved` is the status "saving"; `timer` is the timeout in
-- `saveTimerRef` that has not fired.
pub record Builder : Type 0 where
  pub scripts : List Script
  pub selected_script : Option Script
  pub loading : Bool
  pub save_status : SaveStatus
  pub selected_node_id : Option Text
  pub new_name : Text
  pub creating_new : Bool
  pub saving : Bool
  pub nodes : List FlowNode
  pub edges : List FlowEdge
  pub timer : Option SaveJob

-- `scheduleSave`: a pending save is replaced. The script is the one that is selected now.
unfoldable pub schedule_save : List FlowNode → List FlowEdge → Builder → Builder
schedule_save new_nodes new_edges b = record b {
  save_status = unsaved;
  timer = some (record { script = b.selected_script; nodes = new_nodes; edges = new_edges });
}

unfoldable pub open_script : Script → Builder → Builder
unfolding definition_to_flow
open_script script b = record b {
  selected_script = some script;
  selected_node_id = none;
  nodes = (definition_to_flow script.definition).nodes;
  edges = (definition_to_flow script.definition).edges;
  save_status = idle;
}
