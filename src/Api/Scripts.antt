-- ===== src/Api/Scripts.antt =====
-- The script types of dashboard/src/lib/api.ts. A position is in whole pixels.
use rustdesk_plus.Common.{Bool, List, Option, ℕ}
use rustdesk_plus.Common.Int.{ℤ}
use rustdesk_plus.Common.Text.{Text}

pub record ScriptVar : Type 0 where
  pub key : Text
  pub value : Text

pub record ScriptNodeData : Type 0 where
  pub label : Text
  pub command : Option Text
  pub powershell : Option Bool
  pub timeout_seconds : Option ℕ
  pub url : Option Text
  pub destination : Option Text
  pub message : Option Text
  pub variables : Option (List ScriptVar)

pub data NodeType : Type 0 where
  shell download notify variable : NodeType

pub record Position : Type 0 where
  pub x : ℤ
  pub y : ℤ

-- `node_data` is the field `data`.
pub record ScriptNode : Type 0 where
  pub id : Text
  pub type : NodeType
  pub position : Position
  pub node_data : ScriptNodeData

pub record ScriptEdge : Type 0 where
  pub id : Text
  pub source : Text
  pub target : Text

pub record ScriptDefinition : Type 0 where
  pub nodes : List ScriptNode
  pub edges : List ScriptEdge

pub record Script : Type 0 where
  pub id : Text
  pub tenant_id : Text
  pub name : Text
  pub description : Text
  pub definition : ScriptDefinition
  pub created_by : Option Text
  pub created_at : Text
  pub updated_at : Text

pub data StepStatus : Type 0 where
  pending running done failed : StepStatus

pub record ScriptRunStep : Type 0 where
  pub id : Text
  pub run_result_id : Text
  pub node_id : Text
  pub node_label : Text
  pub status : StepStatus
  pub output : Text
  pub exit_code : Option ℤ
  pub started_at : Option Text
  pub finished_at : Option Text

pub record ScriptRunResult : Type 0 where
  pub id : Text
  pub device_id : Text
  pub hostname : Option Text
  pub alias : Option Text
  pub rustdesk_id : Text
  pub status : StepStatus
  pub error : Option Text
  pub started_at : Option Text
  pub finished_at : Option Text
  pub steps : List ScriptRunStep
