-- ===== src/Api/Types.antt =====
-- The data types of dashboard/src/lib/api.ts. A string is a text, `| null` and `?` are `Option`,
-- a time is the text that the server sends.
use rustdesk_plus.Common.{Bool, List, Option, ℕ}
use rustdesk_plus.Common.Int.{ℤ}
use rustdesk_plus.Common.Text.{Text}

pub record Tenant : Type 0 where
  pub id : Text
  pub name : Text
  pub slug : Text
  pub created_at : Text
  pub device_count : Option ℕ
  pub online_count : Option ℕ
  pub user_count : Option ℕ

pub data Role : Type 0 where
  super_admin admin operator viewer : Role

pub record User : Type 0 where
  pub id : Text
  pub email : Text
  pub name : Text
  pub role : Role
  pub tenant_id : Option Text
  pub created_at : Text

pub record Branch : Type 0 where
  pub id : Text
  pub name : Text
  pub parent_id : Option Text
  pub tenant_id : Option Text
  pub created_at : Text

pub record Device : Type 0 where
  pub id : Text
  pub rustdesk_id : Text
  pub uuid : Text
  pub hostname : Option Text
  pub os : Option Text
  pub alias : Option Text
  pub description : Option Text
  pub favorite : Bool
  pub ip_address : Option Text
  pub online_since : Option Text
  pub branch_id : Option Text
  pub owner_user_id : Option Text
  pub tenant_id : Option Text
  pub last_seen_at : Option Text
  pub online : Bool
  pub created_at : Text
  pub deleted_at : Option Text

pub record Tag : Type 0 where
  pub id : Text
  pub name : Text
  pub color : Text
  pub tenant_id : Option Text
  pub created_at : Text

pub record DeviceTagRow : Type 0 where
  pub device_id : Text
  pub tag_id : Text
  pub name : Text
  pub color : Text

-- An element of the `results` of an `ExecJobResult`.
pub record ExecResult : Type 0 where
  pub device_id : Text
  pub hostname : Option Text
  pub alias : Option Text
  pub rustdesk_id : Text
  pub ip_address : Option Text
  pub output : Text
  pub exit_code : Option ℤ
  pub done : Bool
  pub started_at : Text
  pub finished_at : Option Text

pub record ExecJobResult : Type 0 where
  pub job_id : Text
  pub cmd : Text
  pub powershell : Bool
  pub results : List ExecResult

pub data AuditStatus : Type 0 where
  launched connecting active closed : AuditStatus

pub record ConnectionAudit : Type 0 where
  pub id : Text
  pub target_rustdesk_id : Text
  pub peer_rustdesk_id : Option Text
  pub peer_name : Option Text
  pub source_ip : Option Text
  pub connection_type : Option ℕ
  pub status : AuditStatus
  pub launched_at : Option Text
  pub started_at : Option Text
  pub ended_at : Option Text
  pub duration_seconds : Option ℕ
  pub hostname : Option Text
  pub alias : Option Text
  pub initiated_by_name : Option Text
  pub initiated_by_email : Option Text

pub record ServerConfig : Type 0 where
  pub server_ip : Text
  pub server_key : Text
  pub api_url : Text
  pub rustdesk_password : Text
  pub install_code : Text
  pub agent_enabled : Option Bool

-- `Omit<ServerConfig, "rustdesk_password"> & { configured: boolean }`
pub record SetupStatus : Type 0 where
  pub server_ip : Text
  pub server_key : Text
  pub api_url : Text
  pub install_code : Text
  pub agent_enabled : Option Bool
  pub configured : Bool

-- The body of `execCommand`
pub record ExecBody : Type 0 where
  pub cmd : Text
  pub powershell : Bool
  pub targets : Option (List Text)
  pub tag_id : Option Text

-- The answer of `execCommand`
pub record ExecReply : Type 0 where
  pub job_id : Text
  pub targets : ℕ
  pub sent : ℕ
