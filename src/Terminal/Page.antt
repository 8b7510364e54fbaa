-- ===== src/Terminal/Page.antt =====
-- The state of the terminal page (terminal/page.tsx).
use rustdesk_plus.Api.Types.{Device, ExecJobResult, Tag, Tenant}
use rustdesk_plus.Common.{Bool, List, Option, [], any, if◌then◌else◌, is_empty, ℕ, ◌&&◌, ◌∷◌}
use rustdesk_plus.Common.Int.{ℤ}
use rustdesk_plus.Common.Text.{Text, text_eq}

pub data TargetMode : Type 0 where
  every_device by_tag one_device : TargetMode

pub record HistoryEntry : Type 0 where
  pub job_id : Text
  pub cmd : Text
  pub powershell : Bool
  pub result : Option ExecJobResult
  pub running : Bool
  pub started_at : ℕ
  pub cwd : Option Text

-- The hooks of the page. `super_admin` is fixed by the stored user; `polls` holds the keys of
-- `pollsRef`, each with its interval. `tick` and `showConfig` only drive the drawing.
pub record Page : Type 0 where
  pub super_admin : Bool
  pub tenants : List Tenant
  pub selected_tenant_id : Text
  pub tags : List Tag
  pub devices : List Device
  pub target_mode : TargetMode
  pub selected_tag : Text
  pub selected_device_id : Text
  pub powershell : Bool
  pub current_dir : Option Text
  pub cmd : Text
  pub history : List HistoryEntry
  pub cmd_history : List Text
  pub cmd_history_idx : ℤ
  pub error : Option Text
  pub polls : List (Text × ℕ)

abbrev pub is_running : HistoryEntry → Bool
is_running e = e.running

unfoldable pub any_running : Page → Bool
any_running p = any is_running p.history

unfoldable pub no_tenant_selected : Page → Bool
no_tenant_selected p = p.super_admin && is_empty p.selected_tenant_id

-- `prev.map((e) => (e.jobId === id ? … : e))`
unfoldable pub update_entries :
    Text → (HistoryEntry → HistoryEntry) → List HistoryEntry → List HistoryEntry
update_entries id f [] = []
update_entries id f (e ∷ es) = (if text_eq e.job_id id then f e else e) ∷ update_entries id f es

abbrev pub has_job_id : Text → HistoryEntry → Bool
has_job_id id e = text_eq e.job_id id
