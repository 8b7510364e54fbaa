-- ===== src/Terminal/Events.antt =====
-- The terminal page as a machine: every handler of terminal/page.tsx that changes its state.
pub mod History
pub mod Launches
pub mod Tracking
pub mod Ends
pub mod Settles
pub mod Single
pub mod Chosen
pub mod Moved
pub mod Completes
use rustdesk_plus.Api.Session.{Browser}
use rustdesk_plus.Api.Types.{Device, ExecJobResult, ExecReply, Tag, Tenant}
use rustdesk_plus.Common.{Bool, List, [], ℕ, ◌∷◌}
use rustdesk_plus.Common.Text.{Text}
use rustdesk_plus.Terminal.Keys.{newer, older, type_cmd}
use rustdesk_plus.Terminal.Page.{Page, TargetMode}
use rustdesk_plus.Terminal.Poll.{on_poll, on_timeout}
use rustdesk_plus.Terminal.Run.{
  Launch, clear_history, on_exec, on_exec_error, on_tenant_change, run,
}

pub data Event : Type 0 where
  typed : Text → Event
  arrow_up arrow_down limpar : Event
  enter : ℕ → Event
  exec_answered : Text → ℕ → Launch → ExecReply → Event
  exec_failed : Text → Launch → Text → Event
  poll_answered : Text → ExecJobResult → Event
  time_up : Text → Event
  tenant_picked : Text → Browser → Event
  mode_picked : TargetMode → Event
  tag_picked device_picked : Text → Event
  shell_picked : Bool → Event
  targets_loaded : List Tag → List Device → Event
  tenants_loaded : List Tenant → Event

unfoldable pub step : Page → Event → Page
unfolding type_cmd older newer clear_history run on_exec on_exec_error on_poll on_timeout
    on_tenant_change
step p (typed s) = type_cmd s p
step p arrow_up = older p
step p arrow_down = newer p
step p limpar = clear_history p
step p (enter now) = (run now p).0
step p (exec_answered iso interval l reply) = on_exec iso interval l reply p
step p (exec_failed iso l message) = on_exec_error iso l message p
step p (poll_answered id r) = on_poll id r p
step p (time_up id) = on_timeout id p
step p (tenant_picked id b) = (on_tenant_change id p b).0
step p (mode_picked m) = record p { target_mode = m }
step p (tag_picked id) = record p { selected_tag = id }
step p (device_picked id) = record p { selected_device_id = id }
step p (shell_picked ps) = record p { powershell = ps }
step p (targets_loaded ts ds) = record p { tags = ts; devices = ds }
step p (tenants_loaded ts) = record p { tenants = ts }

unfoldable pub steps : Page → List Event → Page
unfolding step
steps p [] = p
steps p (e ∷ es) = steps (step p e) es
