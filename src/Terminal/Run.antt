-- ===== src/Terminal/Run.antt =====
-- `onRun` of terminal/page.tsx up to its first await and with the reply of `execCommand`, and the
-- change of the tenant. The times are arguments: `now` is `Date.now()`, `iso`
-- is `new Date().toISOString()`.
use rustdesk_plus.Api.Session.{Browser, set_active_tenant}
use rustdesk_plus.Api.Types.{Device, ExecBody, ExecJobResult, ExecReply, Tenant}
use rustdesk_plus.Common.{
  Bool, List, Option, [], false, find?, if◌then◌else◌, is_empty, none, some, take, true, ℕ, ◌++◌,
  ◌==◌, ◌||◌, ◌∷◌,
}
use rustdesk_plus.Common.Dict.{insert}
use rustdesk_plus.Common.Int.{negsuc}
use rustdesk_plus.Common.Text.{Text, decimal, text, text_eq, to_lower, trim}
use rustdesk_plus.Terminal.Output.{wrap_for_cwd}
use rustdesk_plus.Terminal.Page.{
  Page, TargetMode, any_running, by_tag, every_device, no_tenant_selected, one_device,
  update_entries,
}

-- What the continuations after the first await have captured.
pub record Launch : Type 0 where
  pub placeholder : Text
  pub trimmed : Text
  pub powershell : Bool
  pub body : ExecBody

abbrev pub has_device_id : Text → Device → Bool
has_device_id id d = text_eq d.id id

-- `dev ? [dev.uuid] : undefined`
abbrev pub device_target : Option Device → Option (List Text)
device_target none = none
device_target (some d) = some (d.uuid ∷ [])

abbrev pub targets_of : TargetMode → Text → List Device → Option (List Text)
targets_of one_device [] devices = none
targets_of one_device (c ∷ id) devices = device_target (find? (has_device_id (c ∷ id)) devices)
targets_of every_device id devices = none
targets_of by_tag id devices = none

abbrev pub tag_of : TargetMode → Text → Option Text
tag_of by_tag [] = none
tag_of by_tag (c ∷ tag) = some (c ∷ tag)
tag_of every_device tag = none
tag_of one_device tag = none

unfoldable pub exec_body : Page → Text → ExecBody
unfolding wrap_for_cwd text_eq
exec_body p trimmed = record {
  cmd = wrap_for_cwd trimmed p.powershell;
  powershell = p.powershell;
  targets = targets_of p.target_mode p.selected_device_id p.devices;
  tag_id = tag_of p.target_mode p.selected_tag;
}

unfoldable pub is_clear : Text → Bool
unfolding to_lower text_eq
is_clear trimmed =
    text_eq (to_lower trimmed) (text "clear") || text_eq (to_lower trimmed) (text "cls")

abbrev pub placeholder_id : ℕ → Text
placeholder_id now = text "pending-" ++ decimal now

abbrev pub choose_tenant : Text
choose_tenant = text "Selecione um cliente antes de executar."

-- The new page once a command is accepted.
unfoldable pub launched : ℕ → Page → Text → Page
launched now p trimmed = record p {
  cmd = [];
  error = none;
  cmd_history_idx = negsuc 0;
  cmd_history = trimmed ∷ take 49 p.cmd_history;
  history =
      p.history
      ++ record {
        job_id = placeholder_id now;
        cmd = trimmed;
        powershell = p.powershell;
        result = none;
        running = true;
        started_at = now;
        cwd = p.current_dir;
      }
        ∷ [];
}

unfoldable pub launch_of : ℕ → Page → Text → Launch
unfolding exec_body
launch_of now p trimmed = record {
  placeholder = placeholder_id now;
  trimmed = trimmed;
  powershell = p.powershell;
  body = exec_body p trimmed;
}

-- `onRun` up to its first await.
unfoldable pub run : ℕ → Page → Page × Option Launch
unfolding any_running no_tenant_selected launched launch_of is_clear trim
run now p =
    let trimmed = trim p.cmd in
    if is_empty trimmed || any_running p
    then (p, none)
    else if no_tenant_selected p
    then (record p { error = some choose_tenant }, none)
    else if is_clear trimmed
    then (record p { history = []; current_dir = none; cmd = []; cmd_history_idx = negsuc 0 }, none)
    else (launched now p trimmed, some (launch_of now p trimmed))

-- The single result that stands for a failure.
unfoldable pub failure_result : Text → Launch → Text → Text → Option Text → ExecJobResult
failure_result job_id l message started finished = record {
  job_id = job_id;
  cmd = l.trimmed;
  powershell = l.powershell;
  results =
      record {
        device_id = text "err";
        hostname = none;
        alias = none;
        rustdesk_id = text "—";
        ip_address = none;
        output = message;
        exit_code = some (negsuc 0);
        done = true;
        started_at = started;
        finished_at = finished;
      }
      ∷ [];
}

abbrev pub none_online : Text
none_online = text "Nenhum dispositivo online encontrado."

abbrev pub agent_missing : Text
agent_missing = text "Agente não conectado. Reinstale o agente no PC."

-- The reply of `execCommand`; `interval` is what `setInterval` returns.
unfoldable pub on_exec : Text → ℕ → Launch → ExecReply → Page → Page
unfolding update_entries failure_result insert
on_exec iso interval l reply p =
    if reply.sent == 0
    then record p {
      history =
          update_entries l.placeholder
            (λ e. record e {
              job_id = reply.job_id;
              running = false;
              result = some (
                  failure_result reply.job_id l
                    (if reply.targets == 0 then none_online else agent_missing) iso (some iso));
            })
            p.history;
    }
    else record p {
      history = update_entries l.placeholder (λ e. record e { job_id = reply.job_id }) p.history;
      polls = insert reply.job_id interval p.polls;
    }

-- The `catch` of `onRun`
unfoldable pub on_exec_error : Text → Launch → Text → Page → Page
unfolding update_entries failure_result
on_exec_error iso l message p = record p {
  history =
      update_entries l.placeholder
        (λ e. record e { running = false; result = some (failure_result [] l message iso none) })
        p.history;
}

abbrev pub has_tenant_id : Text → Tenant → Bool
has_tenant_id id t = text_eq t.id id

abbrev pub select_tenant : Text → Option Tenant → Browser → Browser
select_tenant id none b = set_active_tenant none none b
select_tenant id (some t) b = set_active_tenant (some id) (some t.name) b

-- `onTenantChange`, and the cleanup of the effect that depends on the tenant: when another tenant
-- is chosen, every poll is stopped, unless none was chosen before, where the effect has returned
-- early and left no cleanup.
unfoldable pub on_tenant_change : Text → Page → Browser → Page × Browser
unfolding text_eq set_active_tenant no_tenant_selected
on_tenant_change id p b = (
  record p {
    selected_tenant_id = id;
    history = [];
    error = none;
    polls = if text_eq p.selected_tenant_id id || no_tenant_selected p then p.polls else [];
  },
  select_tenant id (find? (has_tenant_id id) p.tenants) b,
)

-- The button "Limpar"
unfoldable pub clear_history : Page → Page
clear_history p = record p { history = [] }
