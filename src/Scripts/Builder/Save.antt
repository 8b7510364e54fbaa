-- ===== src/Scripts/Builder/Save.antt =====
-- The delayed save (scripts/page.tsx): the timer fires, and `updateScript` answers or fails.
use rustdesk_plus.Api.Scripts.{Script, ScriptDefinition}
use rustdesk_plus.Common.{Option, if◌then◌else◌, map, none, some}
use rustdesk_plus.Common.Text.{Text, text_eq}
use rustdesk_plus.Scripts.Builder.{Builder, SaveJob, idle, saved}
use rustdesk_plus.Scripts.Flow.{flow_to_definition}

pub record SaveCall : Type 0 where
  pub script_id : Text
  pub definition : ScriptDefinition

-- What the callback of the timer sends: nothing where no script was selected.
unfoldable pub save_call : SaveJob → Option SaveCall
unfolding flow_to_definition
save_call job = elim job.script [
  | none ↦ none
  | some s ↦ some (record { script_id = s.id; definition = flow_to_definition job.nodes job.edges })
]

abbrev pub call_of : Option SaveJob → Option SaveCall
call_of none = none
call_of (some job) = save_call job

unfoldable pub fire : Builder → Builder × Option SaveCall
unfolding save_call
fire b = (record b { timer = none }, call_of b.timer)

abbrev pub replace_script : Script → Script → Script
replace_script updated s = if text_eq s.id updated.id then updated else s

unfoldable pub on_saved : Script → Builder → Builder
unfolding text_eq
on_saved updated b = record b {
  selected_script = some updated;
  scripts = map (replace_script updated) b.scripts;
  save_status = saved;
}

-- After a failure, and two seconds after a success.
unfoldable pub rest : Builder → Builder
rest b = record b { save_status = idle }
