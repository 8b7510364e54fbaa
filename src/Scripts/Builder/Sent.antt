-- ===== src/Scripts/Builder/Sent.antt =====
-- What a save of the open script sends (scripts/page.tsx with updateScript of api.ts).
use rustdesk_plus.Api.Http.{Call, Json, members, object, put}
use rustdesk_plus.Api.ScriptCalls.{update_script}
use rustdesk_plus.Api.ScriptReader.{
  members_of, prop, read_definition, read_definition-definition_json,
}
use rustdesk_plus.Api.Scripts.{Script, ScriptDefinition}
use rustdesk_plus.Common.{All, List, Option, ap, none, refl, some, ◌++◌, ◌∙◌, ◌≡◌}
use rustdesk_plus.Common.Text.{text, text_eq}
use rustdesk_plus.Scripts.Builder.{Builder, open_script, schedule_save}
use rustdesk_plus.Scripts.Builder.Save.{SaveCall, fire, save_call}
use rustdesk_plus.Scripts.Flow.{FlowEdge, FlowNode, flow_to_definition}
use rustdesk_plus.Scripts.Flow.RoundTrip.{HasVariables, flow_to_definition-definition_to_flow}

-- `updateScript(script.id, { definition })`
unfoldable pub update_of : SaveCall → Call
unfolding update_script
update_of c = update_script c.script_id none none (some c.definition)

-- The definition that is read out of the body of a call.
abbrev pub definition_in : Option Json → Option ScriptDefinition
definition_in none = none
definition_in (some j) = elim (prop (text "definition") (members_of j)) [
  | none ↦ none
  | some d ↦ read_definition d
]

definition_in-update_of : (c : SaveCall) → definition_in (update_of c).body ≡ some c.definition
unfolding update_of update_script prop object members text_eq
definition_in-update_of c = read_definition-definition_json c.definition

-- What is scheduled for a script is sent to the address of that script in one call, from whose
-- body its definition is read back as the graph that was to be saved.
pub timer-reads_back :
    (s : Script) (ns : List FlowNode) (es : List FlowEdge) (b : Builder)
    → b.timer ≡ some (record { script = some s; nodes = ns; edges = es })
    → (c : SaveCall) × ((fire b).1 ≡ some c)
      × ((update_of c).method ≡ put)
      × ((update_of c).path ≡ text "/admin/scripts/" ++ s.id)
      × (definition_in (update_of c).body ≡ some (flow_to_definition ns es))
unfolding fire save_call update_of update_script
timer-reads_back s ns es b h =
    let c : SaveCall = record { script_id = s.id; definition = flow_to_definition ns es } in
    (c, rw h refl, refl, refl, definition_in-update_of c)

-- So it is after a change of the open script.
pub fire-reads_back :
    (s : Script) (ns : List FlowNode) (es : List FlowEdge) (b : Builder)
    → b.selected_script ≡ some s
    → (c : SaveCall) × ((fire (schedule_save ns es b)).1 ≡ some c)
      × ((update_of c).method ≡ put)
      × ((update_of c).path ≡ text "/admin/scripts/" ++ s.id)
      × (definition_in (update_of c).body ≡ some (flow_to_definition ns es))
unfolding schedule_save
fire-reads_back s ns es b h = timer-reads_back s ns es (schedule_save ns es b) (rw h refl)

-- A script that is opened and saved unchanged is sent with the definition that it had, if its
-- nodes list their variables.
pub open_script-reads_back :
    (s : Script) (b : Builder)
    → All HasVariables s.definition.nodes
    → let opened = open_script s b in
      (c : SaveCall) × ((fire (schedule_save opened.nodes opened.edges opened)).1 ≡ some c)
      × ((update_of c).path ≡ text "/admin/scripts/" ++ s.id)
      × (definition_in (update_of c).body ≡ some s.definition)
unfolding open_script
open_script-reads_back s b h =
    let opened = open_script s b in
    let (c, sends, _, path, body) = fire-reads_back s opened.nodes opened.edges opened refl in
    (c, sends, path, body ∙ ap some (flow_to_definition-definition_to_flow s.definition h))
