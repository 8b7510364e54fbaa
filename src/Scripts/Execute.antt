-- ===== src/Scripts/Execute.antt =====
-- `ExecuteTab` and `HistoryTab` of scripts/page.tsx: choosing targets, running a script and
-- following the run.
pub mod Targets
pub mod Progress
pub mod Ends
pub mod Selection
pub mod Completes
use mathlib.Core.List.{flat_map}
use rustdesk_plus.Api.Scripts.{
  Script, ScriptNode, ScriptRunResult, ScriptVar, done, failed, variable,
}
use rustdesk_plus.Api.Types.{Device, Tag}
use rustdesk_plus.Common.{
  Bool, List, Option, [], all, false, filter, if◌then◌else◌, is_empty, length, ltb, none, not,
  or_default, some, true, ℕ, ◌&&◌, ◌*◌, ◌++◌, ◌-◌, ◌||◌, ◌∷◌,
}
use rustdesk_plus.Common.Text.{Text, includes, text_eq}

pub data TargetType : Type 0 where
  every devices tag : TargetType

-- The state `activeRun`
pub record ActiveRun : Type 0 where
  pub run_id : Text
  pub results : List ScriptRunResult

-- The hooks of the tab. `polling` says that the interval of `pollRef` is alive, `poll_start` is
-- `pollStartRef`.
pub record Execute : Type 0 where
  pub scripts : List Script
  pub devices : List Device
  pub tags : List Tag
  pub selected_script_id : Text
  pub target_type : TargetType
  pub selected_devices : List Text
  pub selected_tag : Text
  pub running : Bool
  pub active_run : Option ActiveRun
  pub expanded_device : Option Text
  pub polling : Bool
  pub poll_start : ℕ

abbrev first_id : List Script → Text → Text
first_id [] old = old
first_id (s ∷ ss) old = s.id

-- The effect that loads the tab.
unfoldable pub loaded : List Script → List Device → List Tag → Execute → Execute
loaded s d t x = record x {
  scripts = s;
  devices = d;
  tags = t;
  selected_script_id = first_id s x.selected_script_id;
}

-- The body of `runScript`
pub record RunBody : Type 0 where
  pub target_type : TargetType
  pub target_ids : Option (List Text)
  pub tag_id : Option Text

abbrev ids_for : TargetType → List Text → Option (List Text)
ids_for devices ids = some ids
ids_for every ids = none
ids_for tag ids = none

abbrev tag_for : TargetType → Text → Option Text
tag_for tag id = some id
tag_for every id = none
tag_for devices id = none

unfoldable pub run_body : Execute → RunBody
run_body x = record {
  target_type = x.target_type;
  target_ids = ids_for x.target_type x.selected_devices;
  tag_id = tag_for x.target_type x.selected_tag;
}

abbrev pub lacks_target : TargetType → List Text → Text → Bool
lacks_target every ids id = false
lacks_target devices ids id = is_empty ids
lacks_target tag ids id = is_empty id

-- The condition under which the button "Executar" is disabled.
unfoldable pub is_disabled : Execute → Bool
is_disabled x =
    x.running
    || is_empty x.selected_script_id
    || lacks_target x.target_type x.selected_devices x.selected_tag

-- `handleRun` up to the call of `runScript`
unfoldable pub handle_run : Execute → Execute × Option (Text × RunBody)
unfolding run_body
handle_run x =
    if is_empty x.selected_script_id
    then (x, none)
    else (record x { running = true }, some (x.selected_script_id, run_body x))

-- A press of the button.
unfoldable pub press_run : Execute → Execute × Option (Text × RunBody)
unfolding is_disabled handle_run
press_run x = if is_disabled x then (x, none) else handle_run x

unfoldable pub run_failed : Execute → Execute
run_failed x = record x { running = false }

-- `startPolling`
unfoldable pub start_polling : ℕ → Text → Execute → Execute
start_polling now run_id x = record x {
  active_run = some (record { run_id = run_id; results = [] });
  poll_start = now;
  expanded_device = none;
  polling = true;
}

abbrev pub time_limit : ℕ
time_limit = 20 * 60 * 1000

abbrev pub is_done : ScriptRunResult → Bool
is_done r = elim r.status [ done ↦ true | _ ↦ false ]

abbrev pub is_failed : ScriptRunResult → Bool
is_failed r = elim r.status [ failed ↦ true | _ ↦ false ]

abbrev pub is_finished : ScriptRunResult → Bool
is_finished r = is_done r || is_failed r

unfoldable pub all_finished : List ScriptRunResult → Bool
all_finished rs = not (is_empty rs) && all is_finished rs

-- A tick of the interval: the run is given up after 20 minutes, or asked for, as the second part
-- says.
unfoldable pub tick : ℕ → Execute → Execute × Bool
tick now x =
    if ltb time_limit (now - x.poll_start)
    then (record x { polling = false; running = false }, false)
    else (x, true)

-- The answer of `getScriptRun`. A failure of the call is ignored.
unfoldable pub on_run : Text → List ScriptRunResult → Execute → Execute
unfolding all_finished
on_run run_id results x =
    let x' = record x { active_run = some (record { run_id = run_id; results = results }) } in
    if all_finished results then record x' { polling = false; running = false } else x'

abbrev pub other_text : Text → Text → Bool
other_text u v = not (text_eq v u)

unfoldable pub toggle : Text → List Text → List Text
unfolding includes
toggle u prev = if includes u prev then filter (other_text u) prev else prev ++ u ∷ []

-- `toggleDevice`
unfoldable pub toggle_device : Text → Execute → Execute
unfolding toggle
toggle_device u x = record x { selected_devices = toggle u x.selected_devices }

abbrev pub results_of : Option ActiveRun → List ScriptRunResult
results_of none = []
results_of (some run) = run.results

-- `doneCount`, `failedCount`, `totalCount`
unfoldable pub done_count : Execute → ℕ
done_count x = length (filter is_done (results_of x.active_run))

unfoldable pub failed_count : Execute → ℕ
failed_count x = length (filter is_failed (results_of x.active_run))

unfoldable pub total_count : Execute → ℕ
total_count x = length (results_of x.active_run)

abbrev is_variable_node : ScriptNode → Bool
is_variable_node n = elim n.type [ variable ↦ true | _ ↦ false ]

-- `allVars`, the variables that are shown before a run
unfoldable pub all_vars : Script → List ScriptVar
all_vars s =
    flat_map (λ n. or_default n.node_data.variables []) (filter is_variable_node s.definition.nodes)
