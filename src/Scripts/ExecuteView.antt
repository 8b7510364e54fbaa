-- ===== src/Scripts/ExecuteView.antt =====
-- What `ExecuteTab` draws of its state (scripts/page.tsx).
use mathlib.Core.Option.{some-injective}
use rustdesk_plus.Api.Scripts.{Script, ScriptVar}
use rustdesk_plus.Api.Types.{Device}
use rustdesk_plus.Common.{
  Bool, Bool-cases, List, Option, [], ap, arith, find?, if◌then◌else◌, inl, inr, is_empty, length,
  ltb, map, none, some, sym, ℕ, ◌++◌, ◌+◌, ◌<◌, ◌∷◌, ◌≡◌, ◌≤◌,
}
use rustdesk_plus.Common.Text.{Text, decimal, includes, text, text_eq}
use rustdesk_plus.Devices.Show.{display_name}
use rustdesk_plus.Scripts.Execute.{
  ActiveRun, Execute, TargetType, all_vars, devices, done_count, every, failed_count, is_disabled,
  results_of, tag, total_count,
}
use rustdesk_plus.Scripts.Execute.Progress.{counts_le}
use rustdesk_plus.Scripts.Results.{DeviceResultView, device_results}

unfoldable pub script_option : Script → Text × Text
unfolding decimal
script_option s =
    (s.id, s.name ++ text " (" ++ decimal (length s.definition.nodes) ++ text " passos)")

abbrev has_script_id : Text → Script → Bool
has_script_id id s = text_eq s.id id

-- `selectedScriptObj`
unfoldable pub selected_script_obj : Execute → Option Script
unfolding text_eq
selected_script_obj x = find? (has_script_id x.selected_script_id) x.scripts

unfoldable pub target_label : TargetType → Text
target_label every = text "Todos"
target_label devices = text "Dispositivos"
target_label tag = text "Por tag"

pub record DeviceBox : Type 0 where
  pub checked : Bool
  pub up : Bool
  pub name : Text

unfoldable pub device_box : Execute → Device → DeviceBox
unfolding includes display_name
device_box x d = record {
  checked = includes d.uuid x.selected_devices;
  up = d.online;
  name = display_name d;
}

-- What stands below the choice of the target
pub data TargetView : Type 0 where
  no_choice no_device : TargetView
  tag_choice : List (Text × Text) → TargetView
  device_choice : List DeviceBox → TargetView

unfoldable pub target_view : Execute → TargetView
unfolding device_box
target_view x = elim x.target_type [
  | every ↦ no_choice
  | tag ↦ tag_choice (([], text "— Selecione uma tag —") ∷ map (λ t. (t.id, t.name)) x.tags)
  | devices ↦ if is_empty x.devices then no_device else device_choice (map (device_box x) x.devices)
]

abbrev description_of : Option Script → Option Text
description_of none = none
description_of (some s) = if is_empty s.description then none else some s.description

abbrev variables_of : Option Script → List ScriptVar
variables_of none = []
variables_of (some s) = all_vars s

-- The run that is followed: what is finished, the failures where there are any, the total, and the
-- devices. The bar is as long as the finished part of the total.
pub record RunView : Type 0 where
  pub going_on : Bool
  pub ok_count : ℕ
  pub failures : Option ℕ
  pub whole : ℕ
  pub bar : Option (ℕ × ℕ)
  pub results : List DeviceResultView

pub record ExecuteView : Type 0 where
  pub options : List (Text × Text)
  pub description : Option Text
  pub variables : List ScriptVar
  pub target : TargetView
  pub button : Text
  pub button_disabled : Bool
  pub followed : Option RunView

abbrev bar_of : ℕ → ℕ → Option (ℕ × ℕ)
bar_of finished whole = if ltb 0 whole then some (finished, whole) else none

unfoldable pub run_view : Execute → ActiveRun → RunView
unfolding done_count failed_count total_count device_results
run_view x r = record {
  going_on = x.running;
  ok_count = done_count x;
  failures = if ltb 0 (failed_count x) then some (failed_count x) else none;
  whole = total_count x;
  bar = bar_of (done_count x + failed_count x) (total_count x);
  results = device_results x.expanded_device r.results;
}

abbrev followed_of : Execute → Option ActiveRun → Option RunView
followed_of x none = none
followed_of x (some r) = some (run_view x r)

unfoldable pub execute_view : Execute → ExecuteView
unfolding script_option selected_script_obj all_vars target_view is_disabled run_view
execute_view x = record {
  options = map script_option x.scripts;
  description = description_of (selected_script_obj x);
  variables = variables_of (selected_script_obj x);
  target = target_view x;
  button = if x.running then text "Executando..." else text "Executar Script";
  button_disabled = is_disabled x;
  followed = followed_of x x.active_run;
}

counts-le-total : (x : Execute) → done_count x + failed_count x ≤ total_count x
unfolding done_count failed_count total_count
counts-le-total x = counts_le (results_of x.active_run)

bar_of-le : (a b n m : ℕ) → a ≤ b → bar_of a b ≡ some (n, m) → (n ≤ m) × (0 < m)
bar_of-le a b n m h e = elim (Bool-cases (ltb 0 b)) [
  | inl counts ↦
      let same = some-injective _ _ (rw counts at e) in
      rw (sym (ap (λ q. q.0) same), sym (ap (λ q. q.1) same)) (h, ground arith)
  | inr nothing ↦ absurd (ground arith)
]

-- The bar of a run that is followed is never longer than its frame, and is drawn only where there
-- is a result to count.
pub run_view-bar :
    (x : Execute) (r : ActiveRun) (n m : ℕ) → (run_view x r).bar ≡ some (n, m) → (n ≤ m) × (0 < m)
unfolding run_view
run_view-bar x r n m h =
    bar_of-le (done_count x + failed_count x) (total_count x) n m (counts-le-total x) h
