-- ===== src/Scripts/Results.antt =====
-- How scripts/page.tsx draws runs: the badges, the results of the devices and the history. A date
-- is written by `Date.toLocaleString`.
use rustdesk_plus.Api.Scripts.{
  ScriptRunResult, ScriptRunStep, StepStatus, done, failed, pending, running,
}
use rustdesk_plus.Common.{
  Bool, List, Option, [], arith, false, if◌then◌else◌, is_empty, is_some, length, map, none,
  or_default, some, suc, true, zero, ℕ, ◌&&◌, ◌++◌, ◌↔◌, ◌∷◌, ◌≡◌,
}
use rustdesk_plus.Common.Int.{pos, ℤ}
use rustdesk_plus.Common.Text.{Text, decimal, or_text, text, text_eq, truthy}
use rustdesk_plus.Common.Text.Equality.{text_eq_sym, text_eq→eq}
use rustdesk_plus.Scripts.History.{
  History, RunDetail, RunStatus, ScriptRun, detail_counts, done_run, failed_run, partial_run,
  running_run, waiting_run,
}

unfoldable pub status_label : RunStatus → Text
status_label waiting_run = text "Aguardando"
status_label running_run = text "Executando"
status_label done_run = text "Concluído"
status_label failed_run = text "Falhou"
status_label partial_run = text "Parcial"

unfoldable pub step_label : StepStatus → Text
step_label pending = text "Aguardando"
step_label running = text "Executando"
step_label done = text "Concluído"
step_label failed = text "Falhou"

-- A click on a device opens its steps, or closes them.
unfoldable pub expand : Text → Option Text → Option Text
unfolding text_eq
expand id none = some id
expand id (some old) = if text_eq old id then none else some id

pub record StepView : Type 0 where
  pub label : Text
  pub exit : Option (ℤ × Bool)
  pub output : Option Text

abbrev is_zero : ℤ → Bool
is_zero (pos zero) = true
is_zero z = false

abbrev exit_of : Option ℤ → Option (ℤ × Bool)
exit_of none = none
exit_of (some z) = some (z, is_zero z)

unfoldable pub step_view : ScriptRunStep → StepView
step_view s = record {
  label = s.node_label;
  exit = exit_of s.exit_code;
  output = if is_empty s.output then none else some s.output;
}

pub record DetailView : Type 0 where
  pub error : Option Text
  pub steps : List StepView

pub record DeviceResultView : Type 0 where
  pub name : Text
  pub badge : Text
  pub detail : Option DetailView

abbrev is_expanded : Option Text → Text → Bool
is_expanded none id = false
is_expanded (some e) id = text_eq e id

-- One device of `DeviceResultList`
unfoldable pub device_result : Option Text → ScriptRunResult → DeviceResultView
unfolding step_view step_label text_eq
device_result expanded r = record {
  name = or_text r.alias (or_text r.hostname r.rustdesk_id);
  badge = step_label r.status;
  detail =
      if is_expanded expanded r.id
      then some (record {
        error = if truthy r.error && is_empty r.steps then r.error else none;
        steps = map step_view r.steps;
      })
      else none;
}

unfoldable pub device_results : Option Text → List ScriptRunResult → List DeviceResultView
unfolding device_result
device_results expanded rs = map (device_result expanded) rs

pub record CountsView : Type 0 where
  pub done_part : ℕ
  pub failed_part : Option ℕ
  pub total : Option ℕ

pub record RunRow : Type 0 where
  pub name : Text
  pub badge : Text
  pub made : Text
  pub targets : Text
  pub counts : Option CountsView

abbrev where_positive : Option ℕ → Option ℕ
where_positive (some (suc n)) = some (suc n)
where_positive n = none

abbrev counts_of : ScriptRun → Option CountsView
counts_of r = elim r.total_devices [
  | none ↦ none
  | some total ↦ some (record {
    done_part = or_default r.done_devices 0;
    failed_part = where_positive r.failed_devices;
    total = some total;
  })
]

unfoldable pub targets_text : ScriptRun → Text
unfolding text_eq decimal
targets_text r =
    if text_eq r.target_type (text "all")
    then text "Todos"
    else if text_eq r.target_type (text "tag")
    then text "Tag"
    else decimal (length r.target_ids) ++ text " dispositivos"

module _ (locale_string : Text → Text) where
  unfoldable pub format_date_time : Option Text → Text
  format_date_time none = text "—"
  format_date_time (some []) = text "—"
  format_date_time (some (c ∷ s)) = locale_string (c ∷ s)

  unfoldable pub run_row : ScriptRun → RunRow
  unfolding status_label format_date_time targets_text
  run_row r = record {
    name = r.script_name;
    badge = status_label r.status;
    made = format_date_time (some r.created_at);
    targets = targets_text r;
    counts = counts_of r;
  }

  pub data HistoryView : Type 0 where
    history_loading history_empty : HistoryView
    history_rows : List RunRow → HistoryView
    run_detail : Text → Text → Text → ℕ × ℕ × ℕ → List DeviceResultView → HistoryView

  abbrev detail_view : Option Text → RunDetail → HistoryView
  detail_view expanded d =
      run_detail d.run.script_name (format_date_time (some d.run.created_at))
        (status_label d.run.status) (length d.results, (detail_counts d).0, (detail_counts d).1)
        (device_results expanded d.results)

  unfoldable pub runs_view : History → HistoryView
  unfolding run_row device_results detail_counts
  runs_view h = elim h.detail_run [
    | some d ↦ detail_view h.expanded_device d
    | none ↦
        if h.loading
        then history_loading
        else if is_empty h.runs
        then history_empty
        else history_rows (map run_row h.runs)
  ]

-- At most one device of a list is open: the one that was clicked last, where its results are not
-- closed again by a second click.
pub device_result-expand :
    (id : Text) (old : Option Text) (r : ScriptRunResult)
    → let view = device_result (expand id old) r in
      (is_some view.detail ≡ true)
      ↔ ((text_eq r.id id ≡ true) × (is_some (device_result old r).detail ≡ false))
unfolding device_result expand
device_result-expand id none r = ground (arith, text_eq_sym id r.id)
device_result-expand id (some o) r =
    ground (arith, text_eq_sym id r.id, text_eq→eq r.id id, text_eq→eq o id, text_eq→eq o r.id)
