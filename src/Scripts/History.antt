-- ===== src/Scripts/History.antt =====
-- `HistoryTab` of scripts/page.tsx, and the previews on the nodes of the canvas.
use rustdesk_plus.Api.Http.{Call}
use rustdesk_plus.Api.Queries.{list_script_runs}
use rustdesk_plus.Api.Scripts.{ScriptRunResult}
use rustdesk_plus.Common.{
  Bool, List, Option, [], false, filter, if◌then◌else◌, is_empty, length, map, none, or_default,
  some, true, ℕ, ◌++◌, ◌==◌, ◌∷◌,
}
use rustdesk_plus.Common.Text.{Text, join, line_feed, push_first, text}
use rustdesk_plus.Scripts.Execute.{is_done, is_failed}
use rustdesk_plus.Scripts.Flow.{NodeData}

pub data RunStatus : Type 0 where
  waiting_run running_run done_run failed_run partial_run : RunStatus

-- `ScriptRun` of api.ts
pub record ScriptRun : Type 0 where
  pub id : Text
  pub script_id : Option Text
  pub script_name : Text
  pub target_type : Text
  pub target_ids : List Text
  pub status : RunStatus
  pub created_at : Text
  pub finished_at : Option Text
  pub total_devices : Option ℕ
  pub done_devices : Option ℕ
  pub failed_devices : Option ℕ

pub record RunDetail : Type 0 where
  pub run : ScriptRun
  pub results : List ScriptRunResult

pub record History : Type 0 where
  pub runs : List ScriptRun
  pub loading : Bool
  pub detail_run : Option RunDetail
  pub expanded_device : Option Text

-- The call that loads the tab, and its answer.
unfoldable pub history_call : Call
unfolding list_script_runs
history_call = list_script_runs (some 50) none

unfoldable pub on_runs : List ScriptRun → History → History
on_runs r h = record h { runs = r; loading = false }

-- `openDetail` with its answer, and the button that leaves it.
unfoldable pub on_detail : RunDetail → History → History
on_detail detail h = record h { detail_run = some detail; expanded_device = none }

unfoldable pub close_detail : History → History
close_detail h = record h { detail_run = none }

-- `done` and `failed` of the run that is shown.
unfoldable pub detail_counts : RunDetail → ℕ × ℕ
detail_counts d = (length (filter is_done d.results), length (filter is_failed d.results))

abbrev first_line : List Text → Text
first_line [] = []
first_line (l ∷ ls) = l

-- `s.split("\n")`
unfoldable pub split_feeds : Text → List Text
split_feeds [] = [] ∷ []
split_feeds (c ∷ s) =
    let rest = split_feeds s in if c == line_feed then [] ∷ rest else push_first c rest

abbrev shell_prefix : Option Bool → Text
shell_prefix (some true) = text "PS> "
shell_prefix (some false) = text "CMD> "
shell_prefix none = text "CMD> "

-- The preview of `ShellNode`
unfoldable pub shell_preview : NodeData → Option Text
unfolding split_feeds
shell_preview d = elim d.command [
  | none ↦ none
  | some command ↦
      if is_empty command
      then none
      else some (shell_prefix d.powershell ++ first_line (split_feeds command))
]

-- The preview of `VariableNode`
unfoldable pub variable_preview : NodeData → Text
unfolding join
variable_preview d =
    let vars = or_default d.variables [] in
    if is_empty vars
    then text "Nenhuma variável"
    else join (text "  ·  ") (map (λ v. v.key ++ text "=" ++ v.value) vars)
