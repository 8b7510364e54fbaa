-- ===== src/Terminal/View.antt =====
-- What the terminal page draws of its state (terminal/page.tsx), without the styles. `clock` is
-- `Date.now()` and `time_of` is `new Date(…).getTime()`, in milliseconds.
pub mod Elapsed
pub mod Input
pub mod Config
pub mod Window
use rustdesk_plus.Api.Types.{Device, ExecResult, Tag}
use rustdesk_plus.Common.{
  Bool, List, Option, [], false, filter, find?, if◌then◌else◌, is_empty, leb, length, ltb, map,
  none, some, suc, true, zero, ℕ, ◌&&◌, ◌++◌, ◌+◌, ◌-◌, ◌/◌, ◌||◌, ◌∷◌,
}
use rustdesk_plus.Common.Int.{negsuc, pos, sub_ℕ, ℤ}
use rustdesk_plus.Common.Text.{Text, decimal, or_text, text, text_eq, trim}
use rustdesk_plus.Terminal.Output.{build_prompt, strip_sentinel}
use rustdesk_plus.Terminal.Page.{
  HistoryEntry, Page, any_running, by_tag, every_device, no_tenant_selected, one_device,
}
use rustdesk_plus.Terminal.Run.{has_device_id}

-- `now`: the clock only counts while a command runs.
unfoldable pub now_of : ℕ → Page → ℕ
unfolding any_running
now_of clock p = if any_running p then clock else 0

-- `Math.floor((now - started) / 1000)`
unfoldable pub seconds_between : ℕ → ℕ → ℤ
seconds_between started now =
    if leb started now then pos ((now - started) / 1000) else sub_ℕ 0 ((started - now + 999) / 1000)

unfoldable pub int_text : ℤ → Text
unfolding decimal
int_text (pos n) = decimal n
int_text (negsuc n) = text "-" ++ decimal (suc n)

abbrev pub waiting_text : ℤ → Text
waiting_text s = int_text s ++ text "s — aguardando output..."

abbrev pub connecting_text : ℤ → Text
connecting_text s = int_text s ++ text "s — conectando ao agente..."

-- One result of an entry. `output` is the text and whether it is that of a failure; `cursor` is
-- there while the result is not done, with its text where there is no output.
pub record ResultView : Type 0 where
  pub heading : Option Text
  pub output : Option (Text × Bool)
  pub cursor : Option (Option Text)
  pub exit_line : Option Text
  pub took : Option Text

abbrev pub has_failed : Option ℤ → Bool
has_failed none = false
has_failed (some (pos zero)) = false
has_failed (some c) = true

abbrev pub has_succeeded : Option ℤ → Bool
has_succeeded (some (pos zero)) = true
has_succeeded c = false

abbrev address_part : Option Text → Text
address_part none = []
address_part (some []) = []
address_part (some (c ∷ ip)) = text " (" ++ (c ∷ ip) ++ text ")"

abbrev result_name : ExecResult → Text
result_name r = or_text r.alias (or_text r.hostname r.rustdesk_id)

abbrev exit_text : Option ℤ → Text
exit_text none = text "exit code "
exit_text (some c) = text "exit code " ++ int_text c

abbrev pub finish_time : (Text → ℕ) → ℕ → Option Text → ℕ
finish_time time_of clock none = clock
finish_time time_of clock (some []) = clock
finish_time time_of clock (some (c ∷ s)) = time_of (c ∷ s)

-- What is drawn of the output: nothing where only the marker was in it.
unfoldable pub shown_output : ExecResult → Option (Text × Bool)
unfolding strip_sentinel
shown_output r =
    let clean = strip_sentinel r.output in
    if is_empty r.output || is_empty clean then none else some (clean, has_failed r.exit_code)

module _ (time_of : Text → ℕ) (clock : ℕ) where
  unfoldable pub result_view : ℕ → ℕ → Bool → ExecResult → ResultView
  unfolding shown_output seconds_between int_text
  result_view now started multi_device r = record {
    heading =
        if multi_device
        then some (text "── " ++ result_name r ++ address_part r.ip_address ++ text " ──")
        else none;
    output = shown_output r;
    cursor =
        if r.done
        then none
        else some
            (if is_empty r.output then some (waiting_text (seconds_between started now)) else none);
    exit_line = if r.done && has_failed r.exit_code then some (exit_text r.exit_code) else none;
    took =
        if r.done && has_succeeded r.exit_code
        then some (
            text "concluído em "
            ++ int_text (seconds_between started (finish_time time_of clock r.finished_at))
            ++ text "s")
        else none;
  }

  -- What stands below the command of an entry: its results, or that there is none yet.
  pub data Outcome : Type 0 where
    results_drawn : List ResultView → Outcome
    connecting : Text → Outcome

  pub record EntryView : Type 0 where
    pub prompt : Text
    pub cmd : Text
    pub outcome : Outcome

  unfoldable pub outcome_of : ℕ → HistoryEntry → Outcome
  unfolding result_view seconds_between int_text
  outcome_of now e = elim e.result [
    | none ↦ connecting (connecting_text (seconds_between e.started_at now))
    | some r ↦
        results_drawn (map (result_view now e.started_at (ltb 1 (length r.results))) r.results)
  ]

  unfoldable pub entry_view : ℕ → HistoryEntry → EntryView
  unfolding outcome_of build_prompt
  entry_view now e = record {
    prompt = build_prompt e.powershell e.cwd;
    cmd = e.cmd;
    outcome = outcome_of now e;
  }

  unfoldable pub history_view : Page → List EntryView
  unfolding entry_view now_of
  history_view p = map (entry_view (now_of clock p)) p.history

-- What stands at the right end of the input line.
pub data RunMark : Type 0 where
  spinner run_button no_mark : RunMark

pub record InputView : Type 0 where
  pub prompt : Text
  pub value : Text
  pub disabled : Bool
  pub placeholder : Text
  pub mark : RunMark

unfoldable pub input_view : Page → InputView
unfolding build_prompt any_running no_tenant_selected trim
input_view p = record {
  prompt = build_prompt p.powershell p.current_dir;
  value = p.cmd;
  disabled = any_running p || no_tenant_selected p;
  placeholder =
      if any_running p
      then text "executando..."
      else if no_tenant_selected p
      then text "selecione um cliente acima"
      else [];
  mark = if any_running p then spinner else if is_empty (trim p.cmd) then no_mark else run_button;
}

abbrev pub is_up : Device → Bool
is_up d = d.online

-- `onlineDevices`
unfoldable pub online_devices : Page → List Device
online_devices p = filter is_up p.devices

abbrev has_tag_id : Text → Tag → Bool
has_tag_id id t = text_eq t.id id

abbrev no_name : Text
no_name = text "—"

abbrev tag_name : Option Tag → Text
tag_name none = no_name
tag_name (some t) = t.name

abbrev device_name : Option Device → Text
device_name none = no_name
device_name (some d) = or_text d.alias (or_text d.hostname no_name)

-- The line that names the target where nothing was run.
unfoldable pub target_line : Page → Text
unfolding online_devices text_eq
target_line p = elim p.target_mode [
  | every_device ↦ text "Destino: todos os dispositivos online"
  | by_tag ↦
      text "Destino: tag \"" ++ tag_name (find? (has_tag_id p.selected_tag) p.tags) ++ text "\""
  | one_device ↦
      text "Destino: "
      ++ device_name (find? (has_device_id p.selected_device_id) (online_devices p))
]
