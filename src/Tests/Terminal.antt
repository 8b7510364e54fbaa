-- ===== src/Tests/Terminal.antt =====
-- Runs of the terminal page at concrete inputs.
use rustdesk_plus.Api.Types.{Device, ExecJobResult, ExecReply}
use rustdesk_plus.Common.{
  Bool, [], arith, false, get_last?, is_some, none, refl, some, true, ◌∷◌, ◌≡◌, ◌≤◌, ◌⊎◌,
}
use rustdesk_plus.Common.Dict.{insert, lookup}
use rustdesk_plus.Common.Int.{negsuc}
use rustdesk_plus.Common.Text.{
  Text, decimal, includes, is_space, keep, lower_unit, text, text_eq, to_lower, trim, trim_end,
  trim_start,
}
use rustdesk_plus.Terminal.Events.{arrow_down, arrow_up, enter, exec_answered, steps}
use rustdesk_plus.Terminal.Events.Completes.{course, course_completes, entry_of}
use rustdesk_plus.Terminal.Events.Ends.{Reach-IsTracked, here, next}
use rustdesk_plus.Terminal.Events.History.{IsValid, steps-IsValid}
use rustdesk_plus.Terminal.Events.Launches.{CanSend, run_sends}
use rustdesk_plus.Terminal.Events.Settles.{AnswersAll-settles, answer_next, limits, nothing_pending}
use rustdesk_plus.Terminal.Events.Single.{IsFresh, at_first, go_on, running_count}
use rustdesk_plus.Terminal.Events.Single.Reach.{Orderly-one}
use rustdesk_plus.Terminal.Events.Tracking.{IsTracked, Timely, World, polled, sent, without}
use rustdesk_plus.Terminal.Output.{wrap_for_cwd}
use rustdesk_plus.Terminal.Page.{Page, any_running, no_tenant_selected, one_device}
use rustdesk_plus.Terminal.Poll.{all_done, dir_after, on_poll}
use rustdesk_plus.Terminal.Run.{Launch, is_clear, launch_of, launched, on_exec, run}

abbrev pub pc : Device
pc = record {
  id = text "d1";
  rustdesk_id = text "123456789";
  uuid = text "u1";
  hostname = some (text "PC-1");
  os = none;
  alias = none;
  description = none;
  favorite = false;
  ip_address = none;
  online_since = none;
  branch_id = none;
  owner_user_id = none;
  tenant_id = none;
  last_seen_at = none;
  online = true;
  created_at = [];
  deleted_at = none;
}

abbrev pub fresh : Page
fresh = record {
  super_admin = false;
  tenants = [];
  selected_tenant_id = [];
  tags = [];
  devices = pc ∷ [];
  target_mode = one_device;
  selected_tag = [];
  selected_device_id = text "d2";
  powershell = true;
  current_dir = none;
  cmd = text " dir ";
  history = [];
  cmd_history = text "ver" ∷ text "hostname" ∷ [];
  cmd_history_idx = negsuc 0;
  error = none;
  polls = [];
}

abbrev dir : Launch
dir = launch_of 7 fresh (text "dir")

abbrev result_of : Text → Bool → ExecJobResult
result_of output over = record {
  job_id = text "j1";
  cmd = text "dir";
  powershell = true;
  results =
      record {
        device_id = text "d1";
        hostname = none;
        alias = none;
        rustdesk_id = [];
        ip_address = none;
        output = output;
        exit_code = none;
        done = over;
        started_at = [];
        finished_at = none;
      }
      ∷ [];
}

abbrev start : World
start = record { page = fresh; pending = [] }

abbrev after_enter : World
after_enter = record { page = (run 7 fresh).0; pending = dir.placeholder ∷ [] }

abbrev accepted : ExecReply
accepted = record { job_id = text "j1"; targets = 1; sent = 1 }

abbrev polled_page : Page
polled_page = on_exec [] 3 dir accepted after_enter.page

abbrev after_answer : World
after_answer = record { page = polled_page; pending = without dir.placeholder after_enter.pending }

abbrev after_poll : World
after_poll = record after_answer {
  page = on_poll (text "j1") (result_of (text "ok") false) polled_page;
}

sends_dir : (run 7 fresh).1 ≡ some dir
unfolding run trim trim_start trim_end keep is_space any_running no_tenant_selected is_clear text_eq
    to_lower lower_unit
sends_dir = refl

polls_j1 : is_some (lookup (text "j1") polled_page.polls) ≡ true
unfolding on_exec launched run trim trim_start trim_end keep is_space any_running no_tenant_selected
    is_clear text_eq to_lower lower_unit insert lookup
polls_j1 = refl

Reach-IsTracked_example : IsTracked after_poll
Reach-IsTracked_example = Reach-IsTracked {w = start} {v = after_poll} tt (
    next (next (next here (sent 7 dir sends_dir)) (Timely.answered [] 3 dir accepted))
      (polled (text "j1") (result_of (text "ok") false) polls_j1))

run_sends_example :
    (CanSend fresh
      × (l : Launch) × ((run 7 fresh).1 ≡ some l)
      × (l.trimmed ≡ text "dir")
      × (l.powershell ≡ fresh.powershell)
      × (l.body.cmd ≡ wrap_for_cwd (text "dir") fresh.powershell)
      × (l.body.powershell ≡ fresh.powershell)
      × ((run 7 fresh).0.cmd ≡ [])
      × (any_running (run 7 fresh).0 ≡ true))
    ⊎ ((¬ CanSend fresh) × ((run 7 fresh).1 ≡ none))
unfolding trim trim_start trim_end keep is_space
run_sends_example = run_sends 7 fresh

valid : IsValid fresh
valid = record { bounded = omega arith; above = omega arith; below = omega arith }

steps-IsValid_example : IsValid (steps fresh (arrow_up ∷ arrow_up ∷ enter 7 ∷ arrow_down ∷ []))
steps-IsValid_example = steps-IsValid fresh (arrow_up ∷ arrow_up ∷ enter 7 ∷ arrow_down ∷ []) valid

after_enter-IsTracked : IsTracked after_enter
after_enter-IsTracked =
    Reach-IsTracked {w = start} {v = after_enter} tt (next here (sent 7 dir sends_dir))

AnswersAll-settles_example :
    let answered = steps after_enter.page (exec_answered [] 3 dir accepted ∷ []) in
    any_running (steps answered (limits answered.polls)) ≡ false
AnswersAll-settles_example =
    AnswersAll-settles after_enter.page after_enter-IsTracked
      (answer_next [] 3 dir accepted nothing_pending)

new_pending : IsFresh dir.placeholder start
unfolding includes lookup
new_pending = (refl, refl, refl)

new_j1 : (includes dir.placeholder after_enter.pending ≡ true) × IsFresh (text "j1") after_enter
unfolding includes text_eq launched run trim trim_start trim_end keep is_space any_running
    no_tenant_selected is_clear to_lower lower_unit lookup decimal
new_j1 = (refl, (refl, refl, refl))

Orderly-one_example : running_count after_poll.page ≤ 1
unfolding launch_of
Orderly-one_example = Orderly-one {v = after_poll} fresh refl refl (
    go_on
      (go_on (go_on at_first (sent 7 dir sends_dir) new_pending) (Timely.answered [] 3 dir accepted)
        new_j1)
      (polled (text "j1") (result_of (text "ok") false) polls_j1) tt)

course_completes_example :
    let last = result_of (text "ok") true in
    let q = steps fresh (course 7 [] 3 dir accepted (result_of (text "ok") false ∷ []) last) in
    (q.history ≡ entry_of 7 fresh (trim (text " dir ")) (text "j1") (some last) false ∷ [])
    × (any_running q ≡ false)
    × (lookup (text "j1") q.polls ≡ none)
    × (q.current_dir ≡ dir_after (get_last? last.results) none)
unfolding all_done
course_completes_example =
    course_completes 7 fresh [] 3 dir accepted (result_of (text "ok") false ∷ [])
      (result_of (text "ok") true) sends_dir (λ e. ground arith) refl refl (refl, tt) refl
