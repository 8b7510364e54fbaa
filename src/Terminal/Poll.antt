-- ===== src/Terminal/Poll.antt =====
-- The polling interval and the time limit of `onRun` (terminal/page.tsx).
use rustdesk_plus.Api.Types.{ExecJobResult, ExecResult}
use rustdesk_plus.Common.{
  Bool, Option, all, false, get_last?, if◌then◌else◌, is_empty, is_some, none, not, some, ◌&&◌,
}
use rustdesk_plus.Common.Dict.{erase, lookup}
use rustdesk_plus.Common.Text.{Text}
use rustdesk_plus.Terminal.Output.{extract_cwd}
use rustdesk_plus.Terminal.Page.{Page, update_entries}

abbrev pub is_done : ExecResult → Bool
is_done r = r.done

unfoldable pub all_done : ExecJobResult → Bool
all_done r = not (is_empty r.results) && all is_done r.results

-- The directory after a finished job: that of the last result, where it names one.
abbrev pub dir_of_output : Option Text → Option Text → Option Text
dir_of_output none old = old
dir_of_output (some cwd) old = if is_empty cwd then old else some cwd

unfoldable pub dir_after : Option ExecResult → Option Text → Option Text
unfolding extract_cwd
dir_after none old = old
dir_after (some last) old =
    if is_empty last.output then old else dir_of_output (extract_cwd last.output) old

-- A reply of `getExecResults` in the polling interval. Where it fails, nothing happens.
unfoldable pub on_poll : Text → ExecJobResult → Page → Page
unfolding update_entries all_done dir_after erase
on_poll job_id r p =
    let done = all_done r in
    let p' = record p {
      history =
          update_entries job_id (λ e. record e { result = some r; running = not done }) p.history;
    } in
    if done
    then record p' {
      polls = erase job_id p.polls;
      current_dir = dir_after (get_last? r.results) p.current_dir;
    }
    else p'

-- After 120 seconds: only a job that is still polled is given up.
unfoldable pub on_timeout : Text → Page → Page
unfolding lookup erase update_entries
on_timeout job_id p =
    if is_some (lookup job_id p.polls)
    then record p {
      polls = erase job_id p.polls;
      history = update_entries job_id (λ e. record e { running = false }) p.history;
    }
    else p
