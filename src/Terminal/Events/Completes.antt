-- ===== src/Terminal/Events/Completes.antt =====
-- A command of the terminal from the key Enter to its last result.
use rustdesk_plus.Api.Types.{ExecJobResult, ExecReply}
use rustdesk_plus.Common.{
  All, Bool, List, Option, [], any, any-append, ap, arith, false, get_last?, map, none, refl, some,
  true, ℕ, ◌++◌, ◌==◌, ◌∙◌, ◌∷◌, ◌≡◌, ◌≢◌,
}
use rustdesk_plus.Common.Dict.{erase, insert, lookup, lookup-erase}
use rustdesk_plus.Common.Text.{Text, text_eq, trim}
use rustdesk_plus.Common.Text.Equality.{text_eq_refl}
use rustdesk_plus.Terminal.Events.{Event, enter, exec_answered, poll_answered, step, steps}
use rustdesk_plus.Terminal.Events.Ends.{run-placeholder}
use rustdesk_plus.Terminal.Events.Launches.{run_needs, run_of_IsReady}
use rustdesk_plus.Terminal.Page.{
  HistoryEntry, Page, any_running, has_job_id, is_running, update_entries,
}
use rustdesk_plus.Terminal.Poll.{all_done, dir_after, on_poll}
use rustdesk_plus.Terminal.Run.{Launch, launched, on_exec, placeholder_id, run}

update_entries-append :
    (id : Text) (f : HistoryEntry → HistoryEntry) (es : List HistoryEntry) (e : HistoryEntry)
    → any (has_job_id id) es ≡ false
    → text_eq e.job_id id ≡ true
    → update_entries id f (es ++ e ∷ []) ≡ es ++ f e ∷ []
unfolding update_entries
update_entries-append id f [] e h k = rw k refl
update_entries-append id f (x ∷ es) e h k = ground (arith, update_entries-append id f es e)

-- The entry of a command in the course of its run.
abbrev pub entry_of : ℕ → Page → Text → Text → Option ExecJobResult → Bool → HistoryEntry
entry_of now p s id x runs = record {
  job_id = id;
  cmd = s;
  powershell = p.powershell;
  result = x;
  running = runs;
  started_at = now;
  cwd = p.current_dir;
}

module _ (now : ℕ) (p : Page) (s id : Text) (i : ℕ) where
  -- The page while the command runs, with what was last answered.
  abbrev asked : Option ExecJobResult → Page
  asked x = record (launched now p s) {
    history = p.history ++ entry_of now p s id x true ∷ [];
    polls = insert id i p.polls;
  }

  abbrev finished : ExecJobResult → Page
  finished r = record (launched now p s) {
    history = p.history ++ entry_of now p s id (some r) false ∷ [];
    polls = erase id (insert id i p.polls);
    current_dir = dir_after (get_last? r.results) p.current_dir;
  }

  on_exec-asked :
      (iso : Text) (l : Launch) (reply : ExecReply)
      → l.placeholder ≡ placeholder_id now
      → reply.job_id ≡ id
      → reply.sent ≢ 0
      → any (has_job_id (placeholder_id now)) p.history ≡ false
      → on_exec iso i l reply (launched now p s) ≡ asked none
  unfolding on_exec launched
  on_exec-asked iso l reply placed named sent_some new =
      let reached : (reply.sent == 0) ≡ false = ground arith in
      let ph = placeholder_id now in
      rw (reached, placed, named)
        (ap (λ h. record (launched now p s) { history = h; polls = insert id i p.polls })
          (update_entries-append ph _ p.history _ new (text_eq_refl ph)))

  on_poll-asked :
      (x : Option ExecJobResult) (r : ExecJobResult)
      → any (has_job_id id) p.history ≡ false
      → all_done r ≡ false
      → on_poll id r (asked x) ≡ asked (some r)
  unfolding on_poll launched
  on_poll-asked x r new unfinished = rw unfinished (
      ap (λ h. record (launched now p s) { history = h; polls = insert id i p.polls })
        (update_entries-append id _ p.history _ new (text_eq_refl id)))

  on_poll-finished :
      (x : Option ExecJobResult) (r : ExecJobResult)
      → any (has_job_id id) p.history ≡ false
      → all_done r ≡ true
      → on_poll id r (asked x) ≡ finished r
  unfolding on_poll launched
  on_poll-finished x r new over = rw over (
      ap (λ h. record (finished r) { history = h })
        (update_entries-append id _ p.history _ new (text_eq_refl id)))

  polls_unfinished :
      (rs : List ExecJobResult) (x : Option ExecJobResult) (last : ExecJobResult)
      → any (has_job_id id) p.history ≡ false
      → All (λ r. all_done r ≡ false) rs
      → all_done last ≡ true
      → steps (asked x) (map (poll_answered id) rs ++ poll_answered id last ∷ []) ≡ finished last
  unfolding steps step
  polls_unfinished [] x last new h over = on_poll-finished x last new over
  polls_unfinished (r ∷ rs) x last new (unfinished, h) over =
      ap (λ q. steps q (map (poll_answered id) rs ++ poll_answered id last ∷ []))
        (on_poll-asked x r new unfinished)
      ∙ polls_unfinished rs (some r) last new h over

-- The key, the answer to the launch, and the answers of the polls.
abbrev pub course :
    ℕ → Text → ℕ → Launch → ExecReply → List ExecJobResult → ExecJobResult → List Event
course now iso i l reply rs last =
    enter now
    ∷ exec_answered iso i l reply
    ∷ (map (poll_answered reply.job_id) rs ++ poll_answered reply.job_id last ∷ [])

course_ends :
    (now : ℕ) (p : Page) (iso : Text) (i : ℕ) (l : Launch) (reply : ExecReply)
    (rs : List ExecJobResult) (last : ExecJobResult)
    → (run now p).1 ≡ some l
    → reply.sent ≢ 0
    → any (has_job_id (placeholder_id now)) p.history ≡ false
    → any (has_job_id reply.job_id) p.history ≡ false
    → All (λ r. all_done r ≡ false) rs
    → all_done last ≡ true
    → steps p (course now iso i l reply rs last) ≡ finished now p (trim p.cmd) reply.job_id i last
unfolding steps step
course_ends now p iso i l reply rs last sends reached new fresh unfinished over =
    let ran = run_of_IsReady now p (run_needs now p l sends) in
    let polls = map (poll_answered reply.job_id) rs ++ poll_answered reply.job_id last ∷ [] in
    let placed = run-placeholder now p l sends in
    ap (λ q. steps (on_exec iso i l reply q.0) polls) ran
    ∙ ap (λ q. steps q polls)
        (on_exec-asked now p (trim p.cmd) reply.job_id i iso l reply placed refl reached new)
    ∙ polls_unfinished now p (trim p.cmd) reply.job_id i rs none last fresh unfinished over

-- A command that is sent, reaches a device, and is polled until all its results are done: the page
-- has listed it behind the commands before, under the identifier that the server gave it, with the
-- last results and no longer running; nothing is running at all and nothing polls it, and the
-- directory is the one that the last result names. The identifiers are new in the history.
pub course_completes :
    (now : ℕ) (p : Page) (iso : Text) (i : ℕ) (l : Launch) (reply : ExecReply)
    (rs : List ExecJobResult) (last : ExecJobResult)
    → (run now p).1 ≡ some l
    → reply.sent ≢ 0
    → any (has_job_id (placeholder_id now)) p.history ≡ false
    → any (has_job_id reply.job_id) p.history ≡ false
    → All (λ r. all_done r ≡ false) rs
    → all_done last ≡ true
    → let q = steps p (course now iso i l reply rs last) in
      (q.history ≡ p.history ++ entry_of now p (trim p.cmd) reply.job_id (some last) false ∷ [])
      × (any_running q ≡ false)
      × (lookup reply.job_id q.polls ≡ none)
      × (q.current_dir ≡ dir_after (get_last? last.results) p.current_dir)
unfolding any_running launched
course_completes now p iso i l reply rs last sends reached new fresh unfinished over =
    let id = reply.job_id in
    let idle = (run_needs now p l sends).1 in
    rw (course_ends now p iso i l reply rs last sends reached new fresh unfinished over) (
      refl,
      any-append is_running p.history _ ∙ rw idle refl,
      lookup-erase id id (insert id i p.polls) ∙ rw (text_eq_refl id) refl,
      refl,
    )
