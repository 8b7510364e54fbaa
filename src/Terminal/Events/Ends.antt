-- ===== src/Terminal/Events/Ends.antt =====
-- How the running commands of the terminal end, and when one does not.
use rustdesk_plus.Api.Types.{ExecJobResult}
use rustdesk_plus.Common.{
  All, List, [], arith, false, inl, inr, is_some, none, refl, some, true, ℕ, ◌∷◌, ◌≡◌, ◌⊎◌,
}
use rustdesk_plus.Common.Dict.{erase, lookup, lookup-erase}
use rustdesk_plus.Common.Text.{Text, text_eq, trim}
use rustdesk_plus.Common.Text.Equality.{text_eq_refl}
use rustdesk_plus.Terminal.Events.{
  Event, enter, exec_answered, exec_failed, limpar, poll_answered, step, tenant_picked, time_up,
}
use rustdesk_plus.Terminal.Events.Launches.{run_needs, run_of_IsReady}
use rustdesk_plus.Terminal.Events.Tracking.{
  All-update_entries, IsTracked, Timely, World, answered, failed, is_quiet, launched-IsTracked,
  on_exec-IsTracked, on_exec_error-IsTracked, on_poll-IsTracked, on_timeout-IsTracked, other,
  polled, refused, sent, timed_out,
}
use rustdesk_plus.Terminal.Keys.{newer, older, type_cmd}
use rustdesk_plus.Terminal.Page.{HistoryEntry, Page, update_entries}
use rustdesk_plus.Terminal.Poll.{all_done, on_poll, on_timeout}
use rustdesk_plus.Terminal.Run.{
  Launch, clear_history, launch_of, launched, on_tenant_change, placeholder_id, run,
}

pub run_refused :
    (now : ℕ) (p : Page)
    → (run now p).1 ≡ none
    → ((run now p).0.polls ≡ p.polls)
      × (((run now p).0.history ≡ p.history) ⊎ ((run now p).0.history ≡ []))
unfolding run
run_refused now p h = ground arith

pub run-placeholder :
    (now : ℕ) (p : Page) (l : Launch) → (run now p).1 ≡ some l → l.placeholder ≡ placeholder_id now
unfolding run launch_of
run-placeholder now p l e = ground arith

refused-IsTracked :
    (now : ℕ) (w : World)
    → (run now w.page).1 ≡ none
    → IsTracked w
    → IsTracked (record w { page = (run now w.page).0 })
refused-IsTracked now w e h =
    let (same_polls, history) = run_refused now w.page e in
    elim history [ inl same ↦ rw (same_polls, same) h | inr emptied ↦ rw emptied tt ]

sent-IsTracked :
    (now : ℕ) (l : Launch) (w : World)
    → (run now w.page).1 ≡ some l
    → IsTracked w
    → IsTracked (record { page = (run now w.page).0; pending = l.placeholder ∷ w.pending })
unfolding launched launch_of
sent-IsTracked now l w e h =
    let sends = run_of_IsReady now w.page (run_needs now w.page l e) in
    let ph = run-placeholder now w.page l e in
    rw (sends, ph) (launched-IsTracked now w.page (trim w.page.cmd) w.pending h)

other-IsTracked :
    (e : Event) (w : World)
    → is_quiet e ≡ true
    → IsTracked w
    → IsTracked (record w { page = step w.page e })
unfolding step type_cmd older newer clear_history on_tenant_change
other-IsTracked (enter now) w q h = cc
other-IsTracked (exec_answered iso i l r) w q h = cc
other-IsTracked (exec_failed iso l m) w q h = cc
other-IsTracked (poll_answered id r) w q h = cc
other-IsTracked (time_up id) w q h = cc
other-IsTracked (tenant_picked id b) w q h = tt
other-IsTracked limpar w q h = tt
other-IsTracked _ w q h = h

Timely-IsTracked : {w v : World} → Timely w v → IsTracked w → IsTracked v
Timely-IsTracked {w} (sent now l e) h = sent-IsTracked now l w e h
Timely-IsTracked {w} (refused now e) h = refused-IsTracked now w e h
Timely-IsTracked {w} (answered iso i l r) h = on_exec-IsTracked iso i l r w.page w.pending h
Timely-IsTracked {w} (failed iso l m) h = on_exec_error-IsTracked iso l m w.page w.pending h
Timely-IsTracked {w} (polled id r alive) h = on_poll-IsTracked id r w.page w.pending alive h
Timely-IsTracked {w} (timed_out id) h = on_timeout-IsTracked id w.page w.pending h
Timely-IsTracked {w} (other e q) h = other-IsTracked e w q h

pub data Reach (w : World) : World → Type 0 where
  here : Reach w w
  next : {u v : World} → Reach w u → Timely u v → Reach w v

-- While the replies of polls come in time, each running entry of the history waits for the answer
-- to its launch or has a living poll, if it is so at first.
pub Reach-IsTracked : {w v : World} → IsTracked w → Reach w v → IsTracked v
Reach-IsTracked h here = h
Reach-IsTracked h (next r t) = Timely-IsTracked t (Reach-IsTracked h r)

abbrev pub IsStopped : Text → Page → Type 0
IsStopped id p =
    All (λ e. text_eq e.job_id id ≡ true → e.running ≡ false) p.history × (lookup id p.polls ≡ none)

All-true :
    (P : HistoryEntry → Type 0) → ((e : HistoryEntry) → P e) → (es : List HistoryEntry) → All P es
All-true P g [] = tt
All-true P g (e ∷ es) = (g e, All-true P g es)

stopped_entries :
    (id : Text) (f : HistoryEntry → HistoryEntry)
    → ((e : HistoryEntry) → (f e).running ≡ false)
    → (es : List HistoryEntry)
    → All (λ e. text_eq e.job_id id ≡ true → e.running ≡ false) (update_entries id f es)
stopped_entries id f stops es =
    All-update_entries {P = λ e. Unit {0}} id f (λ e _ _ _. stops e) (λ e n _ y. cc) es
      (All-true _ (λ e. tt) es)

erased : (id : Text) (polls : List (Text × ℕ)) → lookup id (erase id polls) ≡ none
erased id polls = rw (lookup-erase id id polls, text_eq_refl id)

-- When the time of a polled job is up, no entry of the job runs any more and its poll is gone.
pub time_up_stops :
    (id : Text) (p : Page) → is_some (lookup id p.polls) ≡ true → IsStopped id (on_timeout id p)
unfolding on_timeout
time_up_stops id p alive = rw alive (stopped_entries id _ (λ e. refl) p.history, erased id p.polls)

-- After a reply that says that all results of a job are done, no entry of the job runs any more
-- and its poll is gone.
pub done_stops :
    (id : Text) (r : ExecJobResult) (p : Page) → all_done r ≡ true → IsStopped id (on_poll id r p)
unfolding on_poll
done_stops id r p finished =
    rw finished (stopped_entries id _ (λ e. refl) p.history, erased id p.polls)
