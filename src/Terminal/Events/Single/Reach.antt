-- ===== src/Terminal/Events/Single/Reach.antt =====
-- At most one command of the terminal runs: every handler keeps it.
use rustdesk_plus.Api.Session.{Browser}
use rustdesk_plus.Common.{[], arith, inl, inr, none, refl, some, true, ℕ, ◌∷◌, ◌≡◌, ◌≤◌, ◌⊎◌}
use rustdesk_plus.Common.Dict.{lookup}
use rustdesk_plus.Common.Text.{Text, includes, trim}
use rustdesk_plus.Terminal.Events.{
  Event, enter, exec_answered, exec_failed, limpar, poll_answered, step, tenant_picked, time_up,
}
use rustdesk_plus.Terminal.Events.Ends.{run-placeholder, run_refused}
use rustdesk_plus.Terminal.Events.Launches.{run_needs, run_of_IsReady}
use rustdesk_plus.Terminal.Events.Single.{
  Distinct, IsFresh, IsSingle, Orderly, at_first, go_on, running_count,
}
use rustdesk_plus.Terminal.Events.Single.Steps.{
  launched-IsSingle, on_exec-IsSingle, on_exec_error-IsSingle, on_poll-IsSingle,
  on_timeout-IsSingle,
}
use rustdesk_plus.Terminal.Events.Tracking.{
  Timely, World, failed, is_quiet, other, polled, refused, sent, timed_out,
}
use rustdesk_plus.Terminal.Keys.{newer, older, type_cmd}
use rustdesk_plus.Terminal.Page.{Page}
use rustdesk_plus.Terminal.Run.{
  Launch, clear_history, launch_of, on_tenant_change, placeholder_id, run,
}

sent-IsSingle :
    (now : ℕ) (l : Launch) (w : World)
    → (run now w.page).1 ≡ some l
    → IsFresh (placeholder_id now) w
    → IsSingle w
    → IsSingle (record { page = (run now w.page).0; pending = l.placeholder ∷ w.pending })
unfolding launch_of
sent-IsSingle now l w e f h =
    let ready = run_needs now w.page l e in
    let sends = run_of_IsReady now w.page ready in
    let ph = run-placeholder now w.page l e in
    rw (sends, ph) (launched-IsSingle now w (trim w.page.cmd) ready.1 f h)

same-IsSingle :
    (p : Page) (w : World)
    → (p.polls ≡ w.page.polls) × (p.history ≡ w.page.history)
    → IsSingle w
    → IsSingle (record w { page = p })
same-IsSingle p w (polls, history) h = record {
  one = rw history h.one;
  active = rw (polls, history) h.active;
  apart = rw polls h.apart;
}

emptied-IsSingle :
    (p : Page) (w : World)
    → ((p.polls ≡ w.page.polls) ⊎ (p.polls ≡ [])) × (p.history ≡ [])
    → IsSingle w
    → IsSingle (record w { page = p })
unfolding lookup
emptied-IsSingle p w (polls, history) h = record {
  one = rw history (omega arith);
  active = rw history tt;
  apart = elim polls [ inl same ↦ rw same h.apart | inr none_left ↦ rw none_left (λ id m. refl) ];
}

refused-IsSingle :
    (now : ℕ) (w : World)
    → (run now w.page).1 ≡ none
    → IsSingle w
    → IsSingle (record w { page = (run now w.page).0 })
refused-IsSingle now w e h =
    let (polls, history) = run_refused now w.page e in
    elim history [
      | inl same ↦ same-IsSingle (run now w.page).0 w (polls, same) h
      | inr emptied ↦ emptied-IsSingle (run now w.page).0 w (inl polls, emptied) h
    ]

polls_of_tenant :
    (id : Text) (p : Page) (b : Browser)
    → ((on_tenant_change id p b).0.polls ≡ p.polls) ⊎ ((on_tenant_change id p b).0.polls ≡ [])
unfolding on_tenant_change
polls_of_tenant id p b = ground arith

other-IsSingle :
    (e : Event) (w : World)
    → is_quiet e ≡ true
    → IsSingle w
    → IsSingle (record w { page = step w.page e })
unfolding step type_cmd older newer clear_history on_tenant_change
other-IsSingle (enter now) w q h = cc
other-IsSingle (exec_answered iso i l r) w q h = cc
other-IsSingle (exec_failed iso l m) w q h = cc
other-IsSingle (poll_answered id r) w q h = cc
other-IsSingle (time_up id) w q h = cc
other-IsSingle (tenant_picked id b) w q h =
    emptied-IsSingle _ w (polls_of_tenant id w.page b, refl) h
other-IsSingle limpar w q h = emptied-IsSingle _ w (inl refl, refl) h
other-IsSingle _ w q h = same-IsSingle _ w (refl, refl) h

Timely-IsSingle : {w v : World} (t : Timely w v) → Distinct t → IsSingle w → IsSingle v
Timely-IsSingle {w} (sent now l e) f h = sent-IsSingle now l w e f h
Timely-IsSingle {w} (refused now e) f h = refused-IsSingle now w e h
Timely-IsSingle {w} (Timely.answered iso i l r) (waits, f) h =
    on_exec-IsSingle iso i l r w waits f h
Timely-IsSingle {w} (failed iso l m) waits h = on_exec_error-IsSingle iso l m w waits h
Timely-IsSingle {w} (polled id r alive) f h = on_poll-IsSingle id r w alive h
Timely-IsSingle {w} (timed_out id) f h = on_timeout-IsSingle id w h
Timely-IsSingle {w} (other e q) f h = other-IsSingle e w q h

Orderly-IsSingle : {w v : World} → IsSingle w → Orderly w v → IsSingle v
Orderly-IsSingle h at_first = h
Orderly-IsSingle h (go_on o t d) = Timely-IsSingle t d (Orderly-IsSingle h o)

-- From a page without history, launches and polls: as long as the replies of polls come in time,
-- each answer belongs to a launch that waits for it, and no identifier is given twice, at most one
-- entry of the history runs.
pub Orderly-one :
    {v : World} (p : Page)
    → p.history ≡ []
    → p.polls ≡ []
    → Orderly (record { page = p; pending = [] }) v
    → running_count v.page ≤ 1
unfolding includes
Orderly-one p fresh unpolled o =
    (Orderly-IsSingle
      (record { one = rw fresh (omega arith); active = rw fresh tt; apart = λ id m. cc }) o).one
