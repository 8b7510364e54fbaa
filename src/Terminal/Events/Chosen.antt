-- ===== src/Terminal/Events/Chosen.antt =====
-- The tenant that the terminal shows, and the one in whose name its commands go.
use mathlib.Core.Option.{some-injective}
use rustdesk_plus.Api.DeviceCalls.{exec_command}
use rustdesk_plus.Api.Http.{
  Reply, answered, build, drop_session, receive, tenant_header, unreachable,
}
use rustdesk_plus.Api.Session.{
  Browser, get_active_tenant_id, set_active_tenant, set_active_tenant_id, set_token,
}
use rustdesk_plus.Api.SessionLaws.{build-headers, given}
use rustdesk_plus.Api.Types.{Tenant}
use rustdesk_plus.Common.{
  Bool, Bool-cases, List, Option, [], ap, arith, false, find?, inl, inr, is_empty, is_some, map,
  none, refl, some, sym, true, ℕ, ◌∙◌, ◌∷◌, ◌≡◌, ◌⊎◌,
}
use rustdesk_plus.Common.Dict.{lookup}
use rustdesk_plus.Common.Text.{Text, includes, or_text}
use rustdesk_plus.Common.Text.Equality.{text_eq→eq}
use rustdesk_plus.Terminal.Events.{
  Event, enter, exec_answered, poll_answered, step, tenant_picked, time_up,
}
use rustdesk_plus.Terminal.Events.Launches.{run_needs}
use rustdesk_plus.Terminal.Keys.{newer, older, type_cmd}
use rustdesk_plus.Terminal.Page.{Page, no_tenant_selected}
use rustdesk_plus.Terminal.Poll.{on_poll, on_timeout}
use rustdesk_plus.Terminal.Run.{
  Launch, clear_history, has_tenant_id, launched, on_exec, on_exec_error, on_tenant_change, run,
  select_tenant,
}
use rustdesk_plus.Terminal.View.Config.{ids, tenant_option, tenant_options}

abbrev is_pick : Event → Bool
is_pick (tenant_picked id b) = true
is_pick e = false

-- The page and the session of its browser, from `p` and `b` on: a tenant of the list is picked,
-- which is written to the session, anything else happens on the page, or a reply to any call
-- arrives, which may end the session.
pub data Follows (p : Page) (b : Browser) : Page → Browser → Type 1 where
  stays : Follows p b p b
  picks :
      {q : Page} {c : Browser}
      → Follows p b q c
      → (id : Text) (os : List (Text × Text)) → tenant_options q ≡ some os
      → includes id (ids os) ≡ true
      → Follows p b (on_tenant_change id q c).0 (on_tenant_change id q c).1
  goes :
      {q : Page} {c : Browser}
      → Follows p b q c
      → (e : Event) → is_pick e ≡ false
      → Follows p b (step q e) c
  hears :
      {q : Page} {c : Browser}
      → Follows p b q c
      → {T : Type 0} (r : Reply T) → Follows p b q (receive c r).0

-- The tenant of the session is the one that is selected, and both are missing together.
abbrev pub Agrees : Page → Browser → Type 0
Agrees p b = (b.window ≡ true) × (or_text b.tenant_id [] ≡ p.selected_tenant_id)

step-selected :
    (p : Page) (e : Event)
    → is_pick e ≡ false
    → (step p e).selected_tenant_id ≡ p.selected_tenant_id
unfolding step type_cmd older newer clear_history run on_exec on_exec_error on_poll on_timeout
    launched
step-selected p (tenant_picked id b) h = cc
step-selected p (enter now) h = ground arith
step-selected p (exec_answered iso i l r) h = ground arith
step-selected p (poll_answered id r) h = ground arith
step-selected p (time_up id) h = ground arith
step-selected p _ h = refl

receive-tenant :
    {T : Type 0} (b : Browser) (r : Reply T)
    → ((receive b r).0.window ≡ b.window) × ((receive b r).0.tenant_id ≡ b.tenant_id)
unfolding receive drop_session set_token
receive-tenant b (unreachable why) = (refl, refl)
receive-tenant b (answered res) = (ground arith, ground arith)

listed_tenant :
    (id : Text) (ts : List Tenant)
    → includes id (ids (map tenant_option ts)) ≡ true
    → is_some (find? (has_tenant_id id) ts) ≡ true
unfolding includes tenant_option
listed_tenant id [] h = h
listed_tenant id (t ∷ ts) h = ground (arith, listed_tenant id ts)

select_tenant-Agrees :
    (id : Text) (t : Option Tenant) (b : Browser)
    → b.window ≡ true
    → (is_some t ≡ true) ⊎ (id ≡ [])
    → ((select_tenant id t b).window ≡ true) × (or_text (select_tenant id t b).tenant_id [] ≡ id)
unfolding set_active_tenant set_active_tenant_id
select_tenant-Agrees id none b w h = rw w (ground arith)
select_tenant-Agrees [] (some t) b w h = rw w (refl, refl)
select_tenant-Agrees (c ∷ id) (some t) b w h = rw w (refl, refl)

offered_tenant :
    (p : Page) (id : Text) (os : List (Text × Text))
    → tenant_options p ≡ some os
    → includes id (ids os) ≡ true
    → (is_some (find? (has_tenant_id id) p.tenants) ≡ true) ⊎ (id ≡ [])
unfolding tenant_options includes
offered_tenant p id os e h = elim (Bool-cases p.super_admin) [
  | inl super ↦
      let listed = some-injective _ _ (rw super at e) in
      ground (arith, rw (sym listed) at h, listed_tenant id p.tenants, text_eq→eq [] id)
  | inr regular ↦ let missing = rw regular at e in absurd (ground arith)
]

pick-Agrees :
    (p : Page) (b : Browser) (id : Text) (os : List (Text × Text))
    → tenant_options p ≡ some os
    → includes id (ids os) ≡ true
    → b.window ≡ true
    → Agrees (on_tenant_change id p b).0 (on_tenant_change id p b).1
unfolding on_tenant_change
pick-Agrees p b id os e h w =
    select_tenant-Agrees id (find? (has_tenant_id id) p.tenants) b w (offered_tenant p id os e h)

Follows-Agrees :
    {p : Page} {b : Browser} {q : Page} {c : Browser} → Follows p b q c → Agrees p b → Agrees q c
Follows-Agrees stays a = a
Follows-Agrees (picks f id os e h) a = pick-Agrees _ _ id os e h (Follows-Agrees f a).0
Follows-Agrees (goes {q} {c} f e n) a = rw (step-selected q e n) (Follows-Agrees f a)
Follows-Agrees (hears {q} {c} f r) a =
    let (window, tenant) = receive-tenant c r in rw (window, tenant) (Follows-Agrees f a)

given_selected :
    (i : Option Text) (s : Text) → or_text i [] ≡ s → is_empty s ≡ false → given i ≡ some s
given_selected none s e n = ground arith
given_selected (some []) s e n = ground arith
given_selected (some (c ∷ i)) s e n = ap some e

-- A command that a super administrator sends in a browser goes out in the name of the tenant that
-- the page shows as selected, whichever tenants of the list were picked and whatever was entered
-- and answered before, if the page opened with the tenant of the session.
pub Follows-tenant :
    {p : Page} {b : Browser} {q : Page} {c : Browser} (api_url : Text) (now : ℕ) (l : Launch)
    → b.window ≡ true
    → p.selected_tenant_id ≡ or_text (get_active_tenant_id b) []
    → Follows p b q c
    → q.super_admin ≡ true
    → (run now q).1 ≡ some l
    → lookup tenant_header (build api_url c (exec_command l.body)).headers
      ≡ some q.selected_tenant_id
unfolding get_active_tenant_id no_tenant_selected
Follows-tenant {b} {q} {c} api_url now l w opens f super sends =
    let (window, agrees) = Follows-Agrees f (w, ground arith) in
    let ready = run_needs now q l sends in
    let chosen = ready.2 in
    (build-headers api_url c (exec_command l.body)).2
    ∙ rw window (given_selected c.tenant_id q.selected_tenant_id agrees (ground arith))
