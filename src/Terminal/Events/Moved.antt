-- ===== src/Terminal/Events/Moved.antt =====
-- An answer to a launch of the terminal that comes after another tenant was picked.
use rustdesk_plus.Api.DeviceCalls.{get_exec_results}
use rustdesk_plus.Api.Http.{build, tenant_header}
use rustdesk_plus.Api.Session.{
  Browser, get_active_tenant_id, set_active_tenant, set_active_tenant_id,
}
use rustdesk_plus.Api.SessionLaws.{build-headers, given}
use rustdesk_plus.Api.Types.{ExecReply, Tenant}
use rustdesk_plus.Common.{[], arith, false, find?, refl, some, true, ℕ, ◌==◌, ◌∙◌, ◌∷◌, ◌≡◌, ◌≢◌}
use rustdesk_plus.Common.Dict.{lookup, lookup-insert}
use rustdesk_plus.Common.Text.{Text}
use rustdesk_plus.Common.Text.Equality.{text_eq_refl}
use rustdesk_plus.Terminal.Page.{Page, update_entries}
use rustdesk_plus.Terminal.Run.{Launch, has_tenant_id, on_exec, on_tenant_change, select_tenant}

-- The session after a tenant of the list with an id is picked.
picked_session :
    (id : Text) (t : Tenant) (b : Browser)
    → b.window ≡ true
    → id ≢ []
    → given (get_active_tenant_id (select_tenant id (some t) b)) ≡ some id
unfolding get_active_tenant_id set_active_tenant set_active_tenant_id
picked_session [] t b w n = absurd (n refl)
picked_session (c ∷ id) t b w n = rw w refl

sent_nonzero : (n : ℕ) → n ≢ 0 → (n == 0) ≡ false
sent_nonzero n h = ground arith

-- A tenant of the list, with an id, is picked in a browser while a launch waits for its answer: once
-- the answer comes and says that the command was sent, nothing of it is listed, but its results are
-- polled all the same, and the request for them names the tenant that was picked, whichever tenant
-- the command was sent for.
pub on_exec-after_pick :
    (api_url : Text) (p : Page) (b : Browser) (id : Text) (t : Tenant) (iso : Text) (i : ℕ)
    (l : Launch) (r : ExecReply)
    → b.window ≡ true
    → id ≢ []
    → find? (has_tenant_id id) p.tenants ≡ some t
    → r.sent ≢ 0
    → let (q, c) = on_tenant_change id p b in
      let late = on_exec iso i l r q in
      (late.history ≡ [])
      × (lookup r.job_id late.polls ≡ some i)
      × (lookup tenant_header (build api_url c (get_exec_results r.job_id)).headers ≡ some id)
unfolding on_tenant_change on_exec update_entries
on_exec-after_pick api_url p b id t iso i l r w chosen listed reached =
    rw (listed, sent_nonzero r.sent reached)
      (
        refl,
        rw (lookup-insert, text_eq_refl r.job_id),
        (build-headers api_url (select_tenant id (some t) b) (get_exec_results r.job_id)).2
            ∙ picked_session id t b w chosen,
      )
