-- ===== src/Admin/Overview/Links.antt =====
-- The two links on the card of a tenant (dashboard/page.tsx), by which a super administrator enters
-- it: `enterTenant`, and the link to the terminal.
use rustdesk_plus.Admin.Overview.{shows_tenants}
use rustdesk_plus.Api.Http.{Call, build, tenant_header}
use rustdesk_plus.Api.Session.{Browser, get_active_tenant_id, get_stored_user}
use rustdesk_plus.Api.Types.{Tenant}
use rustdesk_plus.Common.{Option-cases, [], arith, false, inl, inr, refl, some, true, ◌≡◌, ◌≢◌}
use rustdesk_plus.Common.Dict.{lookup}
use rustdesk_plus.Common.Text.{Text, text, truthy}
use rustdesk_plus.Shell.Access.{enter_tenant_given, enter_tenant_lem, id_given}
use rustdesk_plus.Shell.Guard.{admitted, enter_tenant, guard}

pub data BoardLink : Type 0 where
  see_devices open_terminal : BoardLink

abbrev link_page : BoardLink → Text
link_page see_devices = text "/devices"
link_page open_terminal = text "/terminal"

-- The browser after the click, and the page that is opened.
unfoldable pub follow_link : BoardLink → Tenant → Browser → Browser × Text
unfolding enter_tenant
follow_link link t b = (enter_tenant t b, link_page link)

not_overview :
    (t : Tenant) (b : Browser)
    → b.window ≡ true
    → t.id ≢ []
    → shows_tenants (enter_tenant t b) ≡ false
unfolding shows_tenants get_active_tenant_id get_stored_user
not_overview t b w n =
    let chosen = id_given t.id n in
    elim (Option-cases b.user) [
      | inl nobody ↦ rw (enter_tenant_given t b w n, w, nobody) refl
      | inr (u, user) ↦ rw (enter_tenant_given t b w n, w, user, chosen) (ground arith)
    ]

-- Whoever follows a link of a tenant with an id, in a browser with a token, is admitted to the page
-- of the link; each call that goes through `request` from there names the tenant; and the overview
-- of all tenants is not shown any more, whoever the user is.
pub follow_link_lem :
    (api_url : Text) (link : BoardLink) (t : Tenant) (b : Browser) (c : Call)
    → b.window ≡ true
    → truthy b.token ≡ true
    → t.id ≢ []
    → let (after, path) = follow_link link t b in
      (guard after path ≡ admitted)
      × (lookup tenant_header (build api_url after c).headers ≡ some t.id)
      × (shows_tenants after ≡ false)
unfolding follow_link
follow_link_lem api_url link t b c w signed chosen =
    let (shown, named) = enter_tenant_lem api_url b t (link_page link) c w signed chosen in
    (shown, named, not_overview t b w chosen)
