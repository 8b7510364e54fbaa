-- ===== src/Tests/TerminalTenant.antt =====
-- A tenant picked on the terminal page, and a command sent for it.
use rustdesk_plus.Api.DeviceCalls.{exec_command, get_exec_results}
use rustdesk_plus.Api.Http.{build, tenant_header}
use rustdesk_plus.Api.Session.{Browser, get_active_tenant_id}
use rustdesk_plus.Api.Types.{ExecReply, Tenant}
use rustdesk_plus.Common.{List, [], arith, find?, none, refl, some, true, ◌∷◌, ◌≡◌}
use rustdesk_plus.Common.Dict.{lookup}
use rustdesk_plus.Common.Text.{
  Text, decimal, digits_before, includes, is_space, keep, lower_unit, text, text_eq, to_lower, trim,
  trim_end, trim_start,
}
use rustdesk_plus.Terminal.Events.Chosen.{Follows-tenant, picks, stays}
use rustdesk_plus.Terminal.Events.Moved.{on_exec-after_pick}
use rustdesk_plus.Terminal.Page.{Page, any_running, no_tenant_selected}
use rustdesk_plus.Terminal.Run.{has_tenant_id, is_clear, launch_of, on_exec, on_tenant_change, run}
use rustdesk_plus.Terminal.View.Config.{ids, tenant_option, tenant_options}
use rustdesk_plus.Tests.Terminal.{fresh}

abbrev shop : Tenant
shop = record {
  id = text "t1";
  name = text "Loja";
  slug = text "loja";
  created_at = [];
  device_count = none;
  online_count = some 2;
  user_count = none;
}

abbrev visitor : Browser
visitor = record {
  window = true;
  token = some (text "k");
  user = none;
  tenant_id = none;
  tenant_name = none;
  location = [];
}

abbrev opened_page : Page
opened_page = record fresh { super_admin = true; tenants = shop ∷ [] }

abbrev picked : Page × Browser
picked = on_tenant_change (text "t1") opened_page visitor

abbrev shop_options : List (Text × Text)
shop_options = ([], text "— Selecione —") ∷ (text "t1", text "Loja (2 online)") ∷ []

offers_shop : tenant_options opened_page ≡ some shop_options
unfolding tenant_options tenant_option decimal digits_before
offers_shop = refl

lists_shop : includes (text "t1") (ids shop_options) ≡ true
unfolding includes text_eq
lists_shop = refl

sends_for_shop : (run 7 picked.0).1 ≡ some (launch_of 7 picked.0 (text "dir"))
unfolding on_tenant_change run trim trim_start trim_end keep is_space any_running no_tenant_selected
    is_clear text_eq to_lower lower_unit
sends_for_shop = refl

Follows-tenant_example :
    lookup tenant_header
      (build (text "/api") picked.1 (exec_command (launch_of 7 picked.0 (text "dir")).body)).headers
    ≡ some picked.0.selected_tenant_id
unfolding get_active_tenant_id on_tenant_change
Follows-tenant_example =
    Follows-tenant {p = opened_page} {b = visitor} {q = picked.0} {c = picked.1} (text "/api") 7
      (launch_of 7 picked.0 (text "dir")) refl refl
      (picks stays (text "t1") shop_options offers_shop lists_shop) refl sends_for_shop

abbrev two_asked : ExecReply
two_asked = record { job_id = text "j1"; targets = 1; sent = 1 }

has_shop : find? (has_tenant_id (text "t1")) opened_page.tenants ≡ some shop
unfolding text_eq
has_shop = refl

on_exec-after_pick_example :
    let (q, c) = on_tenant_change (text "t1") opened_page visitor in
    let late = on_exec [] 3 (launch_of 7 fresh (text "dir")) two_asked q in
    (late.history ≡ [])
    × (lookup (text "j1") late.polls ≡ some 3)
    × (lookup tenant_header (build (text "/api") c (get_exec_results (text "j1"))).headers
        ≡ some (text "t1"))
on_exec-after_pick_example =
    on_exec-after_pick (text "/api") opened_page visitor (text "t1") shop [] 3
      (launch_of 7 fresh (text "dir")) two_asked refl (λ e. ground arith) has_shop
      (λ e. ground arith)
