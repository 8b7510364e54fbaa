-- ===== src/Tests/Shell.antt =====
-- Sessions at concrete inputs.
use rustdesk_plus.Api.Http.{
  Call, Response, authorization, build, get, ok, tenant_header, unreadable,
}
use rustdesk_plus.Api.Session.{
  Browser, get_active_tenant_id, get_stored_user, get_token, is_super_admin, set_active_tenant,
  set_active_tenant_id,
}
use rustdesk_plus.Api.Types.{Tenant, User, super_admin}
use rustdesk_plus.Common.{All, List, [], arith, false, none, refl, some, true, ◌∷◌, ◌≡◌}
use rustdesk_plus.Common.Dict.{lookup}
use rustdesk_plus.Common.Text.{Text, starts_with, text, text_eq}
use rustdesk_plus.Shell.Guard.{
  Layout, admitted, enter_tenant, free_pages, guard, is_free, is_super, is_under, on_path,
  to_tenants,
}
use rustdesk_plus.Shell.Login.{LoginPage, LoginReply}
use rustdesk_plus.Shell.Menu.{visible_nav_items}
use rustdesk_plus.Shell.Offered.{visible_nav_items-admitted}
use rustdesk_plus.Shell.Sessions.{
  SessionEvent, all_promised, enters_tenant, logs_in, logs_out, may_see, replied, session_steps,
  session_steps-refines, view,
}

abbrev server : Text
server = text "http://plus:3001"

abbrev boss : User
boss = record {
  id = text "u1";
  email = text "root@trivio.com.br";
  name = text "Root";
  role = super_admin;
  tenant_id = none;
  created_at = [];
}

abbrev signed_in : Browser
signed_in = record {
  window = true;
  token = some (text "jwt");
  user = some boss;
  tenant_id = none;
  tenant_name = none;
  location = [];
}

abbrev client : Tenant
client = record {
  id = text "t1";
  name = text "Trivio";
  slug = text "trivio";
  created_at = [];
  device_count = none;
  online_count = none;
  user_count = none;
}

abbrev list_call : Call
list_call = record { method = get; path = text "/admin/tags"; body = none }

sent_away : guard signed_in (text "/devices") ≡ to_tenants
unfolding guard is_free free_pages is_under text_eq starts_with get_token get_stored_user
    get_active_tenant_id is_super_admin
sent_away = refl

abbrev before : Layout
before = record { ready = false; agent_enabled = false; active_tenant_name = some (text "Trivio") }

visible_nav_items-admitted_example :
    let drawn = on_path signed_in (text "/dashboard") before in
    All
      (λ href. guard signed_in href ≡ admitted)
      (visible_nav_items drawn.agent_enabled
        (is_super (get_stored_user signed_in))
        drawn.active_tenant_name)
visible_nav_items-admitted_example =
    visible_nav_items-admitted signed_in (text "/dashboard") before refl refl (λ e. ground arith)

abbrev answer : LoginReply
answer = record { token = text "jwt"; user = boss }

abbrev blank_login : LoginPage
blank_login = record {
  status = none;
  email = [];
  password = [];
  name = [];
  tenant_name = [];
  server_ip = [];
  api_url = [];
  error = none;
  loading = true;
}

abbrev day : List SessionEvent
day = logs_out ∷ logs_in answer blank_login ∷ enters_tenant client ∷ []

session_steps-refines_example :
    let after = session_steps signed_in day in
    let s = all_promised (view signed_in) day in
    let headers = (build server after list_call).headers in
    (guard after (text "/devices") ≡ may_see s (text "/devices"))
    × (get_stored_user after ≡ some boss)
    × (lookup authorization headers ≡ some (text "Bearer jwt"))
    × (lookup tenant_header headers ≡ some (text "t1"))
session_steps-refines_example =
    session_steps-refines server signed_in day (text "/devices") list_call refl

-- The tenant of the first user is still there for the second one.
abbrev lost : Response (Unit {0})
lost = record { status = 401; status_text = []; value = ok tt; error_body = unreadable }

left_tenant :
    all_promised
      (view (enter_tenant client signed_in))
      (replied lost ∷ logs_in (record answer { token = text "jwt2" }) blank_login ∷ [])
    ≡ record { signed = some (text "jwt2"); account = some boss; tenant = some (text "t1") }
unfolding enter_tenant set_active_tenant set_active_tenant_id
left_tenant = refl
