-- ===== src/Shell/Guard.antt =====
-- `ProtectedLayout` (layout.tsx): who may see which page, and leaving.
use rustdesk_plus.Api.Session.{
  Browser, get_active_tenant_id, get_active_tenant_name, get_stored_user, get_token, is_super_admin,
  set_active_tenant, set_stored_user, set_token,
}
use rustdesk_plus.Api.Types.{Tenant, User}
use rustdesk_plus.Common.{
  Bool, List, Option, [], any, false, if◌then◌else◌, none, not, some, true, ◌&&◌, ◌++◌, ◌||◌, ◌∷◌,
}
use rustdesk_plus.Common.Text.{Text, starts_with, text, text_eq, truthy}

pub data Verdict : Type 0 where
  to_login to_tenants admitted : Verdict

unfoldable pub free_pages : List Text
free_pages = text "/tenants" ∷ text "/dashboard" ∷ text "/terminal" ∷ text "/settings" ∷ []

-- Where `Home` of app/page.tsx leads.
unfoldable pub home_page : Text
home_page = text "/dashboard"

-- `pathname === p || pathname.startsWith(p + "/")`
unfoldable pub is_under : Text → Text → Bool
unfolding text_eq starts_with
is_under path p = text_eq path p || starts_with (p ++ text "/") path

unfoldable pub is_free : Text → Bool
unfolding free_pages is_under
is_free path = any (is_under path) free_pages

abbrev pub is_super : Option User → Bool
is_super none = false
is_super (some u) = is_super_admin u

abbrev pub verdict : Bool → Bool → Bool → Bool → Verdict
verdict signed super chosen free =
    if not signed
    then to_login
    else if super && not chosen && not free
    then to_tenants
    else admitted

-- The verdict of the effect on the path: which redirect it starts, if any.
unfoldable pub guard : Browser → Text → Verdict
unfolding get_token get_stored_user get_active_tenant_id
guard b path =
    verdict (truthy (get_token b)) (is_super (get_stored_user b)) (truthy (get_active_tenant_id b))
      (is_free path)

-- The hooks of the layout. `ready` is never taken back: once a page was admitted, one that is not is
-- drawn until the redirect has come.
pub record Layout : Type 0 where
  pub ready : Bool
  pub agent_enabled : Bool
  pub active_tenant_name : Option Text

-- What the two effects on the path leave; the second one reads the name in every case.
unfoldable pub on_path : Browser → Text → Layout → Layout
unfolding guard get_active_tenant_name
on_path b path l = elim (guard b path) [
  | admitted ↦ record l { ready = true; active_tenant_name = get_active_tenant_name b }
  | _ ↦ record l { active_tenant_name = get_active_tenant_name b }
]

unfoldable pub logout : Browser → Browser
unfolding set_token set_stored_user set_active_tenant
logout b = set_active_tenant none none (set_stored_user none (set_token none b))

-- `exitTenant`: the browser and the layout after it.
unfoldable pub exit_tenant : Browser → Layout → Browser × Layout
unfolding set_active_tenant
exit_tenant b l = (set_active_tenant none none b, record l { active_tenant_name = none })

-- `enterTenant` of the pages of the tenants and of the dashboard.
unfoldable pub enter_tenant : Tenant → Browser → Browser
unfolding set_active_tenant
enter_tenant t b = set_active_tenant (some t.id) (some t.name) b
