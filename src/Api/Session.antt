-- ===== src/Api/Session.antt =====
-- The session that the browser keeps (api.ts, auth.ts). The storage has one field for each key
-- that the code uses; `user` holds what `JSON.parse` makes of the stored text, which
-- `JSON.stringify` wrote. `window` is false while a page is rendered on the server.
use rustdesk_plus.Api.Types.{Role, User, super_admin}
use rustdesk_plus.Common.{Bool, Option, false, if◌then◌else◌, none, true, ◌&&◌}
use rustdesk_plus.Common.Text.{Text, truthy}

pub record Browser : Type 0 where
  pub window : Bool
  pub token : Option Text  -- localStorage "token"
  pub user : Option User  -- localStorage "user"
  pub tenant_id : Option Text  -- sessionStorage "activeTenantId"
  pub tenant_name : Option Text  -- sessionStorage "activeTenantName"
  pub location : Text  -- window.location, as far as the code sets it

-- The value that a setter leaves under its key: `if (value) setItem(value) else removeItem()`.
abbrev pub stored : Option Text → Option Text
stored v = if truthy v then v else none

unfoldable pub get_token : Browser → Option Text
get_token b = if b.window then b.token else none

unfoldable pub set_token : Option Text → Browser → Browser
set_token t b = if b.window then record b { token = stored t } else b

unfoldable pub get_active_tenant_id : Browser → Option Text
get_active_tenant_id b = if b.window then b.tenant_id else none

unfoldable pub set_active_tenant_id : Option Text → Browser → Browser
set_active_tenant_id i b = if b.window then record b { tenant_id = stored i } else b

unfoldable pub get_active_tenant_name : Browser → Option Text
get_active_tenant_name b = if b.window then b.tenant_name else none

unfoldable pub set_active_tenant : Option Text → Option Text → Browser → Browser
unfolding set_active_tenant_id
set_active_tenant i name b =
    let c = set_active_tenant_id i b in
    if c.window
    then record c { tenant_name = if truthy i && truthy name then name else none }
    else c

unfoldable pub get_stored_user : Browser → Option User
get_stored_user b = if b.window then b.user else none

unfoldable pub set_stored_user : Option User → Browser → Browser
set_stored_user u b = if b.window then record b { user = u } else b

abbrev pub is_super_admin_role : Role → Bool
is_super_admin_role super_admin = true
is_super_admin_role r = false

unfoldable pub is_super_admin : User → Bool
is_super_admin u = is_super_admin_role u.role
