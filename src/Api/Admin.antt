-- ===== src/Api/Admin.antt =====
-- The calls of api.ts for the session, tenants, branches, users, tags, the configuration and the
-- branded client.
use mathlib.Core.Option
use rustdesk_plus.Api.Http.{Call, Json, Method, bool, delete, get, null, object, post, str}
use rustdesk_plus.Api.Types.{ServerConfig}
use rustdesk_plus.Common.{Bool, List, Option, [], if◌then◌else◌, none, some, ◌++◌, ◌∷◌}
use rustdesk_plus.Common.Percent.{encode_component}
use rustdesk_plus.Common.Text.{Text, text, truthy}

abbrev pub get_call : Text → Call
get_call path = record { method = get; path = path; body = none }

abbrev pub delete_call : Text → Call
delete_call path = record { method = delete; path = path; body = none }

abbrev pub post_call : Text → Call
post_call path = record { method = post; path = path; body = none }

abbrev pub send_call : Method → Text → List (Text × Option Json) → Call
send_call method path fields = record { method = method; path = path; body = some (object fields) }

abbrev pub field : Text → Text → Text × Option Json
field k v = (k, some (str v))

abbrev pub optional_field : Text → Option Text → Text × Option Json
optional_field k none = (k, none)
optional_field k (some v) = field k v

-- A field that is null where the text is null.
abbrev pub nullable_field : Text → Option Text → Text × Option Json
nullable_field k none = (k, some null)
nullable_field k (some v) = field k v

unfoldable pub login : Text → Text → Call
login email password =
    send_call post (text "/admin/login")
      (field (text "email") email ∷ field (text "password") password ∷ [])

unfoldable pub get_setup_status : Call
get_setup_status = get_call (text "/setup/status")

-- The argument of `completeSetup`
pub record SetupData : Type 0 where
  pub email : Text
  pub password : Text
  pub name : Text
  pub server_ip : Text
  pub api_url : Text
  pub tenant_name : Text

unfoldable pub complete_setup : SetupData → Call
complete_setup d = send_call post (text "/setup") (
    field (text "email") d.email
    ∷ field (text "password") d.password
    ∷ field (text "name") d.name
    ∷ field (text "server_ip") d.server_ip
    ∷ field (text "api_url") d.api_url
    ∷ field (text "tenant_name") d.tenant_name
    ∷ [])

unfoldable pub list_tenants : Call
list_tenants = get_call (text "/super/tenants")

unfoldable pub create_tenant : Text → Text → Call
create_tenant name slug =
    send_call post (text "/super/tenants")
      (field (text "name") name ∷ field (text "slug") slug ∷ [])

unfoldable pub delete_tenant : Text → Call
delete_tenant id = delete_call (text "/super/tenants/" ++ id)

unfoldable pub list_branches : Call
list_branches = get_call (text "/admin/branches")

-- `parent_id || null`
abbrev or_null : Option Text → Option Text
or_null p = if truthy p then p else none

unfoldable pub create_branch : Text → Option Text → Call
create_branch name parent_id =
    send_call post (text "/admin/branches")
      (field (text "name") name ∷ nullable_field (text "parent_id") (or_null parent_id) ∷ [])

unfoldable pub delete_branch : Text → Call
delete_branch id = delete_call (text "/admin/branches/" ++ id)

unfoldable pub list_users : Call
list_users = get_call (text "/admin/users")

unfoldable pub create_user : Text → Text → Text → Text → Call
create_user email password name role = send_call post (text "/admin/users") (
    field (text "email") email
    ∷ field (text "password") password
    ∷ field (text "name") name
    ∷ field (text "role") role
    ∷ [])

unfoldable pub delete_user : Text → Call
delete_user id = delete_call (text "/admin/users/" ++ id)

unfoldable pub reset_user_password : Text → Text → Call
reset_user_password id password =
    send_call post (text "/admin/users/" ++ id ++ text "/password")
      (field (text "password") password ∷ [])

unfoldable pub list_tags : Call
list_tags = get_call (text "/admin/tags")

unfoldable pub create_tag : Text → Text → Call
create_tag name color =
    send_call post (text "/admin/tags") (field (text "name") name ∷ field (text "color") color ∷ [])

unfoldable pub delete_tag : Text → Call
delete_tag id = delete_call (text "/admin/tags/" ++ id)

unfoldable pub get_server_config : Call
get_server_config = get_call (text "/admin/server-config")

abbrev bool_field : Text → Option Bool → Text × Option Json
bool_field k none = (k, none)
bool_field k (some b) = (k, some (bool b))

unfoldable pub save_server_config : ServerConfig → Call
save_server_config c = send_call post (text "/admin/server-config") (
    field (text "server_ip") c.server_ip
    ∷ field (text "server_key") c.server_key
    ∷ field (text "api_url") c.api_url
    ∷ field (text "rustdesk_password") c.rustdesk_password
    ∷ field (text "install_code") c.install_code
    ∷ bool_field (text "agent_enabled") c.agent_enabled
    ∷ [])

-- The argument of `saveBranding`
pub record BrandingData : Type 0 where
  pub app_name : Text
  pub file_name : Text
  pub comp_name : Option Text
  pub url_link : Option Text
  pub custom_config : Option Text
  pub rustdesk_ref : Option Text

unfoldable pub get_branding : Call
get_branding = get_call (text "/admin/branding")

unfoldable pub save_branding : BrandingData → Call
save_branding d = send_call post (text "/admin/branding") (
    field (text "app_name") d.app_name
    ∷ field (text "file_name") d.file_name
    ∷ optional_field (text "comp_name") d.comp_name
    ∷ optional_field (text "url_link") d.url_link
    ∷ optional_field (text "custom_config") d.custom_config
    ∷ optional_field (text "rustdesk_ref") d.rustdesk_ref
    ∷ [])

unfoldable pub trigger_branding_build : Call
trigger_branding_build = post_call (text "/admin/branding/build")

abbrev version_query : Option Text → Option Text
version_query none = some []
version_query (some []) = some []
version_query (some (c ∷ v)) = Option.map (λ e. text "?v=" ++ e) (encode_component (c ∷ v))

-- `brandingIconUrl`; `none` where the version cannot be encoded.
unfoldable pub branding_icon_url : Text → Text → Option Text → Option Text
unfolding encode_component
branding_icon_url api_url tenant_id version =
    Option.map (λ q. api_url ++ text "/api/branding/" ++ tenant_id ++ text "/icon.png" ++ q)
      (version_query version)
