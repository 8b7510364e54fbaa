-- ===== src/Admin/Tenants.antt =====
-- `TenantsPage` (tenants/page.tsx).
pub mod Codes
pub mod Slug
pub mod View
use rustdesk_plus.Api.Admin.{create_tenant, delete_tenant}
use rustdesk_plus.Api.Http.{Call, Result, ok, thrown}
use rustdesk_plus.Api.Types.{ServerConfig, Tenant}
use rustdesk_plus.Common.{
  Bool, List, Option, [], all, all-filter, false, filter, if◌then◌else◌, is_empty, leb, none, not,
  some, true, ℕ, ◌&&◌, ◌==◌, ◌||◌, ◌∷◌, ◌≡◌,
}
use rustdesk_plus.Common.Dict.{insert}
use rustdesk_plus.Common.Text.{Text, is_space, or_else, to_lower, trim}

pub record TenantsPage : Type 0 where
  pub tenants : List Tenant
  pub error : Option Text
  pub creating : Bool
  pub new_name : Text
  pub new_slug : Text
  pub saving : Bool
  pub install_codes : List (Text × Text)
  pub api_url : Text

abbrev pub is_slash : ℕ → Bool
is_slash c = c == 47

-- `s.replace(/\/$/, "")`
unfoldable pub strip_slash : Text → Text
strip_slash [] = []
strip_slash (c ∷ []) = if is_slash c then [] else c ∷ []
strip_slash (c ∷ d ∷ s) = c ∷ strip_slash (d ∷ s)

-- One configuration that has arrived: its code, and its address where none was found before.
unfoldable pub add_config :
    Text → ServerConfig → List (Text × Text) × Text → List (Text × Text) × Text
unfolding insert strip_slash
add_config id cfg (codes, url) = (
  insert id cfg.install_code codes,
  if is_empty url && not (is_empty cfg.api_url) then strip_slash cfg.api_url else url,
)

-- The answers of `getServerConfigForTenant`, in the order of their arrival; a failure is ignored.
unfoldable pub add_configs :
    List (Text × Result ServerConfig) → List (Text × Text) × Text → List (Text × Text) × Text
unfolding add_config
add_configs [] acc = acc
add_configs ((id, ok cfg) ∷ rest) acc = add_configs rest (add_config id cfg acc)
add_configs ((id, thrown why) ∷ rest) acc = add_configs rest acc

-- `load`, with the answer of `listTenants` and the configurations.
unfoldable pub load_tenants :
    Result (List Tenant) → List (Text × Result ServerConfig) → TenantsPage → TenantsPage
unfolding add_configs
load_tenants (ok ts) configs p =
    let (codes, url) = add_configs configs ([], []) in
    record p { tenants = ts; install_codes = codes; api_url = url }
load_tenants (thrown message) configs p = record p { error = some message }

abbrev pub is_slug_char : ℕ → Bool
is_slug_char c = leb b'a' c && leb c b'z' || leb b'0' c && leb c b'9' || c == b'-'

-- `replace(/\s+/g, "-")`, where `within` says that the unit before was white space.
unfoldable pub dash_spaces : Bool → Text → Text
unfolding is_space
dash_spaces within [] = []
dash_spaces within (c ∷ s) =
    let after_space = dash_spaces true s in
    let after_other = dash_spaces false s in
    if is_space c then (if within then after_space else b'-' ∷ after_space) else c ∷ after_other

unfoldable pub slugify : Text → Text
unfolding to_lower dash_spaces
slugify name = filter is_slug_char (dash_spaces false (to_lower name))

-- `onCreate` up to its await.
unfoldable pub on_create_tenant : TenantsPage → TenantsPage × Call
unfolding create_tenant slugify trim
on_create_tenant p = (
  record p { saving = true; error = none },
  create_tenant (trim p.new_name) (or_else (trim p.new_slug) (slugify p.new_name)),
)

-- Its rest; the second part says whether the list is loaded again.
unfoldable pub on_tenant_created : Result Tenant → TenantsPage → TenantsPage × Bool
on_tenant_created (ok t) p =
    (record p { new_name = []; new_slug = []; creating = false; saving = false }, true)
on_tenant_created (thrown message) p = (record p { error = some message; saving = false }, false)

unfoldable pub on_delete_tenant : Bool → Tenant → Option Call
unfolding delete_tenant
on_delete_tenant confirmed t = if confirmed then some (delete_tenant t.id) else none

-- Its rest; the second part says whether the list is loaded again.
unfoldable pub on_tenant_deleted : Result Bool → TenantsPage → TenantsPage × Bool
on_tenant_deleted (ok answer) p = (p, true)
on_tenant_deleted (thrown message) p = (record p { error = some message }, false)

-- A slug that is made of a name has small letters, digits and dashes only.
pub all-slugify : (name : Text) → all is_slug_char (slugify name) ≡ true
unfolding slugify
all-slugify name = all-filter is_slug_char (dash_spaces false (to_lower name))
