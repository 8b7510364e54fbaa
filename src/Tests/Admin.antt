-- ===== src/Tests/Admin.antt =====
-- The administration pages at concrete inputs.
use rustdesk_plus.Admin.Audit.{duration}
use rustdesk_plus.Admin.Branding.{
  BrandingResponse, ClientPage, TenantBranding, building_now, idle_build,
}
use rustdesk_plus.Admin.Overview.{shows_tenants}
use rustdesk_plus.Admin.Overview.Links.{follow_link, follow_link_lem, open_terminal}
use rustdesk_plus.Admin.Settings.{
  is_rest, is_tenant_tail, strip_tenant, tenant_api_url, tenant_api_url-marked,
}
use rustdesk_plus.Admin.Tenants.{dash_spaces, is_slug_char, slugify, strip_slash}
use rustdesk_plus.Admin.Tenants.Slug.{slugify_lem}
use rustdesk_plus.Api.DeviceCalls.{get_stats}
use rustdesk_plus.Api.Http.{build, tenant_header}
use rustdesk_plus.Api.Session.{Browser}
use rustdesk_plus.Api.Types.{ServerConfig, Tenant}
use rustdesk_plus.Common.{[], all, arith, false, none, refl, some, true, ◌↔◌, ◌∷◌, ◌≡◌}
use rustdesk_plus.Common.Dict.{lookup}
use rustdesk_plus.Common.Text.{decimal, digits_before, is_space, lower_unit, text, to_lower}
use rustdesk_plus.Shell.Guard.{admitted, guard}

abbrev config : ServerConfig
config = record {
  server_ip = text "10.0.0.1";
  server_key = text "k";
  api_url = text "https://plus/t/old/";
  rustdesk_password = [];
  install_code = text "c1";
  agent_enabled = none;
}

shown_url : tenant_api_url config (some (text "t1")) ≡ text "https://plus/t/t1"
unfolding tenant_api_url strip_tenant is_tenant_tail is_rest strip_slash
shown_url = refl

slug : slugify (text "Loja São João") ≡ text "loja-so-joo"
unfolding slugify to_lower lower_unit dash_spaces is_space
slug = refl

two_words :
    (all is_slug_char (slugify (text "Loja 2")) ≡ true)
    × (slugify (slugify (text "Loja 2")) ≡ slugify (text "Loja 2"))
    × ((slugify (text "Loja 2") ≡ text "Loja 2") ↔ (all is_slug_char (text "Loja 2") ≡ true))
two_words = slugify_lem (text "Loja 2")

abbrev client : ClientPage
client = record {
  enabled = some true;
  form = record {
    app_name = text "Trivio";
    file_name = text "trivio";
    comp_name = [];
    url_link = [];
    rustdesk_ref = text "1.4.8";
    custom_config = [];
  };
  status = idle_build;
  build_error = none;
  has_icon = false;
  icon_file = some (1 ∷ 2 ∷ []);
  saved_icon_url = none;
  install_code = [];
  api_base = [];
  saving = false;
  saved = false;
  building = true;
  downloading = false;
  error = none;
}

hours : duration (text "-") (some 7325) ≡ text "2h 2min"
unfolding duration decimal digits_before
hours = refl

abbrev stored_branding : TenantBranding
stored_branding = record {
  tenant_id = text "t1";
  app_name = text "Trivio";
  file_name = text "trivio";
  comp_name = [];
  url_link = [];
  custom_config = [];
  rustdesk_ref = [];
  build_status = building_now;
  build_run_id = none;
  artifact_url = none;
  build_error = none;
  built_at = none;
  updated_at = [];
}

abbrev branding_answer : BrandingResponse
branding_answer = record { enabled = true; branding = some stored_branding; has_icon = false }

abbrev overview_user : Browser
overview_user = record {
  window = true;
  token = some (text "k");
  user = none;
  tenant_id = none;
  tenant_name = none;
  location = [];
}

abbrev customer : Tenant
customer = record {
  id = text "t1";
  name = text "Loja";
  slug = text "loja";
  created_at = [];
  device_count = none;
  online_count = none;
  user_count = none;
}

follow_link_lem_example :
    let (after, path) = follow_link open_terminal customer overview_user in
    (guard after path ≡ admitted)
    × (lookup tenant_header (build (text "/api") after get_stats).headers ≡ some (text "t1"))
    × (shows_tenants after ≡ false)
follow_link_lem_example =
    follow_link_lem (text "/api") open_terminal customer overview_user get_stats refl refl
      (λ e. ground arith)

tenant_api_url-marked_example :
    tenant_api_url (record config { api_url = text "https://plus/t/old" }) (some (text "t1"))
    ≡ text "https://plus/t/t1"
unfolding strip_slash is_rest
tenant_api_url-marked_example =
    tenant_api_url-marked (record config { api_url = text "https://plus/t/old" })
      (text "https://plus") 111 (text "ld") 116 (text "1") refl refl
