-- ===== src/Admin/Settings.antt =====
-- `SettingsPage` (settings/page.tsx): the configuration and what is shown of it.
pub mod Shown
use rustdesk_plus.Admin.Tenants.{is_slash, strip_slash}
use rustdesk_plus.Api.Admin.{save_server_config}
use rustdesk_plus.Api.Http.{Call, Result, ok, thrown}
use rustdesk_plus.Api.Types.{ServerConfig}
use rustdesk_plus.Common.{
  Bool, List, Option, [], arith, false, if◌then◌else◌, is_empty, none, not, refl, some, true, ℕ,
  ◌&&◌, ◌++◌, ◌==◌, ◌∷◌, ◌≡◌,
}
use rustdesk_plus.Common.Text.{Text, join, or_text, text, truthy}

pub record SettingsPage : Type 0 where
  pub config : ServerConfig
  pub saving : Bool
  pub saved : Bool
  pub downloading : Bool
  pub error : Option Text

-- What may follow `/t/` and one unit that is no slash: more of them, and a slash at the end.
unfoldable pub is_rest : Text → Bool
is_rest [] = true
is_rest (c ∷ []) = true
is_rest (c ∷ d ∷ s) = not (is_slash c) && is_rest (d ∷ s)

abbrev pub is_segment : Text → Bool
is_segment [] = false
is_segment (c ∷ s) = not (is_slash c) && is_rest s

-- Whether `\/t\/[^/]+\/?$` matches here.
unfoldable pub is_tenant_tail : Text → Bool
unfolding is_rest
is_tenant_tail [] = false
is_tenant_tail (a ∷ []) = false
is_tenant_tail (a ∷ b ∷ []) = false
is_tenant_tail (a ∷ b ∷ c ∷ s) = is_slash a && b == b't' && is_slash c && is_segment s

-- `s.replace(/\/t\/[^/]+\/?$/, "")`: the first place from which the rest matches.
unfoldable pub strip_tenant : Text → Text
unfolding is_tenant_tail
strip_tenant [] = []
strip_tenant (c ∷ s) = let rest = strip_tenant s in if is_tenant_tail (c ∷ s) then [] else c ∷ rest

abbrev pub tenant_mark : Text
tenant_mark = text "/t/"

-- `tenantApiUrl`
unfoldable pub tenant_api_url : ServerConfig → Option Text → Text
unfolding strip_slash strip_tenant
tenant_api_url c tenant_id =
    if not (is_empty c.api_url) && truthy tenant_id
    then strip_slash (strip_tenant c.api_url) ++ tenant_mark ++ or_text tenant_id []
    else c.api_url

abbrev quoted : Text → Text → Text
quoted key value = key ++ text " = '" ++ value ++ text "'"

abbrev api_line : Text → List Text
api_line [] = []
api_line (c ∷ url) = quoted (text "api-server") (c ∷ url) ∷ []

-- `rustdeskToml`
unfoldable pub rustdesk_toml : ServerConfig → Text → Text
unfolding join
rustdesk_toml c url =
    if is_empty c.server_ip
    then []
    else join (text "\n") (
        quoted (text "rendezvous_server") (c.server_ip ++ text ":21116")
        ∷ text "nat_type = 1"
        ∷ text "serial = 0"
        ∷ []
        ∷ text "[options]"
        ∷ quoted (text "key") c.server_key
        ∷ quoted (text "custom-rendezvous-server") c.server_ip
        ∷ quoted (text "relay-server") c.server_ip
        ∷ api_line url)

-- `onSubmit` up to its await, and its rest.
unfoldable pub on_submit_config : SettingsPage → SettingsPage × Call
unfolding save_server_config
on_submit_config p =
    (record p { saving = true; error = none; saved = false }, save_server_config p.config)

unfoldable pub on_config_saved : Result Bool → SettingsPage → SettingsPage
on_config_saved (ok answer) p = record p { saved = true; saving = false }
on_config_saved (thrown message) p = record p { error = some message; saving = false }

-- `onDownload`: what it does at once, and when the file or a failure arrives.
unfoldable pub on_download : SettingsPage → SettingsPage
on_download p = record p { downloading = true; error = none }

unfoldable pub on_downloaded : Result (List ℕ) → SettingsPage → SettingsPage
on_downloaded (ok contents) p = record p { downloading = false }
on_downloaded (thrown message) p = record p { error = some message; downloading = false }

is_rest-marked : (xs : Text) (c : ℕ) (id : Text) → is_rest (xs ++ (tenant_mark ++ c ∷ id)) ≡ false
unfolding is_rest
is_rest-marked [] c id = refl
is_rest-marked (x ∷ []) c id = ground arith
is_rest-marked (x ∷ y ∷ xs) c id = ground (arith, is_rest-marked (y ∷ xs) c id)

no_earlier_tail :
    (b : ℕ) (base : Text) (c : ℕ) (id : Text)
    → is_tenant_tail (b ∷ (base ++ (tenant_mark ++ c ∷ id))) ≡ false
unfolding is_tenant_tail
no_earlier_tail b [] c id = ground arith
no_earlier_tail b (d ∷ []) c id = ground arith
no_earlier_tail b (d ∷ e ∷ []) c id = ground arith
no_earlier_tail b (d ∷ e ∷ f ∷ base) c id = ground (arith, is_rest-marked base c id)

tail_here : (id : Text) → is_segment id ≡ true → is_tenant_tail (tenant_mark ++ id) ≡ true
unfolding is_tenant_tail
tail_here id h = rw h

strip_tenant-marked :
    (base : Text) (c : ℕ) (id : Text)
    → is_segment (c ∷ id) ≡ true
    → strip_tenant (base ++ (tenant_mark ++ c ∷ id)) ≡ base
unfolding strip_tenant
strip_tenant-marked [] c id h = rw (tail_here (c ∷ id) h)
strip_tenant-marked (b ∷ base) c id h =
    rw (no_earlier_tail b base c id, strip_tenant-marked base c id h)

is_empty-marked : (base id : Text) → is_empty (base ++ (tenant_mark ++ id)) ≡ false
is_empty-marked [] id = refl
is_empty-marked (b ∷ base) id = refl

-- Where the address of the API ends with a tenant, one segment behind `/t/`, and a tenant is
-- active, the address that is shown names the active tenant in its place.
pub tenant_api_url-marked :
    (config : ServerConfig) (base : Text) (c : ℕ) (old : Text) (a : ℕ) (chosen : Text)
    → config.api_url ≡ base ++ (tenant_mark ++ c ∷ old)
    → is_segment (c ∷ old) ≡ true
    → tenant_api_url config (some (a ∷ chosen)) ≡ (strip_slash base ++ tenant_mark) ++ a ∷ chosen
unfolding tenant_api_url
tenant_api_url-marked config base c old a chosen e h =
    rw (e, is_empty-marked base (c ∷ old), strip_tenant-marked base c old h)
