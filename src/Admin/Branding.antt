-- ===== src/Admin/Branding.antt =====
-- `CustomClientPage` (custom-client/page.tsx): the branded client of a tenant. A file is the list of
-- its bytes.
pub mod Client
pub mod Shown
use rustdesk_plus.Admin.Tenants.{is_slash}
use rustdesk_plus.Api.Admin.{BrandingData, branding_icon_url, save_branding}
use rustdesk_plus.Api.Http.{Call, Result, ok, thrown}
use rustdesk_plus.Api.Types.{ServerConfig}
use rustdesk_plus.Common.{
  Bool, List, Option, [], false, if◌then◌else◌, inl, inr, is_empty, none, refl, some, true, ℕ, ◌&&◌,
  ◌++◌, ◌||◌, ◌∷◌, ◌≡◌, ◌⊎◌,
}
use rustdesk_plus.Common.Text.{Text, or_else, text}

pub data BuildStatus : Type 0 where
  idle_build queued building_now ready failed_build : BuildStatus

-- `TenantBranding` of api.ts
pub record TenantBranding : Type 0 where
  pub tenant_id : Text
  pub app_name : Text
  pub file_name : Text
  pub comp_name : Text
  pub url_link : Text
  pub custom_config : Text
  pub rustdesk_ref : Text
  pub build_status : BuildStatus
  pub build_run_id : Option ℕ
  pub artifact_url : Option Text
  pub build_error : Option Text
  pub built_at : Option Text
  pub updated_at : Text

pub record BrandingResponse : Type 0 where
  pub enabled : Bool
  pub branding : Option TenantBranding
  pub has_icon : Bool

pub record BrandingForm : Type 0 where
  pub app_name : Text
  pub file_name : Text
  pub comp_name : Text
  pub url_link : Text
  pub rustdesk_ref : Text
  pub custom_config : Text

pub record ClientPage : Type 0 where
  pub enabled : Option Bool
  pub form : BrandingForm
  pub status : BuildStatus
  pub build_error : Option Text
  pub has_icon : Bool
  pub icon_file : Option (List ℕ)
  pub saved_icon_url : Option Text
  pub install_code : Text
  pub api_base : Text
  pub saving : Bool
  pub saved : Bool
  pub building : Bool
  pub downloading : Bool
  pub error : Option Text

abbrev pub form_of : TenantBranding → BrandingForm
form_of b = record {
  app_name = b.app_name;
  file_name = b.file_name;
  comp_name = b.comp_name;
  url_link = b.url_link;
  rustdesk_ref = or_else b.rustdesk_ref (text "1.4.8");
  custom_config = b.custom_config;
}

abbrev icon_url : Text → Bool → TenantBranding → Option Text
icon_url api_url has_icon b =
    if has_icon then branding_icon_url api_url b.tenant_id (some b.updated_at) else none

-- `refresh` with the answer of `getBranding`. The time of the last change is plain ASCII, so that
-- its address is always there.
unfoldable pub on_branding : Text → BrandingResponse → ClientPage → ClientPage
unfolding branding_icon_url
on_branding api_url r p =
    let p' = record p { enabled = some r.enabled; has_icon = r.has_icon } in
    elim r.branding [
      | none ↦ record p' { saved_icon_url = none }
      | some b ↦ record p' {
        form = form_of b;
        status = b.build_status;
        build_error = b.build_error;
        saved_icon_url = icon_url api_url r.has_icon b;
      }
    ]

-- `s.replace(/\/+$/, "")`
unfoldable pub strip_slashes : Text → Text
strip_slashes [] = []
strip_slashes (c ∷ s) =
    let rest = strip_slashes s in if is_slash c && is_empty rest then [] else c ∷ rest

unfoldable pub on_config : ServerConfig → ClientPage → ClientPage
unfolding strip_slashes
on_config c p = record p { install_code = c.install_code; api_base = strip_slashes c.api_url }

-- Whether the interval of 15 seconds asks for the state.
unfoldable pub is_polling : ClientPage → Bool
is_polling p = elim p.status [ queued ↦ true | building_now ↦ true | _ ↦ false ]

abbrev pub branding_data : BrandingForm → BrandingData
branding_data f = record {
  app_name = f.app_name;
  file_name = f.file_name;
  comp_name = some f.comp_name;
  url_link = some f.url_link;
  custom_config = some f.custom_config;
  rustdesk_ref = some f.rustdesk_ref;
}

-- `persist`, where the answers tell whether the two calls succeed: the page after it, and the
-- message where one fails. Without a chosen file there is no second call.
unfoldable pub persist : Result Bool → Result Bool → ClientPage → ClientPage × Option Text
persist (thrown message) icon p = (p, some message)
persist (ok answer) icon p = elim p.icon_file [
  | none ↦ (p, none)
  | some contents ↦ elim icon [
    | thrown message ↦ (p, some message)
    | ok uploaded ↦ (record p { icon_file = none; has_icon = true }, none)
  ]
]

-- `onSave` and `onBuild` up to their first await.
unfoldable pub on_save_branding : ClientPage → ClientPage × Call
unfolding save_branding
on_save_branding p =
    (record p { saving = true; error = none; saved = false }, save_branding (branding_data p.form))

unfoldable pub on_build : ClientPage → ClientPage × Call
unfolding save_branding
on_build p = (record p { building = true; error = none }, save_branding (branding_data p.form))

-- The rest of `onSave`, with the answers of `persist` and of `refresh`.
unfoldable pub on_branding_saved :
    Text → Result Bool → Result Bool → Result BrandingResponse → ClientPage → ClientPage
unfolding persist on_branding
on_branding_saved api_url saved_answer icon again p =
    let (q, failure) = persist saved_answer icon p in
    elim failure [
      | some message ↦ record q { error = some message; saving = false }
      | none ↦ elim again [
        | thrown message ↦ record q { error = some message; saving = false }
        | ok r ↦ record (on_branding api_url r q) { saved = true; saving = false }
      ]
    ]

-- The rest of `onBuild`, with the answers of `persist` and of `triggerBrandingBuild`.
unfoldable pub on_build_started : Result Bool → Result Bool → Result Bool → ClientPage → ClientPage
unfolding persist
on_build_started saved_answer icon started p =
    let (q, failure) = persist saved_answer icon p in
    elim failure [
      | some message ↦ record q { error = some message; building = false }
      | none ↦ elim started [
        | thrown message ↦ record q { error = some message; building = false }
        | ok answer ↦ record q { status = queued; build_error = none; building = false }
      ]
    ]

-- `installCmd`
unfoldable pub install_cmd : ClientPage → Text
install_cmd p =
    if is_empty p.api_base || is_empty p.install_code
    then []
    else text "[Net.ServicePointManager]::SecurityProtocol='Tls12'; irm "
      ++ p.api_base
      ++ text "/i/"
      ++ p.install_code
      ++ text " | iex"

-- The page after a build was asked for, and before.
abbrev pub IsAsked : ClientPage → ClientPage → Type 0
IsAsked after p =
    (after.building ≡ false)
    × (((is_polling after ≡ true) × (after.icon_file ≡ none))
        ⊎ ((message : Text) × (after.error ≡ some message) × (after.status ≡ p.status)))

IsAsked-with :
    (waiting : Option (List ℕ)) (saved_answer icon started : Result Bool) (p : ClientPage)
    → IsAsked (on_build_started saved_answer icon started (record p { icon_file = waiting })) p
unfolding on_build_started persist is_polling
IsAsked-with waiting (thrown message) icon started p = (refl, inr (message, refl, refl))
IsAsked-with none (ok answer) icon (thrown message) p = (refl, inr (message, refl, refl))
IsAsked-with none (ok answer) icon (ok began) p = (refl, inl (refl, refl))
IsAsked-with (some contents) (ok answer) (thrown message) started p =
    (refl, inr (message, refl, refl))
IsAsked-with (some contents) (ok answer) (ok took) (thrown message) p =
    (refl, inr (message, refl, refl))
IsAsked-with (some contents) (ok answer) (ok took) (ok began) p = (refl, inl (refl, refl))

-- A build that is asked for leaves the button usable in every case. Either the state of the build
-- is polled from then on and no file is waiting, or a message is shown and that state is as before.
pub on_build_started_lem :
    (saved_answer icon started : Result Bool) (p : ClientPage)
    → IsAsked (on_build_started saved_answer icon started p) p
on_build_started_lem saved_answer icon started p =
    IsAsked-with p.icon_file saved_answer icon started p
