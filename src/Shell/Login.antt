-- ===== src/Shell/Login.antt =====
-- `LoginPage` (login/page.tsx): the first setup and the login.
use rustdesk_plus.Api.Admin.{SetupData, complete_setup, login}
use rustdesk_plus.Api.Http.{Call, Result, ok, thrown}
use rustdesk_plus.Api.Session.{Browser, set_stored_user, set_token}
use rustdesk_plus.Api.Types.{SetupStatus, User}
use rustdesk_plus.Common.{Bool, Option, false, if◌then◌else◌, none, not, some, true}
use rustdesk_plus.Common.Text.{Text, or_else, text}

pub record LoginPage : Type 0 where
  pub status : Option SetupStatus
  pub email : Text
  pub password : Text
  pub name : Text
  pub tenant_name : Text
  pub server_ip : Text
  pub api_url : Text
  pub error : Option Text
  pub loading : Bool

-- The answer of `getSetupStatus`, with the host and the origin of the page.
unfoldable pub on_status : Text → Text → SetupStatus → LoginPage → LoginPage
on_status host origin setup p = record p {
  status = some setup;
  server_ip = or_else setup.server_ip host;
  api_url = or_else setup.api_url origin;
}

unfoldable pub on_status_failed : Text → LoginPage → LoginPage
on_status_failed message p = record p { error = some message }

unfoldable pub setup_of : LoginPage → SetupData
setup_of p = record {
  email = p.email;
  password = p.password;
  name = p.name;
  server_ip = p.server_ip;
  api_url = p.api_url;
  tenant_name = or_else p.tenant_name p.name;
}

-- `onSubmit` up to its await.
unfoldable pub submit : LoginPage → LoginPage × Option Call
unfolding login complete_setup setup_of
submit p = elim p.status [
  | none ↦ (p, none)
  | some s ↦ (
    record p { error = none; loading = true },
    some (if s.configured then login p.email p.password else complete_setup (setup_of p)),
  )
]

pub record LoginReply : Type 0 where
  pub token : Text
  pub user : User

-- The rest of `onSubmit`: the page and the browser after the answer, and where the site goes.
unfoldable pub on_login :
    Result LoginReply → LoginPage → Browser → LoginPage × Browser × Option Text
unfolding set_token set_stored_user
on_login (ok r) p b = (
  record p { loading = false },
  set_stored_user (some r.user) (set_token (some r.token) b),
  some (text "/dashboard"),
)
on_login (thrown message) p b = (record p { loading = false; error = some message }, b, none)

abbrev not_configured : Option SetupStatus → Bool
not_configured none = false
not_configured (some s) = not s.configured

-- `firstRun`
unfoldable pub first_run : LoginPage → Bool
first_run p = not_configured p.status
