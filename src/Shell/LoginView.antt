-- ===== src/Shell/LoginView.antt =====
-- The form of `LoginPage` (login/page.tsx): its fields and what is drawn of it.
use rustdesk_plus.Common.{Bool, Option, if◌then◌else◌, is_some, none, not, some, ℕ, ◌&&◌, ◌||◌}
use rustdesk_plus.Common.Text.{Text, text, truthy}
use rustdesk_plus.Shell.Login.{LoginPage, first_run}

pub data LoginField : Type 0 where
  name_typed company_typed host_field api_field email_typed password_typed : LoginField

unfoldable pub type_login : LoginField → Text → LoginPage → LoginPage
type_login name_typed s p = record p { name = s }
type_login company_typed s p = record p { tenant_name = s }
type_login host_field s p = record p { server_ip = s }
type_login api_field s p = record p { api_url = s }
type_login email_typed s p = record p { email = s }
type_login password_typed s p = record p { password = s }

-- The least length of the password, the fields of the first setup, and the button.
pub record LoginForm : Type 0 where
  pub setup_fields : Bool
  pub least_password : Option ℕ
  pub message : Option Text
  pub button : Text
  pub button_disabled : Bool

pub data LoginBody : Type 0 where
  preparing : LoginBody
  login_form : LoginForm → LoginBody

unfoldable pub login_subtitle : LoginPage → Text
unfolding first_run
login_subtitle p =
    if first_run p then text "Configuração inicial do servidor" else text "Entre com sua conta"

unfoldable pub login_body : LoginPage → LoginBody
unfolding first_run
login_body p =
    if not (is_some p.status) && not (truthy p.error)
    then preparing
    else login_form (record {
      setup_fields = first_run p;
      least_password = if first_run p then some 8 else none;
      message = if truthy p.error then p.error else none;
      button =
          if p.loading
          then text "Salvando..."
          else if first_run p
          then text "Configurar e iniciar"
          else text "Entrar";
      button_disabled = p.loading || not (is_some p.status);
    })
