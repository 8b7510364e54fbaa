-- ===== src/Admin/Settings/Shown.antt =====
-- What `SettingsPage` shows of the configuration (settings/page.tsx), and its small controls.
use rustdesk_plus.Admin.Settings.{SettingsPage, rustdesk_toml, tenant_api_url}
use rustdesk_plus.Admin.Tenants.{strip_slash}
use rustdesk_plus.Admin.Tenants.Codes.{hidden_code, install_command}
use rustdesk_plus.Api.Types.{ServerConfig}
use rustdesk_plus.Common.{Bool, Option, false, if◌then◌else◌, is_empty, none, not, some, true, ◌||◌}
use rustdesk_plus.Common.Text.{Text, text, truthy}

-- `error && …`
abbrev shown_error : Option Text → Option Text
shown_error e = if truthy e then e else none

pub data ConfigEvent : Type 0 where
  config_answered : ServerConfig → ConfigEvent
  host_typed url_typed : Text → ConfigEvent

unfoldable pub config_step : SettingsPage → ConfigEvent → SettingsPage
config_step p (config_answered c) = record p { config = c }
config_step p (host_typed s) = record p { config = record p.config { server_ip = s } }
config_step p (url_typed s) = record p { config = record p.config { api_url = s } }

-- The password, behind `showPassword`
unfoldable pub shown_password : Bool → ServerConfig → Option Text
shown_password show c =
    if is_empty c.rustdesk_password
    then none
    else some (if show then c.rustdesk_password else hidden_code)

-- The command of the installer, and its code
unfoldable pub installer_line : ServerConfig → Option (Text × Text)
unfolding strip_slash
installer_line c =
    if is_empty c.install_code || is_empty c.api_url
    then none
    else some (install_command (strip_slash c.api_url) c.install_code, c.install_code)

-- The form of the server's configuration; the key cannot be typed.
pub record ConfigForm : Type 0 where
  pub host : Text
  pub url : Text
  pub key : Text
  pub error : Option Text
  pub submit_text : Text
  pub disabled : Bool
  pub saved : Bool

unfoldable pub config_form : SettingsPage → ConfigForm
config_form p = record {
  host = p.config.server_ip;
  url = p.config.api_url;
  key = p.config.server_key;
  error = shown_error p.error;
  submit_text = if p.saving then text "Salvando..." else text "Salvar configuração";
  disabled = p.saving;
  saved = p.saved;
}

-- The button that asks for the installer, and whether it is disabled.
unfoldable pub download_button : SettingsPage → Text × Bool
download_button p = (
  if p.downloading then text "Gerando instalador..." else text "Baixar instalador (.exe)",
  p.downloading,
)

pub record SettingsView : Type 0 where
  pub title : Text
  pub password : Option Text
  pub password_switch : Option Text
  pub form : Option ConfigForm
  pub toml : Option Text
  pub error_below : Option Text
  pub installer : Option (Text × Text)
  pub download : Text × Bool

unfoldable pub settings_view : Bool → Option Text → Bool → SettingsPage → SettingsView
unfolding shown_password rustdesk_toml tenant_api_url installer_line config_form download_button
settings_view super tenant_id show p =
    let toml = rustdesk_toml p.config (tenant_api_url p.config tenant_id) in
    record {
      title = text "Configuração do Servidor";
      password = shown_password show p.config;
      password_switch =
          if is_empty p.config.rustdesk_password
          then none
          else some (if show then text "Ocultar" else text "Mostrar");
      form = if super then some (config_form p) else none;
      toml = if is_empty toml || not super then none else some toml;
      error_below = if super then none else shown_error p.error;
      installer = installer_line p.config;
      download = download_button p;
    }

-- `copied` of `CopyButton`, by the clipboard's answer and the timer.
pub data CopyEvent : Type 0 where
  text_written copy_time_up : CopyEvent

unfoldable pub copy_step : Bool → CopyEvent → Bool
copy_step copied text_written = true
copy_step copied copy_time_up = false

-- The text of the button
unfoldable pub copy_label : Bool → Text
copy_label copied = if copied then text "✓ Copiado!" else text "Copiar"
