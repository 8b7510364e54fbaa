-- ===== src/Admin/Branding/Shown.antt =====
-- What `CustomClientPage` draws (custom-client/page.tsx). `copied` is the state of the button that
-- copies the command.
use rustdesk_plus.Admin.Branding.{BrandingForm, ClientPage, install_cmd}
use rustdesk_plus.Admin.Branding.Client.{
  badge_text, build_button, build_line, has_build_failed, icon_line, is_ready, shown_icon,
}
use rustdesk_plus.Common.{
  Bool, List, Option, [], false, if◌then◌else◌, is_empty, none, some, true, ℕ, ◌&&◌, ◌∷◌,
}
use rustdesk_plus.Common.Text.{Text, text, truthy}

-- The part on a client that is ready: the button that asks for the installer, whether it is
-- disabled, and the command, where there is one.
pub record ReadyView : Type 0 where
  pub download : Text
  pub disabled : Bool
  pub command : Option Text
  pub copy : Text

unfoldable pub ready_view : Bool → ClientPage → Option ReadyView
unfolding install_cmd
ready_view copied p =
    if is_ready p.status
    then some (record {
      download = if p.downloading then text "Baixando…" else text "Baixar instalador";
      disabled = p.downloading;
      command = if is_empty (install_cmd p) then none else some (install_cmd p);
      copy = if copied then text "✓ Copiado" else text "Copiar";
    })
    else none

pub record ClientView : Type 0 where
  pub badge : Text
  pub error : Option Text
  pub failure : Option Text
  pub fields : List (Text × Text)
  pub picture : Option Text
  pub icon : Option Text
  pub locked : Text
  pub save_label : Text
  pub save_disabled : Bool
  pub saved : Bool
  pub build : Text
  pub build_label : Text
  pub build_disabled : Bool
  pub installer : Option ReadyView

-- The fields of the form with their labels, but for the icon and the locked settings.
abbrev client_fields : BrandingForm → List (Text × Text)
client_fields f =
    (text "Nome do app *", f.app_name)
    ∷ (text "Nome do arquivo *", f.file_name)
    ∷ (text "Empresa", f.comp_name)
    ∷ (text "Site (URL)", f.url_link)
    ∷ (text "Versão do RustDesk", f.rustdesk_ref)
    ∷ []

unfoldable pub client_view : (List ℕ → Text) → Bool → ClientPage → ClientView
unfolding badge_text icon_line shown_icon build_line build_button ready_view
client_view object_url copied p = record {
  badge = badge_text p.status;
  error = if truthy p.error then p.error else none;
  failure = if has_build_failed p.status && truthy p.build_error then p.build_error else none;
  fields = client_fields p.form;
  picture = if truthy (shown_icon object_url p) then shown_icon object_url p else none;
  icon = icon_line p;
  locked = p.form.custom_config;
  save_label = if p.saving then text "Salvando…" else text "Salvar";
  save_disabled = p.saving;
  saved = p.saved;
  build = build_line p.status;
  build_label = (build_button p).0;
  build_disabled = (build_button p).1;
  installer = ready_view copied p;
}

-- The page: not there while the state is unknown, or the generator disabled.
pub data ClientBody : Type 0 where
  client_loading client_disabled : ClientBody
  client_form : ClientView → ClientBody

unfoldable pub client_body : (List ℕ → Text) → Bool → ClientPage → ClientBody
unfolding client_view
client_body object_url copied p = elim p.enabled [
  | none ↦ client_loading
  | some false ↦ client_disabled
  | some true ↦ client_form (client_view object_url copied p)
]
