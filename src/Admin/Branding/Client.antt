-- ===== src/Admin/Branding/Client.antt =====
-- The controls of `CustomClientPage` and what it draws (custom-client/page.tsx).
use rustdesk_plus.Admin.Branding.{
  BuildStatus, ClientPage, building_now, failed_build, idle_build, install_cmd, queued, ready,
}
use rustdesk_plus.Admin.Settings.Shown.{CopyEvent, copy_time_up, text_written}
use rustdesk_plus.Api.Http.{Result, ok, thrown}
use rustdesk_plus.Common.{
  Bool, List, Option, false, if◌then◌else◌, is_empty, is_some, none, some, true, ℕ, ◌||◌,
}
use rustdesk_plus.Common.Text.{Text, text, truthy}

pub data BrandingField : Type 0 where
  app_name_field file_name_field comp_name_field url_link_field : BrandingField
  rustdesk_ref_field custom_config_field : BrandingField

-- `set`
unfoldable pub set_branding : BrandingField → Text → ClientPage → ClientPage
set_branding app_name_field v p = record p { form = record p.form { app_name = v } }
set_branding file_name_field v p = record p { form = record p.form { file_name = v } }
set_branding comp_name_field v p = record p { form = record p.form { comp_name = v } }
set_branding url_link_field v p = record p { form = record p.form { url_link = v } }
set_branding rustdesk_ref_field v p = record p { form = record p.form { rustdesk_ref = v } }
set_branding custom_config_field v p = record p { form = record p.form { custom_config = v } }

unfoldable pub pick_icon : Option (List ℕ) → ClientPage → ClientPage
pick_icon contents p = record p { icon_file = contents }

-- `onDownloadInstaller`: what it does at once, and when the file or a failure arrives.
unfoldable pub on_download_installer : ClientPage → ClientPage
on_download_installer p = record p { downloading = true; error = none }

unfoldable pub on_installer : Result (List ℕ) → ClientPage → ClientPage
on_installer (ok contents) p = record p { downloading = false }
on_installer (thrown message) p = record p { error = some message; downloading = false }

unfoldable pub badge_text : BuildStatus → Text
badge_text idle_build = text "Não gerado"
badge_text queued = text "Na fila"
badge_text building_now = text "Compilando…"
badge_text ready = text "Pronto"
badge_text failed_build = text "Falhou"

-- `busy`
unfoldable pub is_busy : BuildStatus → Bool
is_busy queued = true
is_busy building_now = true
is_busy s = false

abbrev pub has_build_failed : BuildStatus → Bool
has_build_failed failed_build = true
has_build_failed s = false

abbrev pub is_ready : BuildStatus → Bool
is_ready ready = true
is_ready s = false

-- The effect on the chosen file, where `object_url` is `URL.createObjectURL`, and the picture.
unfoldable pub file_preview : (List ℕ → Text) → ClientPage → Option Text
file_preview object_url p = elim p.icon_file [
  | none ↦ none
  | some contents ↦ some (object_url contents)
]

unfoldable pub shown_icon : (List ℕ → Text) → ClientPage → Option Text
unfolding file_preview
shown_icon object_url p =
    if truthy (file_preview object_url p) then file_preview object_url p else p.saved_icon_url

-- `copyCmd`: what is written to the clipboard; and `copied`, by its answer and the timer.
unfoldable pub copy_cmd : ClientPage → Option Text
unfolding install_cmd
copy_cmd p = if is_empty (install_cmd p) then none else some (install_cmd p)

unfoldable pub command_copied : Bool → CopyEvent → Bool
command_copied copied text_written = true
command_copied copied copy_time_up = false

unfoldable pub icon_line : ClientPage → Option Text
icon_line p =
    if is_some p.icon_file
    then some (text "Novo ícone selecionado — salve para aplicar")
    else if p.has_icon
    then some (text "Ícone atual salvo ✓")
    else none

unfoldable pub build_line : BuildStatus → Text
unfolding is_busy
build_line s =
    if is_busy s
    then text "O build roda no GitHub Actions (~30–45 min). Esta página atualiza sozinha."
    else if is_ready s
    then text "Cliente com marca pronto. Distribua pelo instalador abaixo."
    else text "Gere o cliente com a marca acima. O build roda no GitHub Actions."

unfoldable pub build_button : ClientPage → Text × Bool
unfolding is_busy
build_button p = (
  if p.building
      then text "Disparando…"
      else if is_busy p.status
      then text "Compilando…"
      else text "Gerar cliente",
  p.building || is_busy p.status,
)
