-- ===== src/Terminal/View/Config.antt =====
-- The panel of the terminal in which a tenant, the target and the shell are chosen
-- (terminal/page.tsx).
use rustdesk_plus.Api.Types.{Device, Tenant}
use rustdesk_plus.Common.{List, Option, [], if◌then◌else◌, map, none, or_default, some, ◌++◌, ◌∷◌}
use rustdesk_plus.Common.Text.{Text, decimal, or_text, text}
use rustdesk_plus.Terminal.Page.{Page, TargetMode, by_tag, every_device, one_device}
use rustdesk_plus.Terminal.View.{online_devices}

unfoldable pub tenant_option : Tenant → Text × Text
unfolding decimal
tenant_option t =
    (t.id, t.name ++ text " (" ++ decimal (or_default t.online_count 0) ++ text " online)")

abbrev after_dash : Option Text → Text
after_dash none = []
after_dash (some []) = []
after_dash (some (c ∷ ip)) = text " — " ++ (c ∷ ip)

unfoldable pub device_option : Device → Text × Text
device_option d =
    (d.id, or_text d.alias (or_text d.hostname d.rustdesk_id) ++ after_dash d.ip_address)

-- The list of the target, where its mode has one
unfoldable pub target_options : Page → Option (List (Text × Text))
unfolding device_option online_devices
target_options p = elim p.target_mode [
  | every_device ↦ none
  | by_tag ↦ some (([], text "Selecione tag") ∷ map (λ t. (t.id, t.name)) p.tags)
  | one_device ↦ some (([], text "Selecione PC") ∷ map device_option (online_devices p))
]

unfoldable pub tenant_options : Page → Option (List (Text × Text))
unfolding tenant_option
tenant_options p =
    if p.super_admin then some (([], text "— Selecione —") ∷ map tenant_option p.tenants) else none

unfoldable pub mode_label : TargetMode → Text
mode_label every_device = text "Todos online"
mode_label by_tag = text "Por tag"
mode_label one_device = text "Um PC"

abbrev pub ids : List (Text × Text) → List Text
ids = map (λ o. o.0)
