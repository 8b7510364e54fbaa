-- ===== src/Devices/View/Drawn.antt =====
-- What the drawing of the list shows of the devices, in each of its views (devices/page.tsx).
use rustdesk_plus.Common.{Bool-cases, List, Option, [], arith, inl, inr, map, refl, true, ◌↔◌, ◌≡◌}
use rustdesk_plus.Common.Text.{Text}
use rustdesk_plus.Devices.Ids.{connect_device, is_numeric_id}
use rustdesk_plus.Devices.View.{
  Button, ListBody, cards, compact_rows, connect_button, empty_trash, no_devices, rows, trash_cards,
}

-- The names that a body shows, in order.
abbrev pub names : ListBody → List Text
names no_devices = []
names empty_trash = []
names (cards vs) = map (λ v. v.name) vs
names (rows vs) = map (λ v. v.name) vs
names (compact_rows vs) = map (λ v. v.name) vs
names (trash_cards vs) = map (λ v. v.name) vs

-- The buttons that connect.
abbrev pub connects : ListBody → List Button
connects (cards vs) = map (λ v. v.connect) vs
connects (rows vs) = map (λ v. v.connect) vs
connects b = []

-- A button that connects is enabled exactly if a click on it does anything.
pub connect_button-connect_device :
    (device_id rustdesk_id : Text) (password : Option Text)
    → ((connect_button rustdesk_id).disabled ≡ true)
      ↔ (connect_device device_id rustdesk_id password ≡ [])
unfolding connect_button connect_device
connect_button-connect_device device_id rustdesk_id password =
    elim (Bool-cases (is_numeric_id rustdesk_id)) [
      | inl numeric ↦ rw numeric ((λ h. cc), (λ h. ground arith))
      | inr placeholder ↦ rw placeholder ((λ h. refl), (λ h. refl))
    ]
