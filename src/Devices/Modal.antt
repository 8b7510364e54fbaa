-- ===== src/Devices/Modal.antt =====
-- What `DeviceModal` draws of a device and its dialog (devices/page.tsx), and its three fields.
use rustdesk_plus.Admin.Settings.Shown.{CopyEvent, copy_time_up, text_written}
use rustdesk_plus.Api.Types.{Branch, Device, Tag}
use rustdesk_plus.Common.{
  Bool, List, Option, [], false, if◌then◌else◌, is_empty, map, none, not, or_default, some, true,
  ◌&&◌, ◌∷◌,
}
use rustdesk_plus.Common.Int.{ℤ}
use rustdesk_plus.Common.Text.{Text, includes, or_text, text, truthy}
use rustdesk_plus.Devices.Dialog.{Dialog}
use rustdesk_plus.Devices.Ids.{fmt_id, is_numeric_id}
use rustdesk_plus.Devices.Show.{display_name, fmt_online_since}
use rustdesk_plus.Devices.View.{
  Button, branch_name, branch_of, connect_button, fmt_last_seen, no_system, where_given,
}

unfoldable pub type_alias : Text → Dialog → Dialog
type_alias s w = record w { alias = s }

unfoldable pub type_description : Text → Dialog → Dialog
type_description s w = record w { description = s }

unfoldable pub pick_branch : Text → Dialog → Dialog
pick_branch id w = record w { branch_id = id }

pub record TagChip : Type 0 where
  pub name : Text
  pub color : Text
  pub chosen : Bool

unfoldable pub tag_chip : Dialog → Tag → TagChip
unfolding includes
tag_chip w t = record { name = t.name; color = t.color; chosen = includes t.id w.device_tag_ids }

-- The options of the branch, the first one for none
unfoldable pub branch_options : List Branch → List (Text × Text)
branch_options bs = ([], text "Sem filial") ∷ map (λ b. (b.id, b.name)) bs

pub record ModalView : Type 0 where
  pub up : Bool
  pub name : Text
  pub system : Text
  pub since : Option Text
  pub shown_id : Text
  pub address : Option Text
  pub branch : Option Text
  pub alias_hint : Text
  pub branches : List (Text × Text)
  pub chips : List TagChip
  pub made : Text
  pub seen : Text
  pub password : Option Text
  pub favorite_label : Text
  pub connect : Button
  pub save_label : Text
  pub save_disabled : Bool

module _ (locale_string : Text → Text) (elapsed : Text → Option ℤ) where
  unfoldable pub modal_view : Device → List Branch → Text → Dialog → ModalView
  unfolding display_name fmt_online_since fmt_id branch_of branch_options tag_chip fmt_last_seen
      is_numeric_id connect_button
  modal_view d bs password w = record {
    up = d.online;
    name = display_name d;
    system = or_default d.os no_system;
    since =
        if d.online && truthy d.online_since then fmt_online_since elapsed d.online_since else none;
    shown_id = fmt_id d.rustdesk_id;
    address = where_given d.ip_address;
    branch = branch_name (branch_of d bs);
    alias_hint = or_text d.hostname (text "Ex: Recepção Principal");
    branches = branch_options bs;
    chips = map (tag_chip w) w.all_tags;
    made = fmt_last_seen locale_string elapsed (some d.created_at);
    seen = fmt_last_seen locale_string elapsed d.last_seen_at;
    password =
        if not (is_empty password) && is_numeric_id d.rustdesk_id then some password else none;
    favorite_label = if d.favorite then text "Favorito" else text "Favoritar";
    connect = connect_button d.rustdesk_id;
    save_label = if w.saving then text "Salvando..." else text "Salvar";
    save_disabled = w.saving;
  }

-- `ok` of `CopyBtn`, by the clipboard's answer and the timer.
unfoldable pub copy_btn : Bool → CopyEvent → Bool
copy_btn copied text_written = true
copy_btn copied copy_time_up = false
