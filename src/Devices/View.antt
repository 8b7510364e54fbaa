-- ===== src/Devices/View.antt =====
-- What the devices page draws of its state (devices/page.tsx), without the styles. A date of the
-- server is written by `Date.toLocaleString`, and `elapsed` is as in `fmt_online_since`.
pub mod Drawn
use rustdesk_plus.Api.Types.{Branch, Device, Tag}
use rustdesk_plus.Common.{
  Bool, List, Option, [], false, find?, if◌then◌else◌, is_empty, length, map, none, or_default,
  some, true, ℕ, ◌++◌, ◌==◌, ◌∷◌,
}
use rustdesk_plus.Common.Dict.{lookup}
use rustdesk_plus.Common.Int.{ℤ}
use rustdesk_plus.Common.Text.{Text, decimal, text, text_eq, truthy}
use rustdesk_plus.Devices.Ids.{fmt_id, is_numeric_id}
use rustdesk_plus.Devices.Load.{DevicesPage, ViewMode, compact, count_online, grid, list}
use rustdesk_plus.Devices.Show.{Os, detect_os, display_name, fmt_online_since}

-- A button: its text, whether it is disabled, and its title.
pub record Button : Type 0 where
  pub label : Text
  pub disabled : Bool
  pub title : Option Text

unfoldable pub connect_button : Text → Button
unfolding is_numeric_id
connect_button rustdesk_id =
    if is_numeric_id rustdesk_id
    then record { label = text "Conectar"; disabled = false; title = none }
    else record {
      label = text "Aguardando...";
      disabled = true;
      title = some (text "Aguardando ID do RustDesk...");
    }

abbrev has_branch_id : Option Text → Branch → Bool
has_branch_id none b = false
has_branch_id (some id) b = text_eq b.id id

-- `branches.find((b) => b.id === device.branch_id)`
unfoldable pub branch_of : Device → List Branch → Option Branch
unfolding text_eq
branch_of d bs = find? (has_branch_id d.branch_id) bs

abbrev pub branch_name : Option Branch → Option Text
branch_name none = none
branch_name (some b) = some b.name

-- A part that is drawn where the text is neither null nor empty.
abbrev pub where_given : Option Text → Option Text
where_given v = if truthy v then v else none

abbrev pub no_system : Text
no_system = text "SO desconhecido"

abbrev pub dash : Text
dash = text "—"

pub record CardView : Type 0 where
  pub starred : Bool
  pub up : Bool
  pub status : Option Text
  pub icon : Os
  pub name : Text
  pub system : Text
  pub shown_id : Text
  pub address : Option Text
  pub branch : Text
  pub tags : List Tag
  pub connect : Button
  pub remove : Text

pub record RowView : Type 0 where
  pub up : Bool
  pub starred : Bool
  pub name : Text
  pub icon : Os
  pub shown_id : Text
  pub address : Text
  pub branch : Text
  pub seen : Text
  pub connect : Button

pub record CompactView : Type 0 where
  pub up : Bool
  pub icon : Os
  pub name : Text
  pub below : Text
  pub branch : Option Text
  pub starred : Bool

pub record TrashView : Type 0 where
  pub icon : Os
  pub name : Text
  pub system : Text
  pub shown_id : Text
  pub branch : Option Text
  pub removed : Text
  pub restore : Text
  pub purge : Text

-- The lower part of the page.
pub data ListBody : Type 0 where
  no_devices empty_trash : ListBody
  cards : List CardView → ListBody
  rows : List RowView → ListBody
  compact_rows : List CompactView → ListBody
  trash_cards : List TrashView → ListBody

module _ (locale_string : Text → Text) (elapsed : Text → Option ℤ) where
  unfoldable pub fmt_last_seen : Option Text → Text
  fmt_last_seen none = dash
  fmt_last_seen (some []) = dash
  fmt_last_seen (some (c ∷ s)) = locale_string (c ∷ s)

  unfoldable pub status_text : Device → Option Text
  unfolding fmt_online_since
  status_text d =
      if d.online
      then (if truthy d.online_since
          then fmt_online_since elapsed d.online_since
          else some (text "Online"))
      else some (text "Offline")

  -- `DeviceCard`
  unfoldable pub device_card : List Branch → List Tag → Device → CardView
  unfolding status_text detect_os display_name fmt_id branch_of connect_button
  device_card bs ts d = record {
    starred = d.favorite;
    up = d.online;
    status = status_text d;
    icon = detect_os d.os;
    name = display_name d;
    system = or_default d.os no_system;
    shown_id = fmt_id d.rustdesk_id;
    address = where_given d.ip_address;
    branch = or_default (branch_name (branch_of d bs)) (text "Sem filial");
    tags = ts;
    connect = connect_button d.rustdesk_id;
    remove = text "Remover";
  }

  -- A row of the list view
  unfoldable pub device_row : List Branch → Device → RowView
  unfolding detect_os display_name fmt_id fmt_last_seen branch_of connect_button
  device_row bs d = record {
    up = d.online;
    starred = d.favorite;
    name = display_name d;
    icon = detect_os d.os;
    shown_id = fmt_id d.rustdesk_id;
    address = or_default d.ip_address dash;
    branch = or_default (branch_name (branch_of d bs)) dash;
    seen = fmt_last_seen d.last_seen_at;
    connect = connect_button d.rustdesk_id;
  }

  -- An item of the compact view
  unfoldable pub compact_row : List Branch → Device → CompactView
  unfolding detect_os display_name fmt_id branch_of
  compact_row bs d = record {
    up = d.online;
    icon = detect_os d.os;
    name = display_name d;
    below = or_default d.ip_address (fmt_id d.rustdesk_id);
    branch = branch_name (branch_of d bs);
    starred = d.favorite;
  }

  -- `TrashCard`
  unfoldable pub trash_card : List Branch → Device → TrashView
  unfolding detect_os display_name fmt_id fmt_last_seen branch_of
  trash_card bs d = record {
    icon = detect_os d.os;
    name = display_name d;
    system = or_default d.os no_system;
    shown_id = fmt_id d.rustdesk_id;
    branch = branch_name (branch_of d bs);
    removed = text "Removido " ++ fmt_last_seen d.deleted_at;
    restore = text "Restaurar";
    purge = text "Excluir permanentemente";
  }

  abbrev pub tags_for : DevicesPage → Device → List Tag
  tags_for p d = or_default (lookup d.id p.device_tag_map) []

  abbrev pub view_of : ViewMode → DevicesPage → ListBody
  view_of grid p = cards (map (λ d. device_card p.branches (tags_for p d) d) p.devices)
  view_of list p = rows (map (device_row p.branches) p.devices)
  view_of compact p = compact_rows (map (compact_row p.branches) p.devices)

  unfoldable pub body : DevicesPage → ListBody
  unfolding device_card device_row compact_row trash_card lookup
  body p =
      if p.show_trash
      then (if is_empty p.devices
          then empty_trash
          else trash_cards (map (trash_card p.branches) p.devices))
      else if is_empty p.devices
      then no_devices
      else view_of p.view_mode p

abbrev plural_s : ℕ → Text
plural_s n = if n == 1 then [] else text "s"

-- The line below the title
unfoldable pub summary_line : DevicesPage → Text
unfolding decimal count_online
summary_line p =
    let total = length p.devices in
    if p.show_trash
    then decimal total ++ text " na lixeira · Restaure ou exclua permanentemente"
    else decimal total
      ++ text " dispositivo"
      ++ plural_s total
      ++ text " · "
      ++ decimal (count_online p)
      ++ text " online·Clique em um card para configurar"
