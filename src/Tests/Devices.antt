-- ===== src/Tests/Devices.antt =====
-- The devices page at concrete inputs.
use mathlib.Core.List.{Perm}
use rustdesk_plus.Api.Types.{Device, DeviceTagRow}
use rustdesk_plus.Common.{
  All, Bool, List, Option, [], all, arith, false, filter, leb, length, none, or_default, refl, some,
  true, ℕ, ◌++◌, ◌∷◌, ◌≡◌,
}
use rustdesk_plus.Common.Dict.{lookup}
use rustdesk_plus.Common.Int.{pos, ℤ}
use rustdesk_plus.Common.Percent.{
  IsPlain, code_points, encode_bytes, encode_component, encode_points, is_component_char,
  is_component_safe, percent_byte, utf8,
}
use rustdesk_plus.Common.Percent.Decode.{decode_component, to_units}
use rustdesk_plus.Common.Sort.{IsSorted, IsTotal, IsTransitive, sort}
use rustdesk_plus.Common.Text.{Text, is_space, keep, text, text_eq, trim, trim_end, trim_start}
use rustdesk_plus.Devices.Ids.{
  connect_device, connect_device-password, fmt_id, is_numeric_id, open_window, register_launch,
}
use rustdesk_plus.Devices.Load.{
  DevicesPage, all_devices, arrange, before_by, by_name, by_status, list, tag_map, tag_of_row,
}
use rustdesk_plus.Devices.Load.Order.{arrange_lem, is_favorite, leb_total, other_device}
use rustdesk_plus.Devices.Load.Tags.{lookup-tag_map}

abbrev pub device_of : Text → Bool → Bool → Device
device_of id liked up = record {
  id = id;
  rustdesk_id = text "123456789";
  uuid = id;
  hostname = some (text "PC-1");
  os = some (text "Windows 11");
  alias = none;
  description = none;
  favorite = liked;
  ip_address = none;
  online_since = none;
  branch_id = none;
  owner_user_id = none;
  tenant_id = none;
  last_seen_at = none;
  online = up;
  created_at = [];
  deleted_at = none;
}

abbrev pub four : List Device
four =
    device_of (text "a") false true
    ∷ device_of (text "b") true false
    ∷ device_of (text "c") false false
    ∷ device_of (text "d") true true
    ∷ []

-- Texts by their length.
abbrev pub shorter : Text → Text → Bool
shorter a b = leb (length a) (length b)

abbrev pub no_time : Option Text → ℕ
no_time t = 0

shorter-IsTotal : IsTotal shorter
shorter-IsTotal a b = leb_total (length a) (length b)

shorter-IsTransitive : IsTransitive shorter
shorter-IsTransitive a b c h k = ground arith

arrange_lem_example :
    let sorted = sort (before_by shorter no_time by_name) four in
    let favorites = filter is_favorite sorted in
    let rest = filter other_device sorted in
    (arrange shorter no_time by_name four ≡ favorites ++ rest)
    × Perm (arrange shorter no_time by_name four) four
    × IsSorted (before_by shorter no_time by_name) favorites
    × IsSorted (before_by shorter no_time by_name) rest
arrange_lem_example = arrange_lem shorter no_time by_name four shorter-IsTotal shorter-IsTransitive

abbrev row_of : Text → Text → DeviceTagRow
row_of device label = record {
  device_id = device;
  tag_id = label;
  name = label;
  color = text "#fff";
}

abbrev rows : List DeviceTagRow
rows =
    row_of (text "a") (text "x") ∷ row_of (text "b") (text "x") ∷ row_of (text "a") (text "y") ∷ []

lookup-tag_map_example :
    or_default (lookup (text "a") (tag_map rows)) []
    ≡ tag_of_row (row_of (text "a") (text "x")) ∷ tag_of_row (row_of (text "a") (text "y")) ∷ []
unfolding text_eq
lookup-tag_map_example = lookup-tag_map (text "a") rows

groups : fmt_id (text "123456789") ≡ text "123 456 789"
unfolding fmt_id
groups = refl

numeric : is_numeric_id (text "123456789") ≡ true
unfolding is_numeric_id trim trim_start trim_end keep is_space
numeric = refl

plain : All IsPlain (text "a&b")
plain = ground arith

connect_device-password_example :
    (t : Text) × (connect_device (text "d1") (text "123456789") (some (text "a&b"))
      ≡ register_launch (text "d1")
        ∷ open_window (text "rustdesk://" ++ text "123456789" ++ text "?password=" ++ t)
        ∷ [])
    × (all is_component_char t ≡ true)
    × (to_units (decode_component t) ≡ text "a&b")
connect_device-password_example =
    connect_device-password (text "d1") (text "123456789") 97 (text "&b") numeric plain

encoded : encode_component (text "a&b") ≡ some (text "a%26b")
unfolding encode_component encode_points code_points encode_bytes utf8 is_component_safe
    percent_byte
encoded = refl

abbrev ninety : Text → Option ℤ
ninety s = some (pos 5400000)

abbrev pub page : DevicesPage
page = record {
  devices = four;
  branches = [];
  search = [];
  branch_filter = [];
  status_filter = all_devices;
  sort_key = by_status;
  view_mode = list;
  selected = none;
  device_tag_map = [];
  error = none;
  rd_password = [];
  show_trash = false;
}

abbrev as_it_is : Text → Text
as_it_is s = s
