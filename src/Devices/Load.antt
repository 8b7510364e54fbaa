-- ===== src/Devices/Load.antt =====
-- `DevicesPage` of devices/page.tsx: its state, the query, and what is made of the answers.
pub mod Tags
pub mod Order
pub mod Asked
use rustdesk_plus.Api.Queries.{ListFilter}
use rustdesk_plus.Api.Types.{Branch, Device, DeviceTagRow, Tag}
use rustdesk_plus.Common.{
  Bool, List, Option, [], false, filter, if◌then◌else◌, leb, length, none, not, or_default, some,
  true, ℕ, ◌++◌, ◌||◌, ◌∷◌,
}
use rustdesk_plus.Common.Dict.{insert, lookup}
use rustdesk_plus.Common.Sort.{sort}
use rustdesk_plus.Common.Text.{Text, text}
use rustdesk_plus.Devices.Show.{display_name}

pub data Filter : Type 0 where
  all_devices online offline favorites : Filter

pub data SortKey : Type 0 where
  by_name by_status by_last_seen by_branch : SortKey

pub data ViewMode : Type 0 where
  grid list compact : ViewMode

-- The hooks of the page.
pub record DevicesPage : Type 0 where
  pub devices : List Device
  pub branches : List Branch
  pub search : Text
  pub branch_filter : Text
  pub status_filter : Filter
  pub sort_key : SortKey
  pub view_mode : ViewMode
  pub selected : Option Device
  pub device_tag_map : List (Text × List Tag)
  pub error : Option Text
  pub rd_password : Text
  pub show_trash : Bool

-- `if (v) f.k = v`
abbrev pub given : Text → Option Text
given [] = none
given (c ∷ s) = some (c ∷ s)

abbrev pub online_of : Filter → Option Bool
online_of online = some true
online_of offline = some false
online_of all_devices = none
online_of favorites = none

abbrev pub favorite_of : Filter → Option Bool
favorite_of favorites = some true
favorite_of all_devices = none
favorite_of online = none
favorite_of offline = none

unfoldable pub filter_of : DevicesPage → ListFilter
filter_of p =
    if p.show_trash
    then record {
      branch_id = none;
      search = given p.search;
      online = none;
      favorite = none;
      deleted = some true;
    }
    else record {
      branch_id = given p.branch_filter;
      search = given p.search;
      online = online_of p.status_filter;
      favorite = favorite_of p.status_filter;
      deleted = none;
    }

-- The tag that a row of `getAllDeviceTags` adds.
abbrev pub tag_of_row : DeviceTagRow → Tag
tag_of_row r = record {
  id = r.tag_id;
  name = r.name;
  color = r.color;
  tenant_id = none;
  created_at = [];
}

-- One round of the loop over the rows: the key is made where it is missing, and the tag pushed.
unfoldable pub push_row : DeviceTagRow → List (Text × List Tag) → List (Text × List Tag)
unfolding lookup insert
push_row r m = insert r.device_id (or_default (lookup r.device_id m) [] ++ tag_of_row r ∷ []) m

unfoldable pub push_rows : List DeviceTagRow → List (Text × List Tag) → List (Text × List Tag)
unfolding push_row
push_rows [] m = m
push_rows (r ∷ rs) m = push_rows rs (push_row r m)

unfoldable pub tag_map : List DeviceTagRow → List (Text × List Tag)
unfolding push_rows
tag_map rs = push_rows rs []

-- `localeCompare(a, b) <= 0` and `new Date(t ?? 0).getTime()`, in milliseconds.
module _ (locale_before : Text → Text → Bool) (time_of : Option Text → ℕ) where
  -- compare(a, b) ≤ 0, for the comparator of the first sort.
  unfoldable pub before_by : SortKey → Device → Device → Bool
  unfolding display_name
  before_by by_status a b = not b.online || a.online
  before_by by_name a b = locale_before (display_name a) (display_name b)
  before_by by_last_seen a b = leb (time_of b.last_seen_at) (time_of a.last_seen_at)
  before_by by_branch a b =
      locale_before (or_default a.branch_id (text "zzz")) (or_default b.branch_id (text "zzz"))

  -- compare(a, b) ≤ 0, for the comparator of the second sort.
  unfoldable pub favorites_first : Device → Device → Bool
  favorites_first a b = not b.favorite || a.favorite

  unfoldable pub arrange : SortKey → List Device → List Device
  unfolding sort before_by favorites_first
  arrange key d = sort favorites_first (sort (before_by key) d)

  -- The end of `load`: the answers are in.
  unfoldable pub on_loaded :
      SortKey → List Device → List Branch → List DeviceTagRow → DevicesPage → DevicesPage
  unfolding arrange tag_map
  on_loaded key d b rows p = record p {
    devices = arrange key d;
    branches = b;
    device_tag_map = tag_map rows;
  }

unfoldable pub on_load_failed : Text → DevicesPage → DevicesPage
on_load_failed message p = record p { error = some message }

abbrev pub is_online : Device → Bool
is_online d = d.online

-- `onlineCount`
unfoldable pub count_online : DevicesPage → ℕ
count_online p = length (filter is_online p.devices)
