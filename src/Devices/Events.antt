-- ===== src/Devices/Events.antt =====
-- The handlers of `DevicesPage` that its controls call (devices/page.tsx), and its two effects.
pub mod Reloads
pub mod Sync
use rustdesk_plus.Api.Queries.{ListFilter}
use rustdesk_plus.Api.Types.{Device}
use rustdesk_plus.Common.{
  Bool, Option, [], false, if◌then◌else◌, none, not, or_default, some, true, ◌&&◌,
}
use rustdesk_plus.Common.Text.{Text, text_eq}
use rustdesk_plus.Devices.Load.{
  DevicesPage, Filter, SortKey, ViewMode, all_devices, by_branch, by_last_seen, by_name, by_status,
  favorites, filter_of, offline, online,
}

pub data DevicesEvent : Type 0 where
  search_typed branch_picked : Text → DevicesEvent
  status_picked : Filter → DevicesEvent
  sort_picked : SortKey → DevicesEvent
  view_picked : ViewMode → DevicesEvent
  trash_toggled : DevicesEvent
  device_clicked : Device → DevicesEvent
  dialog_closed dialog_refreshed : DevicesEvent
  password_answered : Option Text → DevicesEvent

unfoldable pub handle : DevicesPage → DevicesEvent → DevicesPage
handle p (search_typed s) = record p { search = s }
handle p (branch_picked id) = record p { branch_filter = id }
handle p (status_picked f) = record p { status_filter = f }
handle p (sort_picked k) = record p { sort_key = k }
handle p (view_picked m) = record p { view_mode = m }
handle p trash_toggled = record p { show_trash = not p.show_trash }
handle p (device_clicked d) = record p { selected = some d }
handle p dialog_closed = record p { selected = none }
handle p dialog_refreshed = record p { selected = none }
handle p (password_answered s) = record p { rd_password = or_default s [] }

abbrev pub filter_eq : Filter → Filter → Bool
filter_eq all_devices all_devices = true
filter_eq online online = true
filter_eq offline offline = true
filter_eq favorites favorites = true
filter_eq f g = false

abbrev pub sort_eq : SortKey → SortKey → Bool
sort_eq by_name by_name = true
sort_eq by_status by_status = true
sort_eq by_last_seen by_last_seen = true
sort_eq by_branch by_branch = true
sort_eq k l = false

abbrev pub bool_eq : Bool → Bool → Bool
bool_eq true b = b
bool_eq false b = not b

-- The dependencies of the effect that loads the list are the same in both drawings.
unfoldable pub same_deps : DevicesPage → DevicesPage → Bool
unfolding text_eq
same_deps p q =
    text_eq p.branch_filter q.branch_filter
    && text_eq p.search q.search
    && filter_eq p.status_filter q.status_filter
    && sort_eq p.sort_key q.sort_key
    && bool_eq p.show_trash q.show_trash

abbrev pub refreshes : DevicesEvent → Bool
refreshes dialog_refreshed = true
refreshes e = false

-- The request that an event sends at once: the handler's own, which still sees the old drawing, or
-- that of the effect, which sees the new one.
unfoldable pub request_of : DevicesPage → DevicesEvent → Option ListFilter
unfolding handle same_deps filter_of
request_of p e =
    if refreshes e
    then some (filter_of p)
    else if same_deps p (handle p e)
    then none
    else some (filter_of (handle p e))
