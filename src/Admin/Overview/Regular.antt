-- ===== src/Admin/Overview/Regular.antt =====
-- `RegularDashboard` of dashboard/page.tsx: the numbers of one tenant and its devices online.
use rustdesk_plus.Api.DeviceCalls.{get_stats}
use rustdesk_plus.Api.Http.{Call}
use rustdesk_plus.Api.Queries.{ListFilter, list_devices}
use rustdesk_plus.Api.Types.{Device}
use rustdesk_plus.Common.{
  List, Option, [], if◌then◌else◌, is_empty, length, map, none, or_default, some, take, true, ℕ,
  ◌++◌, ◌∷◌,
}
use rustdesk_plus.Common.Text.{Text, decimal, text}
use rustdesk_plus.Devices.Show.{display_name}

-- `Stats` of api.ts
pub record Stats : Type 0 where
  pub total_devices : ℕ
  pub online_devices : ℕ
  pub offline_devices : ℕ
  pub total_branches : ℕ
  pub total_users : ℕ

pub record Regular : Type 0 where
  pub stats : Option Stats
  pub online : List Device

abbrev only_online : ListFilter
only_online = record {
  branch_id = none;
  search = none;
  online = some true;
  favorite = none;
  deleted = none;
}

-- The two calls of `load`
unfoldable pub regular_calls : List Call
unfolding get_stats list_devices
regular_calls = get_stats ∷ list_devices only_online ∷ []

-- The end of `load`; where a call fails, nothing changes.
unfoldable pub on_regular : Stats → List Device → Regular → Regular
on_regular s d r = record { stats = some s; online = take 8 d }

pub data StatKey : Type 0 where
  devices_key online_key offline_key branches_key users_key : StatKey

pub record StatCard : Type 0 where
  pub key : StatKey
  pub label : Text

unfoldable pub stat_cards : List StatCard
stat_cards =
    record { key = devices_key; label = text "Dispositivos" }
    ∷ record { key = online_key; label = text "Online agora" }
    ∷ record { key = offline_key; label = text "Offline" }
    ∷ record { key = branches_key; label = text "Filiais" }
    ∷ record { key = users_key; label = text "Usuários" }
    ∷ []

abbrev pub stat_of : StatKey → Stats → ℕ
stat_of devices_key s = s.total_devices
stat_of online_key s = s.online_devices
stat_of offline_key s = s.offline_devices
stat_of branches_key s = s.total_branches
stat_of users_key s = s.total_users

-- `stats?.[key] ?? "—"`
unfoldable pub stat_text : Option Stats → StatKey → Text
unfolding decimal
stat_text none k = text "—"
stat_text (some s) k = decimal (stat_of k s)

unfoldable pub stat_lines : Option Stats → List (Text × Text)
unfolding stat_text stat_cards
stat_lines s = map (λ c. (c.label, stat_text s c.key)) stat_cards

abbrev os_part : Option Text → Text
os_part none = []
os_part (some []) = []
os_part (some (c ∷ os)) = text " · " ++ (c ∷ os)

-- The two lines of a device
unfoldable pub online_line : Device → Text × Text
unfolding display_name
online_line d = (display_name d, or_default d.ip_address d.rustdesk_id ++ os_part d.os)

-- What is drawn: the date, the numbers, how many devices are listed, and those.
pub record RegularView : Type 0 where
  pub date : Text
  pub title : Text
  pub numbers : List (Text × Text)
  pub listed : Text
  pub lines : List (Text × Text)
  pub nobody_online : Option Text

unfoldable pub regular_view : Text → Regular → RegularView
unfolding stat_lines online_line decimal
regular_view today r = record {
  date = today;
  title = text "Bem‑vindo!";
  numbers = stat_lines r.stats;
  listed = decimal (length r.online);
  lines = map online_line r.online;
  nobody_online = if is_empty r.online then some (text "Nenhum dispositivo online agora") else none;
}
