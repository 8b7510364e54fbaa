-- ===== src/Admin/Overview/Cards.antt =====
-- `SuperAdminDashboard` of dashboard/page.tsx: the tenants, their cards and the totals above them.
-- `percent_of` is `Math.round((online / total) * 100)` on the numbers of JavaScript.
use rustdesk_plus.Admin.Overview.{total, total_devices, total_online, total_users}
use rustdesk_plus.Api.Types.{Tenant}
use rustdesk_plus.Common.{
  Bool, List, Option, [], arith, false, get_elem?, if◌then◌else◌, is_empty, length, ltb, map, none,
  or_default, refl, some, sym, ℕ, ◌+◌, ◌∷◌, ◌≡◌,
}
use rustdesk_plus.Common.Int.{pos, sub_ℕ, ℤ, ◌+ℤ◌}
use rustdesk_plus.Common.Text.{Text, decimal, text}

pub record TenantsBoard : Type 0 where
  pub tenants : List Tenant
  pub loading : Bool

unfoldable pub on_board_tenants : List Tenant → TenantsBoard → TenantsBoard
on_board_tenants ts b = record { tenants = ts; loading = false }

-- The first call fails.
unfoldable pub on_board_failed : TenantsBoard → TenantsBoard
on_board_failed b = record b { loading = false }

-- The call of the interval is answered.
unfoldable pub on_board_again : List Tenant → TenantsBoard → TenantsBoard
on_board_again ts b = record b { tenants = ts }

unfoldable pub offline_of : Tenant → ℤ
offline_of t = sub_ℕ (or_default t.device_count 0) (or_default t.online_count 0)

-- The line of the four totals
unfoldable pub total_texts : TenantsBoard → List (Text × Text)
unfolding total_devices total_online total_users decimal
total_texts b =
    let shown : ℕ → Text = λ n. if b.loading then text "—" else decimal n in
    (text "Clientes", shown (length b.tenants))
    ∷ (text "Dispositivos", shown (total_devices b.tenants))
    ∷ (text "Online agora", shown (total_online b.tenants))
    ∷ (text "Usuários", shown (total_users b.tenants))
    ∷ []

-- A card; `initial` is the first character of the name, before `toUpperCase`, which the source does
-- not find in an empty name.
pub record TenantCard : Type 0 where
  pub initial : Option ℕ
  pub name : Text
  pub slug : Text
  pub pulse : Bool
  pub whole : ℕ
  pub online : ℕ
  pub offline : ℤ
  pub percentage : Option ℕ
  pub link_texts : List Text

pub data BoardView : Type 0 where
  board_loading no_clients : BoardView
  board_cards : List TenantCard → BoardView

pub record OverviewView : Type 0 where
  pub date : Text
  pub title : Text
  pub totals : List (Text × Text)
  pub board : BoardView

module _ (percent_of : ℕ → ℕ → ℕ) where
  unfoldable pub tenant_card : Tenant → TenantCard
  unfolding offline_of
  tenant_card t =
      let whole = or_default t.device_count 0 in
      let online = or_default t.online_count 0 in
      record {
        initial = get_elem? t.name 0;
        name = t.name;
        slug = t.slug;
        pulse = ltb 0 online;
        whole = whole;
        online = online;
        offline = offline_of t;
        percentage = if ltb 0 whole then some (percent_of online whole) else none;
        link_texts = text "Ver dispositivos" ∷ text "Terminal" ∷ [];
      }

  unfoldable pub board_view : TenantsBoard → BoardView
  unfolding tenant_card
  board_view b =
      if b.loading
      then board_loading
      else if is_empty b.tenants
      then no_clients
      else board_cards (map tenant_card b.tenants)

  -- The whole overview: the date, the totals and the cards.
  unfoldable pub overview_view : Text → TenantsBoard → OverviewView
  unfolding total_texts board_view
  overview_view today b = record {
    date = today;
    title = text "Visão Geral";
    totals = total_texts b;
    board = board_view b;
  }

  abbrev pub sum : (TenantCard → ℕ) → List TenantCard → ℕ
  sum count [] = 0
  sum count (c ∷ cs) = count c + sum count cs

  sum-total :
      (count : Tenant → Option ℕ) (shown : TenantCard → ℕ)
      → ((t : Tenant) → shown (tenant_card t) ≡ or_default (count t) 0)
      → (ts : List Tenant) → sum shown (map tenant_card ts) ≡ total count ts
  unfolding total
  sum-total count shown same [] = refl
  sum-total count shown same (t ∷ ts) = rw (same t, sum-total count shown same ts)

  -- The totals above the cards are the sums of the numbers on them, and on each card the devices
  -- online and offline add up to all of the tenant, also where more are online than there are.
  pub tenant_card-totals :
      (ts : List Tenant) (t : Tenant)
      → (total_devices ts ≡ sum (λ c. c.whole) (map tenant_card ts))
        × (total_online ts ≡ sum (λ c. c.online) (map tenant_card ts))
        × (pos (tenant_card t).online +ℤ (tenant_card t).offline ≡ pos (tenant_card t).whole)
  unfolding tenant_card total_devices total_online offline_of ◌+ℤ◌
  tenant_card-totals ts t = (
    sym (sum-total (λ t. t.device_count) (λ c. c.whole) (λ t. refl) ts),
    sym (sum-total (λ t. t.online_count) (λ c. c.online) (λ t. refl) ts),
    ground arith,
  )
