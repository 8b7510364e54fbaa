-- ===== src/Admin/Overview.antt =====
-- The overview (dashboard/page.tsx): which of the two is shown, and the totals of the tenants.
pub mod Regular
pub mod Cards
pub mod Links
use rustdesk_plus.Api.Session.{Browser, get_active_tenant_id, get_stored_user, is_super_admin}
use rustdesk_plus.Api.Types.{Tenant}
use rustdesk_plus.Common.{
  Bool, List, Option, [], false, none, not, or_default, some, ℕ, ◌&&◌, ◌+◌, ◌∷◌,
}
use rustdesk_plus.Common.Text.{truthy}

unfoldable pub shows_tenants : Browser → Bool
unfolding get_stored_user get_active_tenant_id is_super_admin
shows_tenants b = elim (get_stored_user b) [
  | none ↦ false
  | some u ↦ is_super_admin u && not (truthy (get_active_tenant_id b))
]

unfoldable pub total {ℓ} : {A : Type ℓ} → (A → Option ℕ) → List A → ℕ
total count [] = 0
total count (t ∷ ts) = or_default (count t) 0 + total count ts

unfoldable pub total_devices : List Tenant → ℕ
unfolding total
total_devices ts = total (λ t. t.device_count) ts

unfoldable pub total_online : List Tenant → ℕ
unfolding total
total_online ts = total (λ t. t.online_count) ts

unfoldable pub total_users : List Tenant → ℕ
unfolding total
total_users ts = total (λ t. t.user_count) ts
