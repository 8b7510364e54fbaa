-- ===== src/Admin/Tenants/View.antt =====
-- What `TenantsPage` draws (tenants/page.tsx).
use rustdesk_plus.Admin.Buttons.{Submit, toggle_label}
use rustdesk_plus.Admin.Tenants.{TenantsPage}
use rustdesk_plus.Admin.Tenants.Codes.{TenantRow, tenant_row}
use rustdesk_plus.Admin.Users.Form.{many}
use rustdesk_plus.Common.{
  Bool, List, Option, if◌then◌else◌, is_empty, length, map, none, not, some, ◌&&◌, ◌++◌,
}
use rustdesk_plus.Common.Text.{Text, decimal, text}

pub record TenantFormView : Type 0 where
  pub name : Text
  pub slug : Text
  pub send : Submit

unfoldable pub tenant_form_view : TenantsPage → TenantFormView
tenant_form_view p = record {
  name = p.new_name;
  slug = p.new_slug;
  send = record {
    label = if p.saving then text "Criando..." else text "Criar cliente";
    disabled = p.saving;
  };
}

unfoldable pub tenants_line : TenantsPage → Text
unfolding decimal
tenants_line p =
    let n = length p.tenants in
    decimal n ++ text " cliente" ++ many n ++ text " cadastrado" ++ many n

pub record TenantsView : Type 0 where
  pub line : Text
  pub toggle : Text
  pub error : Option Text
  pub tenant_form : Option TenantFormView
  pub rows : List TenantRow
  pub note : Option Text

unfoldable pub tenants_view : TenantsPage → List (Text × Bool) → TenantsView
unfolding tenants_line tenant_form_view tenant_row
tenants_view p shown = record {
  line = tenants_line p;
  toggle = toggle_label p.creating (text "+ Novo cliente");
  error = p.error;
  tenant_form = if p.creating then some (tenant_form_view p) else none;
  rows = map (tenant_row p shown) p.tenants;
  note = if is_empty p.tenants && not p.creating then some (text "Nenhum cliente ainda") else none;
}
