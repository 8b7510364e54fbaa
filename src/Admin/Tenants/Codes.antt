-- ===== src/Admin/Tenants/Codes.antt =====
-- The list of `TenantsPage` (tenants/page.tsx): the form, the counts, and the install codes, which
-- are hidden until they are asked for.
use rustdesk_plus.Admin.Tenants.{TenantsPage, slugify}
use rustdesk_plus.Api.Types.{Tenant}
use rustdesk_plus.Common.{
  Bool, List, Option, [], ap, arith, false, if◌then◌else◌, is_empty, none, not, or_default, refl,
  some, ℕ, ◌++◌, ◌||◌, ◌∙◌, ◌∷◌, ◌≡◌,
}
use rustdesk_plus.Common.Dict.{insert, lookup, lookup-insert}
use rustdesk_plus.Common.Text.{Text, text, text_eq}

-- The name that is typed makes the slug, which can be typed over.
unfoldable pub type_tenant_name : Text → TenantsPage → TenantsPage
unfolding slugify
type_tenant_name s p = record p { new_name = s; new_slug = slugify s }

unfoldable pub type_slug : Text → TenantsPage → TenantsPage
type_slug s p = record p { new_slug = s }

unfoldable pub toggle_creating : TenantsPage → TenantsPage
toggle_creating p = record p { creating = not p.creating }

-- `showCode`, as the keys with their values; a missing key is undefined.
unfoldable pub is_shown : Text → List (Text × Bool) → Bool
unfolding lookup
is_shown id shown = or_default (lookup id shown) false

-- `{ ...v, [t.id]: !v[t.id] }`
unfoldable pub toggle_code : Text → List (Text × Bool) → List (Text × Bool)
unfolding is_shown insert
toggle_code id shown = insert id (not (is_shown id shown)) shown

abbrev pub hidden_code : Text
hidden_code = text "••••••••"

pub record CodeView : Type 0 where
  pub code : Text
  pub switch : Text
  pub copied : Text

abbrev pub install_command : Text → Text → Text
install_command url code = text "irm \"" ++ url ++ text "/i/" ++ code ++ text "\" | iex"

-- The part of a tenant's card with the code, where there is a code and an address.
unfoldable pub code_view : TenantsPage → List (Text × Bool) → Text → Option CodeView
unfolding lookup is_shown
code_view p shown id =
    let code = or_default (lookup id p.install_codes) [] in
    if is_empty code || is_empty p.api_url
    then none
    else some (record {
      code = if is_shown id shown then code else hidden_code;
      switch = if is_shown id shown then text "ocultar" else text "ver";
      copied = install_command p.api_url code;
    })

pub record TenantRow : Type 0 where
  pub name : Text
  pub slug : Text
  pub devices : ℕ
  pub online : ℕ
  pub users : ℕ
  pub code : Option CodeView

unfoldable pub tenant_row : TenantsPage → List (Text × Bool) → Tenant → TenantRow
unfolding code_view
tenant_row p shown t = record {
  name = t.name;
  slug = t.slug;
  devices = or_default t.device_count 0;
  online = or_default t.online_count 0;
  users = or_default t.user_count 0;
  code = code_view p shown t.id;
}

is_shown-toggle :
    (id j : Text) (shown : List (Text × Bool))
    → is_shown j (toggle_code id shown)
      ≡ (if text_eq id j then not (is_shown id shown) else is_shown j shown)
unfolding is_shown toggle_code
is_shown-toggle id j shown =
    ground (arith, lookup-insert id j (not (or_default (lookup id shown) false)) shown)

abbrev shown_code : Option CodeView → Option Text
shown_code none = none
shown_code (some v) = some v.code

code_view-shown :
    (p : TenantsPage) (shown : List (Text × Bool)) (id : Text) (c : ℕ) (code : Text) (u : ℕ)
    (url : Text)
    → lookup id p.install_codes ≡ some (c ∷ code)
    → p.api_url ≡ u ∷ url
    → shown_code (code_view p shown id) ≡ some (if is_shown id shown then c ∷ code else hidden_code)
unfolding code_view
code_view-shown p shown id c code u url h k = rw (h, k) refl

nothing_shown :
    (id code : Text) → some (if is_shown id [] then code else hidden_code) ≡ some hidden_code
unfolding is_shown lookup
nothing_shown id code = refl

-- A code that is there is hidden at first; a click on the switch of its tenant shows it and another
-- one hides it again, and a click on the switch of another tenant does neither.
pub toggle_code-shows :
    (p : TenantsPage) (shown : List (Text × Bool)) (id j : Text) (c : ℕ) (code : Text) (u : ℕ)
    (url : Text)
    → lookup id p.install_codes ≡ some (c ∷ code)
    → p.api_url ≡ u ∷ url
    → (shown_code (code_view p [] id) ≡ some hidden_code)
      × (shown_code (code_view p (toggle_code j shown) id)
          ≡ some (
              if (if text_eq j id then not (is_shown j shown) else is_shown id shown)
              then c ∷ code
              else hidden_code))
toggle_code-shows p shown id j c code u url h k = (
  code_view-shown p [] id c code u url h k ∙ nothing_shown id (c ∷ code),
  code_view-shown p (toggle_code j shown) id c code u url h k
      ∙ ap (λ b. some (if b then c ∷ code else hidden_code)) (is_shown-toggle j id shown),
)
