-- ===== src/Shell/Menu.antt =====
-- The menu (layout.tsx), as the addresses of its items.
use rustdesk_plus.Common.{Bool, List, Option, [], filter, if◌then◌else◌, not, ◌∷◌}
use rustdesk_plus.Common.Text.{Text, includes, text, truthy}

unfoldable pub nav_items : List Text
nav_items =
    text "/dashboard"
    ∷ text "/devices"
    ∷ text "/audit"
    ∷ text "/terminal"
    ∷ text "/scripts"
    ∷ text "/branches"
    ∷ text "/users"
    ∷ text "/custom-client"
    ∷ text "/settings"
    ∷ []

unfoldable pub super_admin_nav_items : List Text
super_admin_nav_items =
    text "/tenants" ∷ text "/dashboard" ∷ text "/terminal" ∷ text "/settings" ∷ []

-- `allNavItems`
unfoldable pub all_nav_items : Bool → Option Text → List Text
unfolding nav_items super_admin_nav_items
all_nav_items super name =
    if super
    then (if truthy name then text "/tenants" ∷ nav_items else super_admin_nav_items)
    else nav_items

abbrev agent_hrefs : List Text
agent_hrefs = text "/terminal" ∷ text "/scripts" ∷ []

abbrev pub needs_no_agent : Text → Bool
needs_no_agent href = not (includes href agent_hrefs)

unfoldable pub visible_nav_items : Bool → Bool → Option Text → List Text
unfolding all_nav_items includes
visible_nav_items agent_enabled super name =
    if agent_enabled
    then all_nav_items super name
    else filter needs_no_agent (all_nav_items super name)
