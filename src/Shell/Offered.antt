-- ===== src/Shell/Offered.antt =====
-- What the menu offers (layout.tsx).
use rustdesk_plus.Api.Http.{plain}
use rustdesk_plus.Api.Session.{
  Browser, get_active_tenant_name, get_stored_user, set_active_tenant, set_active_tenant_id, stored,
}
use rustdesk_plus.Common.{
  All, All-filter, All-intro, All-mono, Bool, Bool-cases, Option, [], arith, false, if◌then◌else◌,
  inl, inr, none, refl, some, true, ◌&&◌, ◌∷◌, ◌≡◌, ◌⊎◌,
}
use rustdesk_plus.Common.Text.{Text, starts_with, text, text_eq, truthy}
use rustdesk_plus.Shell.Access.{guard_lem}
use rustdesk_plus.Shell.Guard.{
  Layout, Verdict, admitted, free_pages, guard, is_free, is_super, is_under, on_path, to_login,
  to_tenants,
}
use rustdesk_plus.Shell.Menu.{
  all_nav_items, nav_items, needs_no_agent, super_admin_nav_items, visible_nav_items,
}

-- A tenant that has a name in the browser has an id there.
abbrev pub HasId : Browser → Type 0
HasId b = truthy b.tenant_name ≡ true → truthy b.tenant_id ≡ true

stored_id :
    (i name : Option Text)
    → truthy (if truthy i && truthy name then name else none) ≡ true
    → truthy (stored i) ≡ true
stored_id none name h = ground arith
stored_id (some []) name h = ground arith
stored_id (some (c ∷ i)) name h = refl

-- Whatever tenant is set, in a browser, or none: one that has a name there has an id.
pub set_active_tenant-HasId :
    (i name : Option Text) (b : Browser) → b.window ≡ true → HasId (set_active_tenant i name b)
unfolding set_active_tenant set_active_tenant_id
set_active_tenant-HasId i name b w = rw w (stored_id i name)

pages_free : All (λ href. is_free href ≡ true) super_admin_nav_items
unfolding is_free free_pages is_under super_admin_nav_items text_eq starts_with
pages_free = (refl, (refl, (refl, (refl, tt))))

abbrev Admits : Browser → Text → Type 0
Admits b href = guard b href ≡ admitted

admits :
    (b : Browser) (href : Text)
    → b.window ≡ true
    → truthy b.token ≡ true
    → (is_super b.user ≡ false) ⊎ ((truthy b.tenant_id ≡ true) ⊎ (is_free href ≡ true))
    → Admits b href
admits b href w signed h = (guard_lem b href w).1.1 (signed, h)

offered :
    (b : Browser)
    → b.window ≡ true
    → truthy b.token ≡ true
    → HasId b
    → All (Admits b) (all_nav_items (is_super b.user) b.tenant_name)
unfolding all_nav_items
offered b w signed named = elim (Bool-cases (is_super b.user)) [
  | inl super ↦ elim (Bool-cases (truthy b.tenant_name)) [
    | inl chosen ↦
        rw (super, chosen)
          (All-intro (Admits b) (λ href. admits b href w signed (inr (inl (named chosen))))
            (text "/tenants" ∷ nav_items))
    | inr free ↦
        rw (super, free)
          (All-mono (λ href page. admits b href w signed (inr (inr page))) super_admin_nav_items
            pages_free)
  ]
  | inr plain ↦
      rw plain (All-intro (Admits b) (λ href. admits b href w signed (inl plain)) nav_items)
]

menu_admitted :
    (b : Browser) (agent_enabled : Bool)
    → b.window ≡ true
    → truthy b.token ≡ true
    → HasId b
    → All (Admits b) (visible_nav_items agent_enabled (is_super b.user) b.tenant_name)
unfolding visible_nav_items
menu_admitted b true w signed named = offered b w signed named
menu_admitted b false w signed named =
    All-filter (Admits b) needs_no_agent (all_nav_items (is_super b.user) b.tenant_name)
      (offered b w signed named)

name_kept : (b : Browser) → b.window ≡ true → get_active_tenant_name b ≡ b.tenant_name
unfolding get_active_tenant_name
name_kept b w = rw w

verdict_cases : (v : Verdict) → (v ≡ admitted) ⊎ ((v ≡ to_login) ⊎ (v ≡ to_tenants))
verdict_cases admitted = inl refl
verdict_cases to_login = inr (inl refl)
verdict_cases to_tenants = inr (inr refl)

on_path-name :
    (b : Browser) (path : Text) (l : Layout)
    → (on_path b path l).active_tenant_name ≡ get_active_tenant_name b
unfolding on_path
on_path-name b path l = elim (verdict_cases (guard b path)) [
  | inl v ↦ rw (v, on_path) refl
  | inr (inl v) ↦ rw (v, on_path) refl
  | inr (inr v) ↦ rw (v, on_path) refl
]

user_kept : (b : Browser) → b.window ≡ true → get_stored_user b ≡ b.user
unfolding get_stored_user
user_kept b w = rw w

-- Once the effects on a path have run, each page that the menu offers to whoever has a token in a
-- browser is one that the guard admits as long as the session does not change, be the agent enabled
-- or not, if a tenant that has a name in the browser has an id there.
pub visible_nav_items-admitted :
    (b : Browser) (path : Text) (l : Layout)
    → b.window ≡ true
    → truthy b.token ≡ true
    → HasId b
    → let drawn = on_path b path l in
      All
        (λ href. guard b href ≡ admitted)
        (visible_nav_items drawn.agent_enabled
          (is_super (get_stored_user b))
          drawn.active_tenant_name)
visible_nav_items-admitted b path l w signed named =
    rw (on_path-name b path l, user_kept b w, name_kept b w)
      (menu_admitted b (on_path b path l).agent_enabled w signed named)
