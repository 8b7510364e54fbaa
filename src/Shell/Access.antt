-- ===== src/Shell/Access.antt =====
-- Where the guard leads (layout.tsx), and what ends a session (api.ts).
use mathlib.Core.Option
use rustdesk_plus.Api.Variants.{
  build_for_tenant, build_installer, build_icon_upload, build_branded_client,
}
use rustdesk_plus.Api.Http.{
  Call, HttpRequest, Reply, Response, answered, authorization, bearer, build, error_message,
  login_page, receive, request, tenant_header, thrown,
}
use rustdesk_plus.Api.Session.{
  Browser, get_active_tenant_id, get_stored_user, get_token, set_active_tenant,
  set_active_tenant_id, set_stored_user, set_token,
}
use rustdesk_plus.Api.SessionLaws.{build-headers, given, receive_unauthorized, requests-headers}
use rustdesk_plus.Api.Types.{Tenant}
use rustdesk_plus.Common.{
  Bool, List, Option, [], arith, false, if◌then◌else◌, inl, inr, none, refl, some, true, ℕ, ◌↔◌,
  ◌∙◌, ◌∷◌, ◌≡◌, ◌≢◌, ◌⊎◌,
}
use rustdesk_plus.Common.Dict.{lookup}
use rustdesk_plus.Common.Text.{Text, starts_with, text, text_eq, truthy}
use rustdesk_plus.Shell.Guard.{
  admitted, enter_tenant, free_pages, guard, home_page, is_free, is_super, is_under, logout,
  to_login, verdict,
}

verdict_lem :
    (signed super chosen free : Bool)
    → ((verdict signed super chosen free ≡ to_login) ↔ (signed ≡ false))
      × ((verdict signed super chosen free ≡ admitted)
          ↔ ((signed ≡ true) × ((super ≡ false) ⊎ ((chosen ≡ true) ⊎ (free ≡ true)))))
verdict_lem false super chosen free =
    ((λ e. refl, λ e. refl), (λ e. ground arith, λ e. ground arith))
verdict_lem true false chosen free =
    ((λ e. ground arith, λ e. ground arith), (λ e. (refl, inl refl), λ e. refl))
verdict_lem true true true free =
    ((λ e. ground arith, λ e. ground arith), (λ e. (refl, inr (inl refl)), λ e. refl))
verdict_lem true true false true =
    ((λ e. ground arith, λ e. ground arith), (λ e. (refl, inr (inr refl)), λ e. refl))
verdict_lem true true false false =
    ((λ e. ground arith, λ e. ground arith), (λ e. ground arith, λ e. ground arith))

-- In a browser the guard admits a page exactly if there is a token and the user is no super
-- administrator, or has chosen a tenant, or the page is a free one; without a token, and only then,
-- it leads to the login.
pub guard_lem :
    (b : Browser) (path : Text)
    → b.window ≡ true
    → ((guard b path ≡ to_login) ↔ (truthy b.token ≡ false))
      × ((guard b path ≡ admitted) ↔ (
          (truthy b.token ≡ true)
          × ((is_super b.user ≡ false) ⊎ ((truthy b.tenant_id ≡ true) ⊎ (is_free path ≡ true)))))
unfolding guard get_token get_stored_user get_active_tenant_id
guard_lem b path w =
    rw w (verdict_lem (truthy b.token) (is_super b.user) (truthy b.tenant_id) (is_free path))

home_free : is_free home_page ≡ true
unfolding home_page is_free free_pages is_under text_eq starts_with
home_free = refl

-- Whoever has a token in a browser, and nobody else, is admitted to the page to which the root leads.
pub guard-home_page :
    (b : Browser) → b.window ≡ true → (guard b home_page ≡ admitted) ↔ (truthy b.token ≡ true)
guard-home_page b w =
    let (shown, shows) = (guard_lem b home_page w).1 in
    ((λ h. (shown h).0), λ signed. shows (signed, inr (inr home_free)))

abbrev left : Browser → Browser
left b = record b { token = none; user = none; tenant_id = none; tenant_name = none }

logout_window : (b : Browser) → b.window ≡ true → logout b ≡ left b
unfolding logout set_token set_stored_user set_active_tenant set_active_tenant_id
logout_window b w = rw w

guard-left : (b : Browser) (path : Text) → b.window ≡ true → guard (left b) path ≡ to_login
unfolding guard get_token
guard-left b path w = rw w

-- After a logout in a browser the guard leads every page to the login, and no call that goes through
-- `request` carries the token or the tenant.
pub logout_lem :
    (api_url : Text) (b : Browser) (path : Text) (c : Call)
    → b.window ≡ true
    → let headers = (build api_url (logout b) c).headers in
      (guard (logout b) path ≡ to_login)
      × (lookup authorization headers ≡ none)
      × (lookup tenant_header headers ≡ none)
unfolding get_token get_active_tenant_id
logout_lem api_url b path c w = rw (logout_window b w) (
  guard-left b path w,
  (build-headers api_url (left b) c).1 ∙ ground arith,
  (build-headers api_url (left b) c).2 ∙ ground arith,
)

no_token_sent : (b : Browser) → get_token b ≡ none → Option.map bearer (given (get_token b)) ≡ none
no_token_sent b h = rw h refl

guard-no_token : (b : Browser) (path : Text) → get_token b ≡ none → guard b path ≡ to_login
unfolding guard
guard-no_token b path h = rw h refl

-- Where the server answers 401 to a call of `request` in a browser, the caller gets an error, the
-- browser goes to the login page, the user and the active tenant stay, the guard leads every page
-- to the login, and no request of any kind carries a token.
pub request_unauthorized {ℓ} :
    {T : Type ℓ} (api_url : Text) (server : HttpRequest → Reply T) (b : Browser) (res : Response T)
    (c next : Call) (path tenant_id : Text) (icon : List ℕ)
    → b.window ≡ true
    → server (build api_url b c) ≡ answered res
    → res.status ≡ 401
    → let (after, result) = request api_url server b c in
      let token_of : HttpRequest → Option Text = λ r. lookup authorization r.headers in
      (result ≡ thrown (error_message (text "request") res))
      × (after.location ≡ login_page)
      × (get_stored_user after ≡ get_stored_user b)
      × (get_active_tenant_id after ≡ get_active_tenant_id b)
      × (guard after path ≡ to_login)
      × (token_of (build api_url after next) ≡ none)
      × (token_of (build_for_tenant api_url after tenant_id) ≡ none)
      × (token_of (build_installer api_url after) ≡ none)
      × (token_of (build_icon_upload api_url after icon) ≡ none)
      × (token_of (build_branded_client api_url after) ≡ none)
unfolding request
request_unauthorized api_url server b res c next path tenant_id icon w reply s =
    let after = (receive b (answered res)).0 in
    let (gone, login, user, tenant, error) = receive_unauthorized b res w s in
    let (r1, r2, r3, r4, r5) = requests-headers api_url after next tenant_id icon in
    let none_sent = no_token_sent after gone in
    rw reply (
      error,
      login,
      user,
      tenant,
      guard-no_token after path gone,
      r1.1 ∙ none_sent,
      r2.1 ∙ none_sent,
      r3.1 ∙ none_sent,
      r4.1 ∙ none_sent,
      r5.1 ∙ none_sent,
    )

pub id_given : (s : Text) → s ≢ [] → truthy (some s) ≡ true
id_given [] n = ground arith
id_given (c ∷ s) n = refl

abbrev entered : Tenant → Browser → Browser
entered t b = record b {
  tenant_id = some t.id;
  tenant_name = if truthy (some t.name) then some t.name else none;
}

pub enter_tenant_given :
    (t : Tenant) (b : Browser) → b.window ≡ true → t.id ≢ [] → enter_tenant t b ≡ entered t b
unfolding enter_tenant set_active_tenant set_active_tenant_id
enter_tenant_given t b w n = rw (w, id_given t.id n)

guard-entered :
    (t : Tenant) (b : Browser) (path : Text)
    → b.window ≡ true
    → truthy b.token ≡ true
    → t.id ≢ []
    → guard (entered t b) path ≡ admitted
unfolding guard get_token get_active_tenant_id
guard-entered t b path w signed n =
    rw (w, signed, id_given t.id n)
      ((verdict_lem true (is_super b.user) true (is_free path)).1.1 (refl, inr (inl refl)))

-- Once a tenant with an id is entered, in a browser with a token, the guard admits every page,
-- and each call that goes through `request` names that tenant.
pub enter_tenant_lem :
    (api_url : Text) (b : Browser) (t : Tenant) (path : Text) (c : Call)
    → b.window ≡ true
    → truthy b.token ≡ true
    → t.id ≢ []
    → (guard (enter_tenant t b) path ≡ admitted)
      × (lookup tenant_header (build api_url (enter_tenant t b) c).headers ≡ some t.id)
unfolding get_active_tenant_id
enter_tenant_lem api_url b t path c w signed chosen = rw (enter_tenant_given t b w chosen) (
  guard-entered t b path w signed chosen,
  (build-headers api_url (entered t b) c).2 ∙ rw (w, id_given t.id chosen),
)
