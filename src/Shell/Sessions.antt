-- ===== src/Shell/Sessions.antt =====
-- The session as an abstract machine, and that the browser's storage (api.ts, auth.ts) under the
-- login, the layout and the replies implements it.
use mathlib.Core.Option
use mathlib.Core.Path.{subst}
use rustdesk_plus.Api.Http.{
  Call, Response, answered, authorization, bearer, build, drop_session, ok, receive, tenant_header,
}
use rustdesk_plus.Api.Session.{
  Browser, get_active_tenant_id, get_stored_user, get_token, set_active_tenant,
  set_active_tenant_id, set_stored_user, set_token, stored,
}
use rustdesk_plus.Api.SessionLaws.{build-headers, given}
use rustdesk_plus.Api.Types.{Tenant, User}
use rustdesk_plus.Common.{
  Bool-cases, List, Option, [], arith, if◌then◌else◌, inl, inr, is_some, none, not, refl, some,
  true, ◌&&◌, ◌==◌, ◌∙◌, ◌∷◌, ◌≡◌,
}
use rustdesk_plus.Common.Dict.{lookup}
use rustdesk_plus.Common.Text.{Text, truthy}
use rustdesk_plus.Shell.Guard.{
  Layout, Verdict, admitted, enter_tenant, exit_tenant, guard, is_free, is_super, logout, to_login,
  to_tenants, verdict,
}
use rustdesk_plus.Shell.Login.{LoginPage, LoginReply, on_login}

-- What a session is, whatever the keys of the storage are: no text in it is empty.
pub record Session : Type 0 where
  pub signed : Option Text
  pub account : Option User
  pub tenant : Option Text

pub data SessionEvent : Type 0 where
  logs_in : LoginReply → LoginPage → SessionEvent
  logs_out : SessionEvent
  leaves_tenant : Layout → SessionEvent
  enters_tenant : Tenant → SessionEvent
  replied : Response (Unit {0}) → SessionEvent

-- The handlers of the pages.
unfoldable pub session_step : Browser → SessionEvent → Browser
unfolding on_login logout exit_tenant enter_tenant receive
session_step b (logs_in r p) = (on_login (ok r) p b).1
session_step b logs_out = logout b
session_step b (leaves_tenant l) = (exit_tenant b l).0
session_step b (enters_tenant t) = enter_tenant t b
session_step b (replied res) = (receive b (answered res)).0

unfoldable pub session_steps : Browser → List SessionEvent → Browser
unfolding session_step
session_steps b [] = b
session_steps b (e ∷ es) = session_steps (session_step b e) es

-- What each of them promises. A reply 401 ends the session and forgets no tenant.
abbrev pub promised : Session → SessionEvent → Session
promised s (logs_in r p) = record s { signed = given (some r.token); account = some r.user }
promised s logs_out = record { signed = none; account = none; tenant = none }
promised s (leaves_tenant l) = record s { tenant = none }
promised s (enters_tenant t) = record s { tenant = given (some t.id) }
promised s (replied res) = if res.status == 401 then record s { signed = none } else s

abbrev pub all_promised : Session → List SessionEvent → Session
all_promised s [] = s
all_promised s (e ∷ es) = all_promised (promised s e) es

-- Where a session is led for a page.
abbrev pub may_see : Session → Text → Verdict
may_see s path = elim s.signed [
  | none ↦ to_login
  | some token ↦
      if is_super s.account && not (is_some s.tenant) && not (is_free path)
      then to_tenants
      else admitted
]

abbrev pub view : Browser → Session
view b = record { signed = given b.token; account = b.user; tenant = given b.tenant_id }

given-stored : (v : Option Text) → given (stored v) ≡ given v
given-stored none = refl
given-stored (some []) = refl
given-stored (some (c ∷ s)) = refl

session_step-view :
    (b : Browser) (e : SessionEvent)
    → b.window ≡ true
    → (view (session_step b e) ≡ promised (view b) e) × ((session_step b e).window ≡ true)
unfolding session_step on_login logout exit_tenant enter_tenant receive drop_session set_token
    set_stored_user set_active_tenant set_active_tenant_id
session_step-view b (logs_in r p) w = rw (w, given-stored (some r.token)) (refl, refl)
session_step-view b logs_out w = rw w (refl, refl)
session_step-view b (leaves_tenant l) w = rw w (refl, refl)
session_step-view b (enters_tenant t) w = rw (w, given-stored (some t.id)) (refl, refl)
session_step-view b (replied res) w = elim (Bool-cases (res.status == 401)) [
  | inl dropped ↦ (ground arith, ground arith)
  | inr stays ↦ (ground arith, ground arith)
]

session_steps-view :
    (b : Browser) (es : List SessionEvent)
    → b.window ≡ true
    → (view (session_steps b es) ≡ all_promised (view b) es) × ((session_steps b es).window ≡ true)
unfolding session_steps
session_steps-view b [] w = (refl, w)
session_steps-view b (e ∷ es) w =
    let (same, still) = session_step-view b e w in
    let rest = session_steps-view (session_step b e) es still in rw same at rest

verdict-may_see :
    (token tenant : Option Text) (user : Option User) (path : Text)
    → verdict (truthy token) (is_super user) (truthy tenant) (is_free path)
      ≡ may_see (record { signed = given token; account = user; tenant = given tenant }) path
verdict-may_see none tenant user path = refl
verdict-may_see (some []) tenant user path = refl
verdict-may_see (some (c ∷ s)) none user path = refl
verdict-may_see (some (c ∷ s)) (some []) user path = refl
verdict-may_see (some (c ∷ s)) (some (d ∷ u)) user path = refl

-- What the guard and `request` make of one browser, in terms of its session.
view-observed :
    (api_url : Text) (b : Browser) (path : Text) (c : Call)
    → b.window ≡ true
    → let headers = (build api_url b c).headers in
      (guard b path ≡ may_see (view b) path)
      × (get_stored_user b ≡ (view b).account)
      × (lookup authorization headers ≡ Option.map bearer (view b).signed)
      × (lookup tenant_header headers ≡ (view b).tenant)
unfolding guard get_token get_stored_user get_active_tenant_id
view-observed api_url b path c w =
    let (_, auth, tenant) = build-headers api_url b c in
    (
      rw w (verdict-may_see b.token b.tenant_id b.user path),
      rw w,
      auth ∙ ground arith,
      tenant ∙ ground arith,
    )

-- In a browser the storage implements the abstract session: after any logins, logouts, replies to
-- calls of `request`, and tenants entered and left, the guard's verdict for each page is what the
-- session promises, and each call that goes through `request` carries the token and the tenant of
-- the session, and no other.
pub session_steps-refines :
    (api_url : Text) (b : Browser) (es : List SessionEvent) (path : Text) (c : Call)
    → b.window ≡ true
    → let after = session_steps b es in
      let s = all_promised (view b) es in
      let headers = (build api_url after c).headers in
      (guard after path ≡ may_see s path)
      × (get_stored_user after ≡ s.account)
      × (lookup authorization headers ≡ Option.map bearer s.signed)
      × (lookup tenant_header headers ≡ s.tenant)
session_steps-refines api_url b es path c w =
    let (same, still) = session_steps-view b es w in
    let observed = view-observed api_url (session_steps b es) path c still in
    subst
      (λ s.
        let headers = (build api_url (session_steps b es) c).headers in
        (guard (session_steps b es) path ≡ may_see s path)
        × (get_stored_user (session_steps b es) ≡ s.account)
        × (lookup authorization headers ≡ Option.map bearer s.signed)
        × (lookup tenant_header headers ≡ s.tenant))
      same observed
