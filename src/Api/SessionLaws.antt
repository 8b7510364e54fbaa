-- ===== src/Api/SessionLaws.antt =====
-- What the calls send of the session, and what a reply does to it.
use mathlib.Core.Option
use rustdesk_plus.Api.Http.{
  Call, HttpRequest, Response, answered, authorization, bearer, build, content_type, drop_session,
  error_message, json_type, login_page, ok, plain, receive, session_headers, set_header,
  tenant_header, thrown,
}
use rustdesk_plus.Api.Session.{Browser, get_active_tenant_id, get_stored_user, get_token}
use rustdesk_plus.Api.Variants.{
  build_branded_client, build_for_tenant, build_icon_upload, build_installer,
}
use rustdesk_plus.Common.{
  List, Option, [], arith, if◌then◌else◌, none, refl, some, true, ℕ, ◌↔◌, ◌∷◌, ◌≡◌, ◌≢◌, ◌≤◌,
}
use rustdesk_plus.Common.Dict.{insert, lookup}
use rustdesk_plus.Common.Text.{Text, text, truthy}

-- `some` of the text where it is truthy
abbrev pub given : Option Text → Option Text
given v = if truthy v then v else none

abbrev json_headers : List (Text × Text)
json_headers = (content_type, json_type) ∷ []

-- A request says what it holds, where it does, carries the token exactly where the browser has one,
-- and names a tenant where it is for one.
abbrev pub SendsAs : Browser → Option Text → Option Text → HttpRequest → Type 0
SendsAs b type tenant r =
    (lookup content_type r.headers ≡ type)
    × (lookup authorization r.headers ≡ Option.map bearer (given (get_token b)))
    × (lookup tenant_header r.headers ≡ tenant)

-- The three headers after both session headers are set, by cases on what the browser has.
set_headers_lem :
    (type : Text) (tenant token : Option Text)
    → let headers =
        set_header tenant tenant_header plain
          (set_header token authorization bearer ((content_type, type) ∷ [])) in
      (lookup content_type headers ≡ some type)
      × (lookup authorization headers ≡ Option.map bearer (given token))
      × (lookup tenant_header headers ≡ given tenant)
unfolding set_header lookup
set_headers_lem type none none = (refl, refl, refl)
set_headers_lem type none (some []) = (refl, refl, refl)
set_headers_lem type none (some (c ∷ s)) = (refl, refl, refl)
set_headers_lem type (some []) none = (refl, refl, refl)
set_headers_lem type (some []) (some []) = (refl, refl, refl)
set_headers_lem type (some []) (some (c ∷ s)) = (refl, refl, refl)
set_headers_lem type (some (d ∷ u)) none = (refl, refl, refl)
set_headers_lem type (some (d ∷ u)) (some []) = (refl, refl, refl)
set_headers_lem type (some (d ∷ u)) (some (c ∷ s)) = (refl, refl, refl)

-- So where a request has no body.
set_headers_bare :
    (tenant token : Option Text)
    → let headers =
        set_header tenant tenant_header plain (set_header token authorization bearer []) in
      (lookup content_type headers ≡ none)
      × (lookup authorization headers ≡ Option.map bearer (given token))
      × (lookup tenant_header headers ≡ given tenant)
unfolding set_header lookup
set_headers_bare none none = (refl, refl, refl)
set_headers_bare none (some []) = (refl, refl, refl)
set_headers_bare none (some (c ∷ s)) = (refl, refl, refl)
set_headers_bare (some []) none = (refl, refl, refl)
set_headers_bare (some []) (some []) = (refl, refl, refl)
set_headers_bare (some []) (some (c ∷ s)) = (refl, refl, refl)
set_headers_bare (some (d ∷ u)) none = (refl, refl, refl)
set_headers_bare (some (d ∷ u)) (some []) = (refl, refl, refl)
set_headers_bare (some (d ∷ u)) (some (c ∷ s)) = (refl, refl, refl)

set_headers_for :
    (tenant_id : Text) (token : Option Text)
    → let headers =
        insert tenant_header tenant_id (set_header token authorization bearer json_headers) in
      (lookup content_type headers ≡ some json_type)
      × (lookup authorization headers ≡ Option.map bearer (given token))
      × (lookup tenant_header headers ≡ some tenant_id)
unfolding set_header lookup insert
set_headers_for tenant_id none = (refl, refl, refl)
set_headers_for tenant_id (some []) = (refl, refl, refl)
set_headers_for tenant_id (some (c ∷ s)) = (refl, refl, refl)

-- A call that goes through `request` says that it is JSON, carries the token exactly where the
-- browser has one, and names the active tenant exactly where one is chosen.
pub build-headers :
    (api_url : Text) (b : Browser) (c : Call)
    → SendsAs b (some json_type) (given (get_active_tenant_id b)) (build api_url b c)
unfolding build session_headers
build-headers api_url b c = set_headers_lem json_type (get_active_tenant_id b) (get_token b)

-- Each of the five ways to make a request carries the token exactly where the browser has one. Each
-- names the active tenant exactly where one is chosen, but `getServerConfigForTenant`, which names
-- the tenant that is asked for, whatever tenant is active. The type of the content is JSON for that
-- one and for `request`, the icon's for its upload, and missing for the two downloads.
pub requests-headers :
    (api_url : Text) (b : Browser) (c : Call) (tenant_id : Text) (icon : List ℕ)
    → let active = given (get_active_tenant_id b) in
      SendsAs b (some json_type) active (build api_url b c)
      × SendsAs b (some json_type) (some tenant_id) (build_for_tenant api_url b tenant_id)
      × SendsAs b none active (build_installer api_url b)
      × SendsAs b (some (text "application/octet-stream")) active (build_icon_upload api_url b icon)
      × SendsAs b none active (build_branded_client api_url b)
unfolding build build_for_tenant build_installer build_icon_upload build_branded_client
    session_headers
requests-headers api_url b c tenant_id icon =
    let tenant = get_active_tenant_id b in
    let token = get_token b in
    (
      build-headers api_url b c,
      set_headers_for tenant_id token,
      set_headers_bare tenant token,
      set_headers_lem (text "application/octet-stream") tenant token,
      set_headers_bare tenant token,
    )

receive_of_401 {ℓ} :
    {T : Type ℓ} (b : Browser) (res : Response T)
    → res.status ≡ 401
    → receive b (answered res) ≡ (drop_session b, thrown (error_message (text "request") res))
unfolding receive
receive_of_401 b res s = rw s

abbrev signed_out : Browser → Browser
signed_out b = record b { token = none; location = login_page }

drop_session_lem : (b : Browser) → b.window ≡ true → drop_session b ≡ signed_out b
unfolding drop_session
drop_session_lem b w = rw w

-- After a reply of status 401 to a call of `request` in a browser the token is gone and the browser
-- goes to the login page; the user and the active tenant stay; the caller gets an error.
pub receive_unauthorized {ℓ} :
    {T : Type ℓ} (b : Browser) (res : Response T)
    → b.window ≡ true
    → res.status ≡ 401
    → let (after, result) = receive b (answered res) in
      (get_token after ≡ none)
      × (after.location ≡ login_page)
      × (get_stored_user after ≡ get_stored_user b)
      × (get_active_tenant_id after ≡ get_active_tenant_id b)
      × (result ≡ thrown (error_message (text "request") res))
unfolding get_token get_stored_user get_active_tenant_id
receive_unauthorized b res w s =
    rw (receive_of_401 b res s, drop_session_lem b w) (ground arith, refl, refl, refl, refl)

-- Any other answer leaves the session as it was, and the caller gets a value exactly if the status
-- is a success and that value is its body.
pub receive_other {ℓ} :
    {T : Type ℓ} (b : Browser) (res : Response T) (v : T)
    → res.status ≢ 401
    → ((receive b (answered res)).0 ≡ b)
      × (((receive b (answered res)).1 ≡ ok v)
          ↔ ((200 ≤ res.status) × (res.status ≤ 299) × (res.value ≡ ok v)))
unfolding receive
receive_other b res v n = (ground arith, (λ e. ground arith, λ e. ground arith))
