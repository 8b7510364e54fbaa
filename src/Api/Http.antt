-- ===== src/Api/Http.antt =====
-- The fetch helper `request` of api.ts and its variants, as two parts: the request that is sent,
-- and what is done with the reply. The network and the server stand between them.
use rustdesk_plus.Api.Session.{Browser, get_active_tenant_id, get_token, set_token}
use rustdesk_plus.Common.{
  Bool, List, Option, [], if◌then◌else◌, leb, none, some, ℕ, ◌&&◌, ◌++◌, ◌==◌, ◌∷◌,
}
use rustdesk_plus.Common.Dict.{insert}
use rustdesk_plus.Common.Int.{ℤ}
use rustdesk_plus.Common.Text.{Text, decimal, or_else, or_text, text}

-- A body of `JSON.stringify`. A property that is undefined is left out: see `object`.
mutual
  pub data Json : Type 0 where
    null : Json
    bool : Bool → Json
    num : ℤ → Json
    str : Text → Json
    arr : Items → Json
    obj : Members → Json

  pub data Items : Type 0 where
    nil : Items
    cons : Json → Items → Items

  pub data Members : Type 0 where
    end : Members
    member : Text → Json → Members → Members

-- `{ k: v, … }`, where a value may be undefined
unfoldable pub members : List (Text × Option Json) → Members
members [] = end
members ((k, none) ∷ ms) = members ms
members ((k, some v) ∷ ms) = member k v (members ms)

unfoldable pub object : List (Text × Option Json) → Json
unfolding members
object ms = obj (members ms)

pub data Method : Type 0 where
  get post put patch delete : Method

-- What the callers pass to `request`.
pub record Call : Type 0 where
  pub method : Method
  pub path : Text
  pub body : Option Json

pub data Body : Type 0 where
  empty : Body
  json : Json → Body
  file : List ℕ → Body

abbrev pub body_of : Option Json → Body
body_of none = empty
body_of (some j) = json j

pub record HttpRequest : Type 0 where
  pub method : Method
  pub url : Text
  pub headers : List (Text × Text)
  pub body : Body

-- `res.json()` of a response that is no success: not JSON, or an object with its `error`.
pub data ErrorBody : Type 0 where
  unreadable : ErrorBody
  readable : Option Text → ErrorBody

-- What the promise of a call becomes.
pub data Result {ℓ} (T : Type ℓ) : Type ℓ where
  ok : T → Result T
  thrown : Text → Result T

pub record Response {ℓ} (T : Type ℓ) : Type ℓ where
  pub status : ℕ
  pub status_text : Text
  pub value : Result T  -- what `res.json()` of a success becomes
  pub error_body : ErrorBody

-- `fetch` rejects with a message, or answers.
pub data Reply {ℓ} (T : Type ℓ) : Type ℓ where
  unreachable : Text → Reply T
  answered : Response T → Reply T

abbrev pub content_type : Text
content_type = text "Content-Type"

abbrev pub authorization : Text
authorization = text "Authorization"

abbrev pub tenant_header : Text
tenant_header = text "X-Tenant-Id"

abbrev pub json_type : Text
json_type = text "application/json"

-- `if (v) headers[name] = …`
unfoldable pub set_header :
    Option Text → Text → (Text → Text) → List (Text × Text) → List (Text × Text)
unfolding insert
set_header none name render headers = headers
set_header (some []) name render headers = headers
set_header (some (c ∷ s)) name render headers = insert name (render (c ∷ s)) headers

abbrev pub bearer : Text → Text
bearer token = text "Bearer " ++ token

abbrev pub plain : Text → Text
plain value = value

-- The token and the active tenant, before the headers that are given.
unfoldable pub session_headers : Browser → List (Text × Text) → List (Text × Text)
unfolding set_header get_token get_active_tenant_id
session_headers b base =
    set_header (get_active_tenant_id b) tenant_header plain
      (set_header (get_token b) authorization bearer base)

module _ (api_url : Text) where
  -- The first half of `request`. No caller passes headers of its own.
  unfoldable pub build : Browser → Call → HttpRequest
  unfolding session_headers
  build b c = record {
    method = c.method;
    url = api_url ++ c.path;
    headers = session_headers b ((content_type, json_type) ∷ []);
    body = body_of c.body;
  }

abbrev pub is_success : ℕ → Bool
is_success status = leb 200 status && leb status 299

-- `body.error || …`, where `body` is `{ error: res.statusText }` if the response is not JSON
unfoldable pub error_message {ℓ} : {T : Type ℓ} → Text → Response T → Text
unfolding decimal
error_message what res =
    let fallback = what ++ text " failed: " ++ decimal res.status in
    elim res.error_body [
      | unreadable ↦ or_else res.status_text fallback
      | readable e ↦ or_text e fallback
    ]

abbrev pub login_page : Text
login_page = text "/login"

-- On 401 the token is dropped and the browser goes to the login page.
unfoldable pub drop_session : Browser → Browser
unfolding set_token
drop_session b = if b.window then record (set_token none b) { location = login_page } else b

-- The second half of `request`, and of `downloadInstaller`.
unfoldable pub receive {ℓ} : {T : Type ℓ} → Browser → Reply T → Browser × Result T
unfolding drop_session error_message
receive b (unreachable why) = (b, thrown why)
receive b (answered res) = if is_success res.status then (b, res.value) else (
  if res.status == 401 then drop_session b else b,
  thrown (error_message (text "request") res),
)

-- A call against a server that answers by `fetch`.
unfoldable pub request {ℓ} :
    {T : Type ℓ} → Text → (HttpRequest → Reply T) → Browser → Call → Browser × Result T
unfolding build receive
request api_url fetch b c = receive b (fetch (build api_url b c))
