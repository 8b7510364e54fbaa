-- ===== src/Tests/Session.antt =====
-- Requests and replies at concrete inputs.
use rustdesk_plus.Api.Http.{
  Call, HttpRequest, Reply, Response, authorization, build, error_message, get, json_type,
  login_page, ok, readable, request, thrown,
}
use rustdesk_plus.Api.Session.{Browser, get_active_tenant_id, get_stored_user}
use rustdesk_plus.Api.SessionLaws.{SendsAs, requests-headers}
use rustdesk_plus.Api.Variants.{
  build_branded_client, build_for_tenant, build_icon_upload, build_installer,
}
use rustdesk_plus.Common.{Option, [], none, refl, some, true, ℕ, ◌∷◌, ◌≡◌}
use rustdesk_plus.Common.Dict.{lookup}
use rustdesk_plus.Common.Text.{Text, text}
use rustdesk_plus.Shell.Access.{request_unauthorized}
use rustdesk_plus.Shell.Guard.{guard, to_login}

abbrev server : Text
server = text "http://plus:3001"

abbrev signed_in : Browser
signed_in = record {
  window = true;
  token = some (text "jwt");
  user = none;
  tenant_id = some (text "t1");
  tenant_name = some (text "Trivio");
  location = text "/devices";
}

abbrev list_call : Call
list_call = record { method = get; path = text "/admin/tags"; body = none }

abbrev reply_of : ℕ → Response ℕ
reply_of status = record {
  status = status;
  status_text = text "Unauthorized";
  value = ok 5;
  error_body = readable (some (text "sessão expirada"));
}

requests-headers_example :
    SendsAs signed_in (some json_type) (some (text "t1")) (build server signed_in list_call)
    × SendsAs signed_in
        (some json_type)
        (some (text "t2"))
        (build_for_tenant server signed_in (text "t2"))
    × SendsAs signed_in none (some (text "t1")) (build_installer server signed_in)
    × SendsAs signed_in
        (some (text "application/octet-stream"))
        (some (text "t1"))
        (build_icon_upload server signed_in (7 ∷ []))
    × SendsAs signed_in none (some (text "t1")) (build_branded_client server signed_in)
unfolding get_active_tenant_id
requests-headers_example = requests-headers server signed_in list_call (text "t2") (7 ∷ [])

abbrev refuses : HttpRequest → Reply ℕ
refuses r = Reply.answered (reply_of 401)

request_unauthorized_example :
    let (after, result) = request server refuses signed_in list_call in
    let token_of : HttpRequest → Option Text = λ r. lookup authorization r.headers in
    (result ≡ thrown (error_message (text "request") (reply_of 401)))
    × (after.location ≡ login_page)
    × (get_stored_user after ≡ get_stored_user signed_in)
    × (get_active_tenant_id after ≡ get_active_tenant_id signed_in)
    × (guard after (text "/devices") ≡ to_login)
    × (token_of (build server after list_call) ≡ none)
    × (token_of (build_for_tenant server after (text "t2")) ≡ none)
    × (token_of (build_installer server after) ≡ none)
    × (token_of (build_icon_upload server after (7 ∷ [])) ≡ none)
    × (token_of (build_branded_client server after) ≡ none)
request_unauthorized_example =
    request_unauthorized server refuses signed_in (reply_of 401) list_call list_call
      (text "/devices") (text "t2") (7 ∷ []) refl refl refl
