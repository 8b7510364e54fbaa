-- ===== src/Api/Variants.antt =====
-- The calls of api.ts that write `fetch` out instead of using `request`.
use rustdesk_plus.Api.Http.{
  HttpRequest, Reply, Result, answered, authorization, bearer, content_type, empty, error_message,
  file, get, is_success, json_type, post, session_headers, set_header, tenant_header, thrown,
  unreachable,
}
use rustdesk_plus.Api.Session.{Browser, get_token}
use rustdesk_plus.Common.{List, [], if◌then◌else◌, ℕ, ◌++◌, ◌∷◌}
use rustdesk_plus.Common.Dict.{insert}
use rustdesk_plus.Common.Text.{Text, decimal, text}

abbrev octet_stream : Text
octet_stream = text "application/octet-stream"

module _ (api_url : Text) where
  -- The request of `getServerConfigForTenant`: the tenant is the argument.
  unfoldable pub build_for_tenant : Browser → Text → HttpRequest
  unfolding set_header get_token
  build_for_tenant b tenant_id = record {
    method = get;
    url = api_url ++ text "/admin/server-config";
    headers =
        insert tenant_header tenant_id
          (set_header (get_token b) authorization bearer ((content_type, json_type) ∷ []));
    body = empty;
  }

  -- The request of `downloadInstaller`
  unfoldable pub build_installer : Browser → HttpRequest
  unfolding session_headers
  build_installer b = record {
    method = get;
    url = api_url ++ text "/admin/installer";
    headers = session_headers b [];
    body = empty;
  }

  -- The request of `uploadBrandingIcon`: the body is the file.
  unfoldable pub build_icon_upload : Browser → List ℕ → HttpRequest
  unfolding session_headers
  build_icon_upload b contents = record {
    method = post;
    url = api_url ++ text "/admin/branding/icon";
    headers = session_headers b ((content_type, octet_stream) ∷ []);
    body = file contents;
  }

  -- The request of `downloadBrandedClient`
  unfoldable pub build_branded_client : Browser → HttpRequest
  unfolding session_headers
  build_branded_client b = record {
    method = get;
    url = api_url ++ text "/admin/branding/download";
    headers = session_headers b [];
    body = empty;
  }

-- What `getServerConfigForTenant` makes of the reply: a failure names the status only.
unfoldable pub receive_for_tenant {ℓ} : {T : Type ℓ} → Reply T → Result T
unfolding decimal
receive_for_tenant (unreachable why) = thrown why
receive_for_tenant (answered res) =
    if is_success res.status
    then res.value
    else thrown (text "request failed: " ++ decimal res.status)

-- What `uploadBrandingIcon` ("upload") and `downloadBrandedClient` ("request") make of the reply.
unfoldable pub receive_branding {ℓ} : {T : Type ℓ} → Text → Reply T → Result T
unfolding error_message
receive_branding what (unreachable why) = thrown why
receive_branding what (answered res) =
    if is_success res.status then res.value else thrown (error_message what res)
