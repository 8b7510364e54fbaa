-- ===== src/Api/Queries/Sent.antt =====
-- The parameters of a call of api.ts as the server reads them.
use rustdesk_plus.Api.Http.{Call}
use rustdesk_plus.Api.Queries.{
  ListFilter, bool_param, bool_text, list_devices, params_of, text_param, with_query,
}
use rustdesk_plus.Common.{
  All, Bool, List, Option, [], ap, false, if◌then◌else◌, none, refl, some, true, ◌==◌, ◌∙◌, ◌∷◌,
  ◌≡◌,
}
use rustdesk_plus.Common.Percent.{query_string}
use rustdesk_plus.Common.Percent.Query.{
  AreSent, IsSent, ascii-IsSent, read_query, read_query-query_string,
}
use rustdesk_plus.Common.Text.{Text, text}

unfoldable pub query_of : Text → Text
query_of [] = []
query_of (c ∷ s) = let rest = query_of s in if c == b'?' then s else rest

-- The parameters in the address of a call.
unfoldable pub sent_params : Call → List (Text × Text)
unfolding query_of read_query
sent_params call = read_query (query_of call.path)

query_of-devices : (qs : Text) → query_of (with_query (text "/admin/devices") qs) ≡ qs
unfolding query_of
query_of-devices [] = refl
query_of-devices (c ∷ qs) = refl

-- What is set for `listDevices` is read, where none of its texts has a lone surrogate.
pub sent_params-list_devices :
    (f : ListFilter) → All AreSent (params_of f) → sent_params (list_devices f) ≡ params_of f
unfolding sent_params list_devices
sent_params-list_devices f h =
    ap read_query (query_of-devices (query_string (params_of f)))
    ∙ read_query-query_string (params_of f) h

pub text_param-AreSent : (k s : Text) → IsSent k → IsSent s → All AreSent (text_param k (some s))
text_param-AreSent k [] hk hs = tt
text_param-AreSent k (c ∷ s) hk hs = ((hk, hs), tt)

bool_text-IsSent : (b : Bool) → IsSent (bool_text b)
bool_text-IsSent true = ascii-IsSent (text "true") refl
bool_text-IsSent false = ascii-IsSent (text "false") refl

pub bool_param-AreSent : (k : Text) (v : Option Bool) → IsSent k → All AreSent (bool_param k v)
bool_param-AreSent k none h = tt
bool_param-AreSent k (some b) h = ((h, bool_text-IsSent b), tt)
